-- ===== src/Limits/Kept.antt =====
-- `update` of apps/cloudbroker/base/cloudapi__cloudspaces against the limits of the account.
use openvcloud.Prelude.{
  ℕ, suc, ◌≡◌, refl, Bool, true, false, not, ◌&&◌, ◌||◌, Option, none, some, List, [], ◌∷◌, any,
  arith, String, Bool-cases, Option-cases, ap, sym, ◌∙◌, inl, inr, ◌⊎◌, subst, ==_refl,
}
use openvcloud.Prelude.Int.{ℤ, pos, ◌≤ℤ◌, ltb_ℤ}
use openvcloud.Result.{Result, ok, err, Error, bad_request, conflict, Result-cases}
use openvcloud.Models.{CuType, cu_m, cu_d, cu_c, cu_np, cu_i, Limits, Account, Cloudspace, Models}
use openvcloud.Models.Table.{get, set, id-get}
use openvcloud.Limits.{
  all_units, is_unlimited, is_destroyed, Request, counts, reserved, fill_resource_limits,
  validate_available, exceeds, account_of,
}
use openvcloud.Limits.Reserve.{UniqueIds, cloudspace_id_of, stored_fits, any-all_units}
use openvcloud.Limits.Room.{same_cu-eq}
use openvcloud.Limits.Change.{
  same_cu, set_limit, below, consumed_in_cloudspace, change_cloudspace_limit,
  change_cloudspace_limits, update_cloudspace, list_active_cloudspaces, validate_if, requested,
  renamed, sizes_or, name_taken, active_of, spaces_of,
}

abbrev pub entry : CuType → Result Limits → Option ℤ
entry cu (ok limits) = limits cu
entry cu (err e) = none

pub limited_pos : (n : ℕ) → is_unlimited (pos n) ≡ false
limited_pos n = ground arith

pub same_cu_self : (c : CuType) → same_cu c c ≡ true
same_cu_self c = ground arith

pub request_same :
    (request : Request) (c cu : CuType) (z y : ℤ)
    → same_cu c cu ≡ true
    → request cu ≡ some z
    → request c ≡ some y
    → y ≡ z
request_same request c cu z y s r e = some_eq (sym e ∙ ap request (same_cu-eq c cu s) ∙ r)
  where
    some_eq : some y ≡ some z → y ≡ z
    some_eq q = cc

pub set_limit_lem :
    (limits : Limits) (c cu : CuType) (z y : ℤ)
    → (same_cu c cu ≡ true → y ≡ z)
    → (limits cu ≡ some z) ⊎ (same_cu c cu ≡ true)
    → set_limit c y limits cu ≡ some z
set_limit_lem limits c cu z y same w = elim (Bool-cases (same_cu c cu)) [
  | inl s ↦ rw (s, same s) refl
  | inr s ↦ elim w [ inl e ↦ rw s e | inr t ↦ absurd (ground arith) ]
]

module _ (k : ℕ) (request : Request) (models : Models) (cu : CuType) (z : ℤ) where
  sets_one :
      (c : CuType) (limits after : Limits)
      → change_cloudspace_limit k request models c limits ≡ ok after
      → request cu ≡ some z
      → (limits cu ≡ some z) ⊎ (same_cu c cu ≡ true)
      → after cu ≡ some z
  unfolding change_cloudspace_limit
  sets_one c limits after h r w = elim (Option-cases (request c)) [
    | inl e ↦ elim w [
      | inl q ↦ sym (ap (entry cu) (rw (e, change_cloudspace_limit) at h)) ∙ q
      | inr s ↦ absurd (cc (r, e, same_cu-eq c cu s))
    ]
    | inr (y, e) ↦ elim (Result-cases (consumed_in_cloudspace c k models)) [
      | inr (x, q) ↦ absurd (refused x (rw (e, change_cloudspace_limit, q) at h))
      | inl (n, q) ↦
          elim (Bool-cases
            ((same_cu c cu_i && (not (is_unlimited y) && ltb_ℤ y (pos 1))) || below c y n)) [
              | inl b ↦ absurd (refused bad_request (rw (e, change_cloudspace_limit, q, b) at h))
              | inr b ↦
                  sym (ap (entry cu) (rw (e, change_cloudspace_limit, q, b) at h))
                  ∙ set_limit_lem limits c cu z y (λ s. request_same request c cu z y s r e) w
            ]
    ]
  ]
    where
      refused : (x : Error) → ¬ ((let s : Result Limits = err x in s) ≡ ok after)
      refused x q = cc

  sets :
      (cus : List CuType) (limits after : Limits)
      → change_cloudspace_limits k request models cus limits ≡ ok after
      → request cu ≡ some z
      → (limits cu ≡ some z) ⊎ (any (λ c. same_cu c cu) cus ≡ true)
      → after cu ≡ some z
  unfolding change_cloudspace_limits
  sets [] limits after h r w = elim w [
    | inl q ↦ sym (ap (entry cu) h) ∙ q
    | inr s ↦ absurd (ground arith)
  ]
  sets (c ∷ cus) limits after h r w =
      elim (Result-cases (change_cloudspace_limit k request models c limits)) [
        | inr (x, q) ↦ absurd (ground arith)
        | inl (next, q) ↦ sets cus next after (rw q at h) r (elim w [
          | inl e ↦ inl (sets_one c limits next q r (inl e))
          | inr s ↦ elim (Bool-cases (same_cu c cu)) [
            | inl t ↦ inl (sets_one c limits next q r (inr t))
            | inr t ↦ inr (rw t at s)
          ]
        ])
      ]

abbrev updated : Cloudspace → Option String → Limits → List ℕ → Cloudspace
updated cs name limits sizes = record cs {
  name = renamed name cs.name;
  resource_limits = limits;
  allowed_vm_sizes = sizes_or sizes cs.allowed_vm_sizes;
}

abbrev fails : Request → Models → Cloudspace → Limits → CuType → Bool
fails request models cs filled u =
    exceeds (request u) (filled u) (reserved cs.account_id (some cs.id) u models.cloudspace)

asks :
    (request : Request) (cu : CuType) (n : ℕ)
    → request cu ≡ some (pos (suc n))
    → requested request ≡ true
asks request cu_m n r = ground arith
asks request cu_d n r = ground arith
asks request cu_c n r = ground arith
asks request cu_np n r = ground arith
asks request cu_i n r = ground arith

pub every_unit : (cu : CuType) → any (λ c. same_cu c cu) all_units ≡ true
every_unit cu = ground arith

counted : (cs : Cloudspace) → is_destroyed cs ≡ false → counts cs.account_id none cs ≡ true
counted cs d = ground (arith, ==_refl cs.account_id)

-- What an `update` that succeeds has passed and written.
update_cloudspace_lem :
    (k : ℕ) (name : Option String) (request : Request) (sizes : List ℕ) (models t : Models)
    (cs : Cloudspace) (account : Account) (filled : Limits)
    → get cloudspace_id_of k models.cloudspace ≡ some cs
    → get (λ (a : Account). a.id) cs.account_id models.account ≡ some account
    → fill_resource_limits false account.resource_limits ≡ ok filled
    → requested request ≡ true
    → update_cloudspace k name request sizes models ≡ (ok true, t)
    → (limits : Limits) × (change_cloudspace_limits k request models all_units cs.resource_limits
        ≡ ok limits)
      × (any (fails request models cs filled) all_units ≡ false)
      × (t.cloudspace ≡ set cloudspace_id_of (updated cs name limits sizes) models.cloudspace)
unfolding update_cloudspace list_active_cloudspaces validate_if validate_available account_of
update_cloudspace_lem k name request sizes models t cs account filled g a f q h =
    elim (Bool-cases (name_taken name cs (active_of account (spaces_of cs.account_id models)))) [
      | inl y ↦ absurd (refused conflict (rw (g, a, y) at h))
      | inr y ↦ elim (Bool-cases (any (fails request models cs filled) all_units)) [
        | inl b ↦ absurd (refused bad_request (rw (g, a, y, q, a, f, b) at h))
        | inr b ↦
            elim (Result-cases
              (change_cloudspace_limits k request models all_units cs.resource_limits)) [
                | inr (x, c) ↦ absurd (refused x (rw (g, a, y, q, a, f, b, c) at h))
                | inl (limits, c) ↦ (
                  limits,
                  c,
                  b,
                  sym (
                      ap (λ (x : Result Bool × Models). x.1.cloudspace)
                        (rw (g, a, y, q, a, f, b, c) at h)),
                )
              ]
      ]
    ]
  where
    refused : (x : Error) → ¬ ((let s : Result Bool × Models = (err x, models) in s) ≡ (ok true, t))
    refused x p = cc

-- An `update` that succeeds leaves room: where it asks for a positive limit of a unit, and the account
-- has a limit of that unit, then what the cloudspaces of the account reserve is within the limit
-- of the account.
pub update_cloudspace-fits :
    (k : ℕ) (name : Option String) (request : Request) (sizes : List ℕ) (models t : Models)
    (cu : CuType) (n l : ℕ) (cs : Cloudspace) (account : Account) (filled : Limits)
    → UniqueIds models.cloudspace
    → get cloudspace_id_of k models.cloudspace ≡ some cs
    → get (λ (a : Account). a.id) cs.account_id models.account ≡ some account
    → fill_resource_limits false account.resource_limits ≡ ok filled
    → is_destroyed cs ≡ false
    → request cu ≡ some (pos (suc n))
    → filled cu ≡ some (pos l)
    → update_cloudspace k name request sizes models ≡ (ok true, t)
    → reserved cs.account_id none cu t.cloudspace ≤ℤ pos l
update_cloudspace-fits k name request sizes models t cu n l cs account filled w g a f d r z h =
    let (limits, c, b, e) =
      update_cloudspace_lem k name request sizes models t cs account filled g a f
        (asks request cu n r) h in
    let one = any-all_units (λ u. fails request models cs filled u) cu b in
    let own : cs.id ≡ k = id-get cloudspace_id_of k models.cloudspace cs g in
    rw e (
      stored_fits cs.account_id cu (updated cs name limits sizes) cs models.cloudspace n l w
        (subst (λ j. get cloudspace_id_of j models.cloudspace ≡ some cs) (sym own) g)
        (sets k request models cu (pos (suc n)) all_units cs.resource_limits limits c r
          (inr (every_unit cu)))
        (rw (r, z) at one) (counted cs d))
