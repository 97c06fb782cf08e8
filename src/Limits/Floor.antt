-- ===== src/Limits/Floor.antt =====
-- `update` of apps/cloudbroker/base/cloudapi__accounts: the limits that it stores.
use openvcloud.Prelude.{
  ℕ, ◌*◌, ◌≤◌, ◌≡◌, Bool, true, Option, none, some, List, [], ◌∷◌, any, arith, String, Bool-cases,
  Option-cases, ap, sym, ◌∙◌, inl, inr, ◌⊎◌, subst,
}
use openvcloud.Prelude.Int.{ℤ, pos, ◌≤ℤ◌, ltb_ℤ}
use openvcloud.Result.{Result, ok, err, Error, Result-cases, same_ok, err_not_ok}
use openvcloud.Models.{CuType, Limits, Account, Models}
use openvcloud.Models.Table.{get, set, id-get}
use openvcloud.Limits.{all_units, is_unlimited, Request, reserved, account_of}
use openvcloud.Limits.Room.{same_cu-eq}
use openvcloud.Limits.Kept.{entry, limited_pos, request_same, set_limit_lem, every_unit}
use openvcloud.Models.Unique.{get-set}
use openvcloud.Limits.Change.{
  account_id_of, update_account, change_account_limits, emails_or, same_cu, set_limit, below,
  requested, change_account_limit, consumed_in_account, scale, renamed,
}

-- A block that passes on a limit that is not negative.
block_floor :
    (k n : ℕ) (request : Request) (models : Models) (cu : CuType) (limits after : Limits)
    → change_account_limit k request models cu limits ≡ ok after
    → request cu ≡ some (pos n)
    → (used : ℕ) × (consumed_in_account cu k models ≡ ok used)
      × (used ≤ n * scale cu)
      × (reserved k none cu models.cloudspace ≤ℤ pos n)
unfolding change_account_limit
block_floor k n request models cu limits after h r =
    elim (Result-cases (consumed_in_account cu k models)) [
      | inr (x, e) ↦ absurd (cc (rw (r, change_account_limit, e) at h))
      | inl (used, e) ↦ elim (Bool-cases (below cu (pos n) used)) [
        | inl b ↦ absurd (cc (rw (r, change_account_limit, e, b) at h))
        | inr b ↦ elim (Bool-cases (requested request)) [
          | inr q ↦ absurd (cc (rw (r, change_account_limit, e, b, limited_pos n, q) at h))
          | inl q ↦ elim (Bool-cases (ltb_ℤ (pos n) (reserved k none cu models.cloudspace))) [
            | inl m ↦
                let h' = rw (r, change_account_limit, e, b, limited_pos n, q) at h in
                absurd (ground arith)
            | inr m ↦ (used, e, ground arith, ground arith)
          ]
        ]
      ]
    ]

refused : {A : Type 0} {x : Error} {a : A} → ¬ ((let r : Result A = err x in r) ≡ ok a)
refused q = cc

-- A block that passes leaves the limits, or sets the one that is asked for.
block_sets :
    (k : ℕ) (request : Request) (models : Models) (c : CuType) (limits after : Limits)
    → change_account_limit k request models c limits ≡ ok after
    → ((request c ≡ none) × (limits ≡ after))
      ⊎ ((y : ℤ) × (request c ≡ some y) × (set_limit c y limits ≡ after))
unfolding change_account_limit
block_sets k request models c limits after h = elim (Option-cases (request c)) [
  | inl e ↦ inl (e, some_ok (rw (e, change_account_limit) at h))
  | inr (y, e) ↦ elim (Result-cases (consumed_in_account c k models)) [
    | inr (x, q) ↦ absurd (refused (rw (e, change_account_limit, q) at h))
    | inl (used, q) ↦ elim (Bool-cases (below c y used)) [
      | inl b ↦ absurd (refused (rw (e, change_account_limit, q, b) at h))
      | inr b ↦ elim (Bool-cases (is_unlimited y)) [
        | inl u ↦ inr (y, e, some_ok (rw (e, change_account_limit, q, b, u) at h))
        | inr u ↦ elim (Bool-cases (requested request)) [
          | inr d ↦ absurd (refused (rw (e, change_account_limit, q, b, u, d) at h))
          | inl d ↦ elim (Bool-cases (ltb_ℤ y (reserved k none c models.cloudspace))) [
            | inl m ↦ absurd (refused (rw (e, change_account_limit, q, b, u, d, m) at h))
            | inr m ↦ inr (y, e, some_ok (rw (e, change_account_limit, q, b, u, d, m) at h))
          ]
        ]
      ]
    ]
  ]
]
  where
    some_ok : {a b : Limits} → (let r : Result Limits = ok a in r) ≡ ok b → a ≡ b
    some_ok q = cc

module _ (k n : ℕ) (request : Request) (models : Models) (cu : CuType)
    (r : request cu ≡ some (pos n)) where
  -- What the account consumes and reserves of the unit is within the limit.
  abbrev Within : Type 0
  Within =
      (used : ℕ) × (consumed_in_account cu k models ≡ ok used)
      × (used ≤ n * scale cu)
      × (reserved k none cu models.cloudspace ≤ℤ pos n)

  block_keeps :
      (c : CuType) (limits after : Limits)
      → change_account_limit k request models c limits ≡ ok after
      → (limits cu ≡ some (pos n)) ⊎ (same_cu c cu ≡ true)
      → after cu ≡ some (pos n)
  block_keeps c limits after h w = elim (block_sets k request models c limits after h) [
    | inl (e, q) ↦ elim w [
      | inl l ↦ sym (ap (λ (f : Limits). f cu) q) ∙ l
      | inr s ↦ absurd (cc (r, e, same_cu-eq c cu s))
    ]
    | inr (y, e, q) ↦
        sym (ap (λ (f : Limits). f cu) q)
        ∙ set_limit_lem limits c cu (pos n) y (λ s. request_same request c cu (pos n) y s r e) w
  ]

  loop_keeps :
      (cus : List CuType) (limits after : Limits)
      → change_account_limits k request models cus limits ≡ ok after
      → (limits cu ≡ some (pos n)) ⊎ (any (λ c. same_cu c cu) cus ≡ true)
      → after cu ≡ some (pos n)
  unfolding change_account_limits
  loop_keeps [] limits after h w = elim w [
    | inl q ↦ sym (ap (entry cu) h) ∙ q
    | inr s ↦ absurd (ground arith)
  ]
  loop_keeps (c ∷ cus) limits after h w =
      elim (Result-cases (change_account_limit k request models c limits)) [
        | inr (x, q) ↦ absurd (refused (rw q at h))
        | inl (next, q) ↦ loop_keeps cus next after (rw q at h) (elim w [
          | inl e ↦ inl (block_keeps c limits next q (inl e))
          | inr s ↦ elim (Bool-cases (same_cu c cu)) [
            | inl t ↦ inl (block_keeps c limits next q (inr t))
            | inr t ↦ inr (rw t at s)
          ]
        ])
      ]

  loop_floor :
      (cus : List CuType) (limits after : Limits)
      → change_account_limits k request models cus limits ≡ ok after
      → any (λ c. same_cu c cu) cus ≡ true
      → Within
  unfolding change_account_limits
  loop_floor [] limits after h s = absurd (ground arith)
  loop_floor (c ∷ cus) limits after h s =
      elim (Result-cases (change_account_limit k request models c limits)) [
        | inr (x, q) ↦ absurd (refused (rw q at h))
        | inl (next, q) ↦ elim (Bool-cases (same_cu c cu)) [
          | inl t ↦
              block_floor k n request models cu limits next
                (subst (λ d. change_account_limit k request models d limits ≡ ok next)
                  (same_cu-eq c cu t) q)
                r
          | inr t ↦ loop_floor cus next after (rw q at h) (rw t at s)
        ]
      ]

-- If `update` of an account succeeds and asks for a limit of a unit that is not negative, then the
-- account has this limit, and both what its cloudspaces consume and what they reserve of the unit
-- are within it.
pub update_account-fits :
    (k n : ℕ) (name : Option String) (request : Request) (emails : Option Bool) (models t : Models)
    (cu : CuType) (account : Account)
    → get account_id_of k models.account ≡ some account
    → request cu ≡ some (pos n)
    → update_account k name request emails models ≡ (ok true, t)
    → (used : ℕ) × (consumed_in_account cu k models ≡ ok used)
      × (used ≤ n * scale cu)
      × (reserved k none cu models.cloudspace ≤ℤ pos n)
      × (after : Account) × (get account_id_of k t.account ≡ some after)
      × (after.resource_limits cu ≡ some (pos n))
unfolding update_account account_of
update_account-fits k n name request emails models t cu account g r h =
    elim (Result-cases (change_account_limits k request models all_units account.resource_limits)) [
      | inr (x, e) ↦ absurd (err_not_ok (rw (g, e) at h))
      | inl (limits, e) ↦
          let (used, counted, within, left) =
            loop_floor k n request models cu r all_units account.resource_limits limits e
              (every_unit cu) in
          let value =
            loop_keeps k n request models cu r all_units account.resource_limits limits e
              (inr (every_unit cu)) in
          let a : Account = record account {
            name = renamed name account.name;
            resource_limits = limits;
            send_access_emails = emails_or emails account.send_access_emails;
          } in
          let own = id-get account_id_of k models.account account g in
          let stored : get account_id_of k (set account_id_of a models.account) ≡ some a =
            subst (λ i. get account_id_of i (set account_id_of a models.account) ≡ some a) own
              (get-set account_id_of a account models.account
                (subst (λ i. get account_id_of i models.account ≡ some account) (sym own) g)) in
          let after = (same_ok (rw (g, e) at h)).1 in
          (
            used,
            counted,
            within,
            left,
            a,
            subst (λ (u : Models). get account_id_of k u.account ≡ some a) after stored,
            value,
          )
    ]
