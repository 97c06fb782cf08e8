-- ===== src/Limits/Reserve.antt =====
-- What the cloudspaces reserve of their account: `getReservedCloudUnits` and
-- `_validateAvaliableAccountResources`.
use openvcloud.Prelude.{
  ℕ, suc, ◌≡◌, refl, Bool, true, false, Option, none, some, List, [], ◌∷◌, ◌==◌, ==_iff, subst, ap,
  sym, ◌∙◌, any, arith, if◌then◌else◌, Bool-cases, inl, inr,
}
use openvcloud.Prelude.Int.{ℤ, pos, ◌+ℤ◌, ◌-ℤ◌, ◌≤ℤ◌}
use openvcloud.Result.{Result, ok, err, bad_request}
use openvcloud.Models.{CuType, Limits, Account, Cloudspace, Models}
use openvcloud.Models.Table.{get, set}
use openvcloud.Limits.{
  reserves, counts, reserved, Request, exceeds, validate_available, account_of,
  fill_resource_limits, all_units,
}

abbrev pub cloudspace_id_of : Cloudspace → ℕ
cloudspace_id_of cs = cs.id

-- No two cloudspaces have the same id.
abbrev pub UniqueIds : List Cloudspace → Type 0
UniqueIds [] = Unit {0}
UniqueIds (c ∷ cs) = (any (λ x. x.id == c.id) cs ≡ false) × UniqueIds cs

-- Where no cloudspace has the id, leaving it out changes nothing.
reserved_absent :
    (a k : ℕ) (cu : CuType) (spaces : List Cloudspace)
    → any (λ x. x.id == k) spaces ≡ false
    → reserved a (some k) cu spaces ≡ reserved a none cu spaces
unfolding reserved
reserved_absent a k cu [] h = refl
reserved_absent a k cu (c ∷ cs) h = ground (arith, reserved_absent a k cu cs)

pub set_absent :
    (c : Cloudspace) (spaces : List Cloudspace)
    → any (λ x. x.id == c.id) spaces ≡ false
    → set cloudspace_id_of c spaces ≡ spaces
set_absent c [] h = refl
set_absent c (x ∷ xs) h = ground (arith, set_absent c xs)

+ℤ_swap : (x y z : ℤ) → x +ℤ (y +ℤ z) ≡ y +ℤ (x +ℤ z)
unfolding ◌+ℤ◌
+ℤ_swap x y z = ground arith

-- What the cloudspace adds to the reservation `r` of the others.
abbrev pub with_own : ℕ → CuType → Cloudspace → ℤ → ℤ
with_own a cu c r = if counts a none c then reserves cu c +ℤ r else r

with_own_swap :
    (a : ℕ) (cu : CuType) (c x : Cloudspace) (r : ℤ)
    → with_own a cu x (with_own a cu c r) ≡ with_own a cu c (with_own a cu x r)
with_own_swap a cu c x r = ground (arith, +ℤ_swap (reserves cu x) (reserves cu c) r)

reserved-cons :
    (a : ℕ) (cu : CuType) (x : Cloudspace) (xs : List Cloudspace)
    → reserved a none cu (x ∷ xs) ≡ with_own a cu x (reserved a none cu xs)
unfolding reserved
reserved-cons a cu x xs = refl

reserved-cons_own :
    (a : ℕ) (cu : CuType) (c x : Cloudspace) (xs : List Cloudspace)
    → (x.id == c.id) ≡ true
    → reserved a (some c.id) cu (x ∷ xs) ≡ reserved a (some c.id) cu xs
unfolding reserved
reserved-cons_own a cu c x xs e = ground arith

reserved-cons_other :
    (a : ℕ) (cu : CuType) (c x : Cloudspace) (xs : List Cloudspace)
    → (x.id == c.id) ≡ false
    → reserved a (some c.id) cu (x ∷ xs) ≡ with_own a cu x (reserved a (some c.id) cu xs)
unfolding reserved
reserved-cons_other a cu c x xs e = ground arith

pub set-cons_own :
    (c x : Cloudspace) (xs : List Cloudspace)
    → (x.id == c.id) ≡ true
    → any (λ y. y.id == x.id) xs ≡ false
    → set cloudspace_id_of c (x ∷ xs) ≡ c ∷ xs
set-cons_own c x xs e h =
    let same : x.id ≡ c.id = (==_iff x.id c.id).0 e in
    rw e (ap (λ l. c ∷ l) (set_absent c xs (subst (λ k. any (λ y. y.id == k) xs ≡ false) same h)))

pub set-cons_other :
    (c x : Cloudspace) (xs : List Cloudspace)
    → (x.id == c.id) ≡ false
    → set cloudspace_id_of c (x ∷ xs) ≡ x ∷ set cloudspace_id_of c xs
set-cons_other c x xs e = rw e refl

pub get_rest :
    (c x old : Cloudspace) (xs : List Cloudspace)
    → (x.id == c.id) ≡ false
    → get cloudspace_id_of c.id (x ∷ xs) ≡ some old
    → get cloudspace_id_of c.id xs ≡ some old
get_rest c x old xs e h = ground arith

-- Once the cloudspace `c` is written, the reservation is what `c` reserves, added to what the other
-- cloudspaces reserved before.
pub reserved-set :
    (a : ℕ) (cu : CuType) (c old : Cloudspace) (spaces : List Cloudspace)
    → UniqueIds spaces
    → get cloudspace_id_of c.id spaces ≡ some old
    → reserved a none cu (set cloudspace_id_of c spaces)
      ≡ with_own a cu c (reserved a (some c.id) cu spaces)
reserved-set a cu c old [] w h = cc
reserved-set a cu c old (x ∷ xs) w h = elim (Bool-cases (x.id == c.id)) [
  | inl e ↦
      let same : x.id ≡ c.id = (==_iff x.id c.id).0 e in
      ap (reserved a none cu) (set-cons_own c x xs e w.0)
      ∙ reserved-cons a cu c xs
      ∙ ap (with_own a cu c) (
          sym (
            reserved-cons_own a cu c x xs e
            ∙ reserved_absent a c.id cu xs (subst (λ k. any (λ y. y.id == k) xs ≡ false) same w.0)))
  | inr e ↦
      ap (reserved a none cu) (set-cons_other c x xs e)
      ∙ reserved-cons a cu x (set cloudspace_id_of c xs)
      ∙ ap (with_own a cu x) (reserved-set a cu c old xs w.1 (get_rest c x old xs e h))
      ∙ with_own_swap a cu c x (reserved a (some c.id) cu xs)
      ∙ ap (with_own a cu c) (sym (reserved-cons_other a cu c x xs e))
]

-- A request that passes fits: with what the other cloudspaces reserve, the limit of the account is
-- not exceeded.
exceeds_fits :
    (n l : ℕ) (used : ℤ)
    → exceeds (some (pos (suc n))) (some (pos l)) used ≡ false
    → pos (suc n) +ℤ used ≤ℤ pos l
unfolding ◌+ℤ◌ ◌-ℤ◌
exceeds_fits n l used h = ground arith

pub any-all_units : (p : CuType → Bool) (cu : CuType) → any p all_units ≡ false → p cu ≡ false
any-all_units p cu h = ground arith

reserves-some :
    (cu : CuType) (c : Cloudspace) (n : ℕ)
    → c.resource_limits cu ≡ some (pos (suc n))
    → reserves cu c ≡ pos (suc n)
reserves-some cu c n z = ground arith

-- A validated limit that is then stored, with the account's own limit `l`: the cloudspaces together
-- reserve no more than `l`.
pub stored_fits :
    (a : ℕ) (cu : CuType) (c old : Cloudspace) (spaces : List Cloudspace) (n l : ℕ)
    → UniqueIds spaces
    → get cloudspace_id_of c.id spaces ≡ some old
    → c.resource_limits cu ≡ some (pos (suc n))
    → exceeds (some (pos (suc n))) (some (pos l)) (reserved a (some c.id) cu spaces) ≡ false
    → counts a none c ≡ true
    → reserved a none cu (set cloudspace_id_of c spaces) ≤ℤ pos l
stored_fits a cu c old spaces n l w g z h b =
    rw (reserved-set a cu c old spaces w g, b, reserves-some cu c n z)
      (exceeds_fits n l (reserved a (some c.id) cu spaces) h)

-- Validation passes only if every positive limit that is asked for fits: with what the other
-- cloudspaces of the account reserve, it does not exceed the account's own limit, where the account
-- has one.
pub validate_available-fits :
    (a : ℕ) (exclude : Option ℕ) (request : Request) (models t : Models) (cu : CuType) (n l : ℕ)
    (account : Account) (filled : Limits)
    → validate_available a exclude request models ≡ (ok tt, t)
    → get (λ (x : Account). x.id) a models.account ≡ some account
    → fill_resource_limits false account.resource_limits ≡ ok filled
    → request cu ≡ some (pos (suc n))
    → filled cu ≡ some (pos l)
    → pos (suc n) +ℤ reserved a exclude cu models.cloudspace ≤ℤ pos l
unfolding validate_available account_of
validate_available-fits a exclude request models t cu n l account filled h g f r z =
    elim (Bool-cases (any fails all_units)) [
      | inl b ↦ absurd (refused (rw (g, f, b) at h))
      | inr b ↦
          exceeds_fits n l (reserved a exclude cu models.cloudspace)
            (rw (r, z) at (any-all_units fails cu b))
    ]
  where
    fails : CuType → Bool
    fails c = exceeds (request c) (filled c) (reserved a exclude c models.cloudspace)

    refused : ¬ ((let r : Result (Unit {0}) × Models = (err bad_request, models) in r) ≡ (ok tt, t))
    refused q = cc
