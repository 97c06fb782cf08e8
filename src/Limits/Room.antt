-- ===== src/Limits/Room.antt =====
-- Room under the limits: the checks of `checkAvailableMachineResources` in
-- apps/cloudbroker/base/cloudapi__accounts.
use openvcloud.Prelude.{
  ℕ, zero, suc, ◌+◌, ◌*◌, ◌≤◌, ◌≡◌, refl, true, some, arith, ap, sym, subst, inl, inr, ◌⊎◌,
}
use openvcloud.Prelude.Int.{pos, ◌-ℤ◌}
use openvcloud.Result.{Error, Result, ok, err, Result-cases}
use openvcloud.Models.{CuType, cu_c, cu_m, cu_d, Limits, Account, Models}
use openvcloud.Models.Table.{get}
use openvcloud.Limits.{account_of}
use openvcloud.Limits.Change.{scale, same_cu, consumed_in_account}
use openvcloud.Limits.Available.{Needs, check_unit, check_units, check_account_resources}

pub same_cu-eq : (c d : CuType) → same_cu c d ≡ true → c ≡ d
same_cu-eq c d h = ground arith

-- No check passes on an error of the count, unless it needs no count.
check_unit-counts :
    (cu : CuType) (needed z : ℕ) (r : Result ℕ)
    → check_unit cu needed (some (pos z)) r ≡ ok tt
    → (needed ≡ 0) ⊎ ((used : ℕ) × (r ≡ ok used) × (used + needed ≤ z * scale cu))
unfolding check_unit ◌-ℤ◌
check_unit-counts cu zero z r h = inl refl
check_unit-counts cu (suc n) z (err e) h = absurd (ground arith)
check_unit-counts cu (suc n) z (ok used) h = inr (used, refl, ground arith)

check_units-each :
    (consumed : CuType → Result ℕ) (limits : Limits) (needs : Needs)
    → check_units consumed limits needs ≡ ok tt
    → (check_unit cu_c (needs cu_c) (limits cu_c) (consumed cu_c) ≡ ok tt)
      × (check_unit cu_m (needs cu_m) (limits cu_m) (consumed cu_m) ≡ ok tt)
      × (check_unit cu_d (needs cu_d) (limits cu_d) (consumed cu_d) ≡ ok tt)
unfolding check_units
check_units-each consumed limits needs h =
    elim (Result-cases (check_unit cu_c (needs cu_c) (limits cu_c) (consumed cu_c))) [
      | inr (x, e) ↦ absurd (refused x (rw e at h))
      | inl (a, e) ↦
          elim (Result-cases (check_unit cu_m (needs cu_m) (limits cu_m) (consumed cu_m))) [
            | inr (x, f) ↦ absurd (refused x (rw (e, f) at h))
            | inl (b, f) ↦ (e, f, rw (e, f) at h)
          ]
    ]
  where
    refused : (x : Error) → ¬ ((let r : Result (Unit {0}) = err x in r) ≡ ok tt)
    refused x q = cc

-- When `checkAvailableMachineResources` of an account passes, then each of cores, memory and disk
-- space that is asked for and that the account limits is counted, and what is in use and what is
-- asked for stay together within the limit.
pub check_account_resources-fits :
    (k : ℕ) (needs : Needs) (models t : Models) (account : Account) (cu : CuType) (z : ℕ)
    → check_account_resources k needs models ≡ (ok tt, t)
    → get (λ (a : Account). a.id) k models.account ≡ some account
    → (cu ≡ cu_c) ⊎ ((cu ≡ cu_m) ⊎ (cu ≡ cu_d))
    → account.resource_limits cu ≡ some (pos z)
    → (needs cu ≡ 0)
      ⊎ ((used : ℕ) × (consumed_in_account cu k models ≡ ok used)
          × (used + needs cu ≤ z * scale cu))
unfolding check_account_resources account_of
check_account_resources-fits k needs models t account cu z h a m l =
    let (cores, memory, disks) =
      check_units-each (λ c. consumed_in_account c k models) account.resource_limits needs
        (passed (rw a at h)) in
    let one = λ (c : CuType).
      check_unit c (needs c) (account.resource_limits c) (consumed_in_account c k models) ≡ ok tt in
    let checked : check_unit cu (needs cu) (account.resource_limits cu)
          (consumed_in_account cu k models)
        ≡ ok tt =
      elim m [
        | inl e ↦ subst one (sym e) cores
        | inr (inl e) ↦ subst one (sym e) memory
        | inr (inr e) ↦ subst one (sym e) disks
      ] in
    check_unit-counts cu (needs cu) z (consumed_in_account cu k models) (rw l at checked)
  where
    passed :
        {r : Result (Unit {0})}
        → (let x : Result (Unit {0}) × Models = (r, models) in x) ≡ (ok tt, t)
        → r ≡ ok tt
    passed q = ap (λ x. x.0) q
