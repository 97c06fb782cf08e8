-- ===== src/Limits/Available.antt =====
-- The checks of apps/cloudbroker/base/cloudapi__accounts and apps/cloudbroker/base/cloudapi__cloudspaces
-- before a machine or a public address is taken.
use openvcloud.Prelude.{ℕ, zero, suc, Bool, true, false, Option, none, some, if◌then◌else◌}
use openvcloud.Prelude.Int.{ℤ, pos, ◌-ℤ◌, ltb_ℤ}
use openvcloud.Result.{
  Result, ok, err, bad_request, python_error, bind, Exec, ◌>>=◌, ◌>>◌, pure, lift, or_raise,
}
use openvcloud.Models.{CuType, cu_m, cu_d, cu_c, cu_i, Limits, Models}
use openvcloud.Models.Table.{get}
use openvcloud.Limits.{is_unlimited, account_of}
use openvcloud.Limits.Change.{
  scale, scaled, consumed_in_cloudspace, consumed_in_account, cloudspace_id_of,
}

-- What an action will take: memory in MB, the rest in its own units.
abbrev pub Needs : Type 0
Needs = CuType → ℕ

-- One block of `checkAvailable…`: `needed > 0`, the limit is set, and too little is left.
unfoldable pub check_unit : CuType → ℕ → Option ℤ → Result ℕ → Result (Unit {0})
check_unit cu zero limit consumed = ok tt
check_unit cu (suc n) none consumed = ok tt
check_unit cu (suc n) (some z) consumed =
    let count = bind consumed λ used.
      if ltb_ℤ (scaled (scale cu) z -ℤ pos used) (pos (suc n)) then err bad_request else ok tt in
    if is_unlimited z then ok tt else count

-- The three blocks of `checkAvailableMachineResources`: cores, memory and disk space.
unfoldable pub check_units : (CuType → Result ℕ) → Limits → Needs → Result (Unit {0})
unfolding check_unit
check_units consumed limits needs =
    bind (check_unit cu_c (needs cu_c) (limits cu_c) (consumed cu_c)) λ _.
      bind (check_unit cu_m (needs cu_m) (limits cu_m) (consumed cu_m))
        λ _. check_unit cu_d (needs cu_d) (limits cu_d) (consumed cu_d)

-- `checkAvailableMachineResources` of the accounts and of the cloudspaces
unfoldable pub check_account_resources : ℕ → Needs → Exec Models (Unit {0})
unfolding account_of check_units consumed_in_account
check_account_resources account_id needs = do
  account ← account_of account_id
  λ models.
      lift
        (check_units (λ cu. consumed_in_account cu account_id models) account.resource_limits needs)
        models

unfoldable pub check_account_if : Bool → ℕ → Needs → Exec Models (Unit {0})
unfolding check_account_resources
check_account_if true account_id needs = check_account_resources account_id needs
check_account_if false account_id needs = pure tt

unfoldable pub check_cloudspace_resources : ℕ → Needs → Bool → Exec Models (Unit {0})
unfolding check_account_if check_units consumed_in_cloudspace
check_cloudspace_resources cloudspace_id needs checkaccount = do
  cs ← λ models. or_raise (get cloudspace_id_of cloudspace_id models.cloudspace) python_error models
  check_account_if checkaccount cs.account_id needs
  λ models.
      lift
        (check_units (λ cu. consumed_in_cloudspace cu cloudspace_id models) cs.resource_limits
          needs)
        models

-- The test of `checkAvailablePublicIPs`, for `numips` more addresses.
unfoldable pub check_addresses : ℕ → Option ℤ → Result ℕ → Result (Unit {0})
check_addresses numips none consumed = ok tt
check_addresses numips (some z) consumed =
    let count =
      bind consumed λ used. if ltb_ℤ (z -ℤ pos used) (pos numips) then err bad_request else ok tt in
    if is_unlimited z then ok tt else count

-- `checkAvailablePublicIPs` of the accounts
unfoldable pub check_account_public_ips : ℕ → ℕ → Exec Models (Unit {0})
unfolding account_of check_addresses consumed_in_account
check_account_public_ips account_id numips = do
  account ← account_of account_id
  λ models.
      lift
        (check_addresses numips (account.resource_limits cu_i)
          (consumed_in_account cu_i account_id models))
        models

-- `checkAvailablePublicIPs` of the cloudspaces
unfoldable pub check_cloudspace_public_ips : ℕ → ℕ → Exec Models (Unit {0})
unfolding check_account_public_ips check_addresses consumed_in_cloudspace
check_cloudspace_public_ips cloudspace_id numips = do
  cs ← λ models. or_raise (get cloudspace_id_of cloudspace_id models.cloudspace) python_error models
  check_account_public_ips cs.account_id numips
  λ models.
      lift
        (check_addresses numips (cs.resource_limits cu_i)
          (consumed_in_cloudspace cu_i cloudspace_id models))
        models
