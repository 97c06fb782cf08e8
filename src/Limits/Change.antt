-- ===== src/Limits/Change.antt =====
-- How limits are changed and enforced: `update` of apps/cloudbroker/base/cloudapi__accounts and of
-- apps/cloudbroker/base/cloudapi__cloudspaces.
use openvcloud.Prelude.{
  ℕ, suc, ◌*◌, ◌-◌, String, Bool, true, false, not, ◌&&◌, ◌||◌, Option, none, some, List, [], ◌∷◌,
  ◌==◌, str_eq, filter, map, any, if◌then◌else◌,
}
use openvcloud.Prelude.Int.{ℤ, pos, negsuc, ltb_ℤ}
use openvcloud.Result.{
  Result, ok, err, bad_request, conflict, python_error, bind, Exec, ◌>>=◌, ◌>>◌, pure, lift,
  or_raise, raise_if, gets, modify,
}
use openvcloud.Models.{
  CuType, cu_m, cu_d, cu_c, cu_np, cu_i, Limits, Account, AccountStatus, Cloudspace, Models,
}
use openvcloud.Models.Table.{get, set}
use openvcloud.Limits.{
  is_unlimited, Request, truthy, all_units, reserved, account_of, validate_available,
  consumed_memory, consumed_cpu_cores, consumed_vdisk_capacity, consumed_account_vdisk,
  consumed_public_ips, is_destroyed,
}

-- The units of one limit in the units in which consumption is counted.
abbrev pub scale : CuType → ℕ
scale cu_m = 1024
scale _ = 1

abbrev pub scaled : ℕ → ℤ → ℤ
scaled k (pos n) = pos (n * k)
scaled k (negsuc n) = negsuc (suc n * k - 1)

abbrev pub same_cu : CuType → CuType → Bool
same_cu cu_m cu_m = true
same_cu cu_d cu_d = true
same_cu cu_c cu_c = true
same_cu cu_np cu_np = true
same_cu cu_i cu_i = true
same_cu _ _ = false

-- `resourceLimits[cu] = z`
abbrev pub set_limit : CuType → ℤ → Limits → Limits
set_limit cu z limits c = if same_cu cu c then some z else limits c

-- `z != -1 and z < consumed`
abbrev pub below : CuType → ℤ → ℕ → Bool
below cu z consumed = not (is_unlimited z) && ltb_ℤ (scaled (scale cu) z) (pos consumed)

-- `getConsumed…` of a cloudspace; network transfer is not counted yet
unfoldable pub consumed_in_cloudspace : CuType → ℕ → Models → Result ℕ
unfolding consumed_memory consumed_cpu_cores consumed_vdisk_capacity consumed_public_ips
consumed_in_cloudspace cu_m k models = consumed_memory (k ∷ []) models
consumed_in_cloudspace cu_d k models = consumed_vdisk_capacity k models
consumed_in_cloudspace cu_c k models = consumed_cpu_cores (k ∷ []) models
consumed_in_cloudspace cu_np k models = ok 0
consumed_in_cloudspace cu_i k models = ok (consumed_public_ips (k ∷ []) models)

abbrev is_deployed : Cloudspace → Bool
is_deployed cs = elim cs.status [ openvcloud.Models.CloudspaceStatus.deployed ↦ true | _ ↦ false ]

abbrev pub spaces_of : ℕ → Models → List Cloudspace
spaces_of account_id models =
    filter (λ (cs : Cloudspace). cs.account_id == account_id) models.cloudspace

-- `getConsumedCloudUnitsByType`
unfoldable pub consumed_in_account : CuType → ℕ → Models → Result ℕ
unfolding consumed_memory consumed_cpu_cores consumed_account_vdisk consumed_public_ips
consumed_in_account cu_m k models =
    consumed_memory (map (λ (c : Cloudspace). c.id) (spaces_of k models)) models
consumed_in_account cu_d k models = ok (consumed_account_vdisk k models)
consumed_in_account cu_c k models =
    consumed_cpu_cores (map (λ (c : Cloudspace). c.id) (spaces_of k models)) models
consumed_in_account cu_np k models = ok 0
consumed_in_account cu_i k models = ok (
    consumed_public_ips (map (λ (c : Cloudspace). c.id) (filter is_deployed (spaces_of k models)))
      models)

-- One block of the cloudspace's `update`.
unfoldable pub change_cloudspace_limit : ℕ → Request → Models → CuType → Limits → Result Limits
unfolding consumed_in_cloudspace
change_cloudspace_limit k request models cu limits = elim (request cu) [
  | none ↦ ok limits
  | some z ↦ bind (consumed_in_cloudspace cu k models) λ consumed.
      if (same_cu cu cu_i && (not (is_unlimited z) && ltb_ℤ z (pos 1))) || below cu z consumed
      then err bad_request
      else ok (set_limit cu z limits)
]

unfoldable pub change_cloudspace_limits :
    ℕ → Request → Models → List CuType → Limits → Result Limits
unfolding change_cloudspace_limit
change_cloudspace_limits k request models [] limits = ok limits
change_cloudspace_limits k request models (cu ∷ cus) limits =
    bind (change_cloudspace_limit k request models cu limits)
      (change_cloudspace_limits k request models cus)

abbrev pub active_of : Account → List Cloudspace → List Cloudspace
active_of account spaces = elim account.status [
  | AccountStatus.disabled ↦ []
  | _ ↦ filter (λ cs. not (is_destroyed cs)) spaces
]

-- `_listActiveCloudSpaces`
unfoldable pub list_active_cloudspaces : ℕ → Exec Models (List Cloudspace)
unfolding account_of
list_active_cloudspaces account_id = do
  account ← account_of account_id
  spaces ← gets (λ models. spaces_of account_id models)
  pure (active_of account spaces)

abbrev pub cloudspace_id_of : Cloudspace → ℕ
cloudspace_id_of cs = cs.id

abbrev pub requested : Request → Bool
requested request = any (λ cu. truthy (request cu)) all_units

-- `if name: cloudspace.name = name`
abbrev pub renamed : Option String → String → String
renamed none old = old
renamed (some name) old = if str_eq name "" then old else name

abbrev pub name_taken : Option String → Cloudspace → List Cloudspace → Bool
name_taken none cs spaces = false
name_taken (some name) cs spaces = any (λ s. str_eq s.name name) spaces && not (str_eq name cs.name)

unfoldable pub validate_if : Bool → ℕ → Option ℕ → Request → Exec Models (Unit {0})
unfolding validate_available
validate_if true account_id exclude request = validate_available account_id exclude request
validate_if false account_id exclude request = pure tt

abbrev pub sizes_or : List ℕ → List ℕ → List ℕ
sizes_or [] old = old
sizes_or (s ∷ sizes) old = s ∷ sizes

unfoldable pub update_cloudspace : ℕ → Option String → Request → List ℕ → Exec Models Bool
unfolding list_active_cloudspaces validate_if change_cloudspace_limits
update_cloudspace cloudspace_id name request allowed_vm_sizes = do
  cs ← λ models. or_raise (get cloudspace_id_of cloudspace_id models.cloudspace) python_error models
  active ← list_active_cloudspaces cs.account_id
  raise_if (name_taken name cs active) conflict
  validate_if (requested request) cs.account_id (some cs.id) request
  limits ← λ models.
      lift (change_cloudspace_limits cloudspace_id request models all_units cs.resource_limits)
        models
  modify λ models. record models {
    cloudspace =
        set cloudspace_id_of
          (record cs {
            name = renamed name cs.name;
            resource_limits = limits;
            allowed_vm_sizes = sizes_or allowed_vm_sizes cs.allowed_vm_sizes;
          })
          models.cloudspace;
  }
  pure true

-- One block of the account's `update`. `reservedcloudunits` is bound only if some requested limit is
-- neither absent nor 0: else its use is an UnboundLocalError.
unfoldable pub change_account_limit : ℕ → Request → Models → CuType → Limits → Result Limits
unfolding consumed_in_account reserved
change_account_limit k request models cu limits = elim (request cu) [
  | none ↦ ok limits
  | some z ↦ bind (consumed_in_account cu k models) λ consumed.
      if below cu z consumed
      then err bad_request
      else if is_unlimited z
      then ok (set_limit cu z limits)
      else if not (requested request)
      then err python_error
      else if ltb_ℤ z (reserved k none cu models.cloudspace)
      then err bad_request
      else ok (set_limit cu z limits)
]

unfoldable pub change_account_limits : ℕ → Request → Models → List CuType → Limits → Result Limits
unfolding change_account_limit
change_account_limits k request models [] limits = ok limits
change_account_limits k request models (cu ∷ cus) limits =
    bind (change_account_limit k request models cu limits)
      (change_account_limits k request models cus)

abbrev pub account_id_of : Account → ℕ
account_id_of a = a.id

abbrev pub emails_or : Option Bool → Bool → Bool
emails_or none old = old
emails_or (some b) old = b

unfoldable pub update_account : ℕ → Option String → Request → Option Bool → Exec Models Bool
unfolding account_of change_account_limits
update_account account_id name request send_access_emails = do
  account ← account_of account_id
  limits ← λ models.
      lift (change_account_limits account_id request models all_units account.resource_limits)
        models
  modify λ models. record models {
    account =
        set account_id_of
          (record account {
            name = renamed name account.name;
            resource_limits = limits;
            send_access_emails = emails_or send_access_emails account.send_access_emails;
          })
          models.account;
  }
  pure true
