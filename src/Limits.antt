-- ===== src/Limits.antt =====
-- The capacity limits of accounts and cloudspaces: apps/cloudbroker/base/cloudapi__accounts,
-- apps/cloudbroker/base/cloudapi__cloudspaces and `fillResourceLimits` of
-- apps/cloudbroker/cloudbrokerlib/cloudbroker.py. A limit is a whole number of units, and -1 for no
-- limit. Memory is consumed in MB and limited in GB: the source divides by 1024.0, which is exact,
-- and here the limit is multiplied by 1024 instead.
pub mod Change
pub mod Available
pub mod Addresses
pub mod Reserve
pub mod Room
pub mod Checks
pub mod Kept
pub mod Floor
pub mod Tests
use openvcloud.Prelude.{
  ℕ, zero, suc, ◌+◌, ◌*◌, ◌-◌, String, Bool, true, false, not, ◌&&◌, ◌||◌, Option, none, some, List,
  [], ◌∷◌, ◌++◌, ◌==◌, ltb, filter, map, find?, any, sum, mem, length, if◌then◌else◌,
}
use openvcloud.Prelude.Int.{ℤ, pos, negsuc, ◌+ℤ◌, ◌-ℤ◌, ltb_ℤ, eq_ℤ}
use openvcloud.Result.{
  Error, Result, ok, err, bad_request, python_error, bind, Exec, ◌>>=◌, ◌>>◌, pure, raise, lift,
  or_raise, raise_if, gets, modify,
}
use openvcloud.Models.{
  CuType, cu_m, cu_d, cu_c, cu_np, cu_i, Limits, Account, Cloudspace, CloudspaceStatus, VMachine,
  MachineStatus, Disk, DiskStatus, Size, Nic, NicType, Models,
}
use openvcloud.Models.Table.{get, set}

-- -1
abbrev pub unlimited : ℤ
unlimited = negsuc 0

abbrev pub is_unlimited : ℤ → Bool
is_unlimited z = eq_ℤ z unlimited

-- `value < -1 or value == 0`
abbrev pub invalid : Option ℤ → Bool
invalid none = false
invalid (some z) = ltb_ℤ z unlimited || eq_ℤ z (pos 0)

abbrev pub fill_one : Bool → Option ℤ → Option ℤ
fill_one preserve_none none = if preserve_none then none else some unlimited
fill_one preserve_none (some z) = some z

-- The minimum of 10 GB for disks.
abbrev pub too_small : Option ℤ → Bool
too_small none = false
too_small (some z) = not (is_unlimited z) && ltb_ℤ z (pos 10)

-- All that the loop over the keys raises is one error.
unfoldable pub fill_resource_limits : Bool → Limits → Result Limits
fill_resource_limits preserve_none limits =
    if any (λ cu. invalid (limits cu)) (cu_m ∷ cu_d ∷ cu_c ∷ cu_np ∷ cu_i ∷ [])
    then err bad_request
    else if too_small (fill_one preserve_none (limits cu_d))
    then err bad_request
    else ok (λ cu. fill_one preserve_none (limits cu))

abbrev pub is_destroyed : Cloudspace → Bool
is_destroyed cs = elim cs.status [ CloudspaceStatus.destroyed ↦ true | _ ↦ false ]

-- What one cloudspace adds to the reserved units of its account.
abbrev pub reserves : CuType → Cloudspace → ℤ
reserves cu cs = elim (cs.resource_limits cu) [
  | none ↦ pos 0
  | some z ↦ if is_unlimited z then pos 0 else z
]

-- `excludecloudspaceid is not None and cloudspace['id'] == excludecloudspaceid`
abbrev excluded : Option ℕ → Cloudspace → Bool
excluded none cs = false
excluded (some k) cs = cs.id == k

abbrev pub counts : ℕ → Option ℕ → Cloudspace → Bool
counts account_id exclude cs =
    (cs.account_id == account_id && not (is_destroyed cs)) && not (excluded exclude cs)

-- `getReservedCloudUnits`
unfoldable pub reserved : ℕ → Option ℕ → CuType → List Cloudspace → ℤ
reserved account_id exclude cu [] = pos 0
reserved account_id exclude cu (cs ∷ rest) =
    let r = reserved account_id exclude cu rest in
    if counts account_id exclude cs then reserves cu cs +ℤ r else r

-- A requested maximum: `None` is `none`, and 0 is as good as `None` where it is only tested.
abbrev pub Request : Type 0
Request = CuType → Option ℤ

abbrev pub truthy : Option ℤ → Bool
truthy none = false
truthy (some z) = not (eq_ℤ z (pos 0))

-- The five blocks of `_validateAvaliableAccountResources` are this test at each type of unit.
abbrev pub exceeds : Option ℤ → Option ℤ → ℤ → Bool
exceeds none limit used = false
exceeds (some z) none used = false
exceeds (some z) (some limit) used =
    truthy (some z)
    && ((not (is_unlimited z) && not (is_unlimited limit)) && ltb_ℤ (limit -ℤ used) z)

abbrev pub all_units : List CuType
all_units = cu_m ∷ cu_d ∷ cu_c ∷ cu_np ∷ cu_i ∷ []

unfoldable pub account_of : ℕ → Exec Models Account
account_of k models = or_raise (get (λ (a : Account). a.id) k models.account) python_error models

unfoldable pub validate_available : ℕ → Option ℕ → Request → Exec Models (Unit {0})
unfolding account_of fill_resource_limits reserved
validate_available account_id exclude request = do
  account ← account_of account_id
  accountcus ← lift (fill_resource_limits false account.resource_limits)
  spaces ← gets (λ models. models.cloudspace)
  raise_if
      (any (λ cu. exceeds (request cu) (accountcus cu) (reserved account_id exclude cu spaces))
        all_units)
      bad_request

-- Machines that count as consumers: not DESTROYED and not ERROR.
abbrev pub is_live : VMachine → Bool
is_live vm = elim vm.status [
  | MachineStatus.destroyed ↦ false
  | MachineStatus.error ↦ false
  | _ ↦ true
]

abbrev pub live_machines : List ℕ → Models → List VMachine
live_machines cloudspace_ids models =
    filter (λ vm. mem vm.cloudspace_id cloudspace_ids && is_live vm) models.vmachine

-- `sizes[machine['sizeId']]` added up; a size that is not there is a KeyError.
unfoldable pub sum_sizes : (Size → ℕ) → List Size → List VMachine → Result ℕ
sum_sizes f sizes [] = ok 0
sum_sizes f sizes (vm ∷ rest) = bind (sum_sizes f sizes rest) λ n.
    elim (get (λ (s : Size). s.id) vm.size_id sizes) [
      | none ↦ err python_error
      | some s ↦ ok (f s + n)
    ]

-- In MB.
pub consumed_memory : List ℕ → Models → Result ℕ
unfolding sum_sizes
consumed_memory ids models = sum_sizes (λ s. s.memory) models.size (live_machines ids models)

pub consumed_cpu_cores : List ℕ → Models → Result ℕ
unfolding sum_sizes
consumed_cpu_cores ids models = sum_sizes (λ s. s.vcpus) models.size (live_machines ids models)

abbrev is_live_disk : Disk → Bool
is_live_disk d = elim d.status [ DiskStatus.destroyed ↦ false | DiskStatus.created ↦ true ]

-- `disksizes[diskid]` added up over the disks of the machines.
sum_disks : List Disk → List ℕ → Result ℕ
sum_disks disks [] = ok 0
sum_disks disks (k ∷ rest) = bind (sum_disks disks rest) λ n.
    elim (find? (λ d. d.id == k && is_live_disk d) disks) [
      | none ↦ err python_error
      | some d ↦ ok (d.size_max + n)
    ]

all_disks : List VMachine → List ℕ
all_disks [] = []
all_disks (vm ∷ rest) = vm.disks ++ all_disks rest

pub consumed_vdisk_capacity : ℕ → Models → Result ℕ
unfolding sum_disks all_disks
consumed_vdisk_capacity k models = sum_disks models.disk (all_disks (live_machines (k ∷ []) models))

-- On an account all disks count, also those that no machine has.
pub consumed_account_vdisk : ℕ → Models → ℕ
consumed_account_vdisk account_id models =
    sum (λ d. d.size_max) (filter (λ d. d.account_id == account_id && is_live_disk d) models.disk)

abbrev has_public_nic : VMachine → Bool
has_public_nic vm =
    any (λ nic. elim nic.type [ NicType.public ↦ true | NicType.bridge ↦ false ]) vm.nics

abbrev has_ip : Cloudspace → Bool
has_ip cs = elim cs.externalnetworkip [ none ↦ false | some _ ↦ true ]

-- `getConsumedPublicIPsInCloudspaces`
pub consumed_public_ips : List ℕ → Models → ℕ
consumed_public_ips ids models =
    length (filter (λ cs. mem cs.id ids && has_ip cs) models.cloudspace)
    + length (filter has_public_nic (live_machines ids models))
