-- ===== src/Disks.antt =====
-- The disks of accounts and of machines: `_create`, `create` and `delete` of
-- apps/cloudbroker/base/cloudapi__disks, `addDisk`, `detachDisk` and `attachDisk` of
-- apps/cloudbroker/base/cloudapi__machines. `fresh` is the id that the store gives a new disk.
pub mod Attached
pub mod Detached
pub mod Created
pub mod Deleted
pub mod Steps
pub mod Owners
pub mod Tests
use openvcloud.Prelude.{
  ℕ, zero, suc, Bool, true, false, not, ◌&&◌, Option, none, some, List, [], ◌∷◌, ◌++◌, ◌==◌, leb,
  ltb, any, mem, find?, length, if◌then◌else◌,
}
use openvcloud.Result.{
  Error, Result, ok, err, bad_request, conflict, service_unavailable, python_error, Exec, ◌>>=◌,
  ◌>>◌, pure, raise, lift, or_raise, raise_if, gets, modify, rescue,
}
use openvcloud.Models.{
  Cloudspace, VMachine, MachineStatus, Disk, DiskStatus, Stack, StackStatus, CuType, cu_d, Models,
}
use openvcloud.Models.Table.{get, update, set, delete as remove}
use openvcloud.Limits.Available.{Needs, check_account_resources, check_cloudspace_resources}
use openvcloud.Machines.{Hypervisor, vm_id, set_machine, get_provider_and_node}

abbrev pub disk_id : Disk → ℕ
disk_id d = d.id

abbrev pub disk_needs : ℕ → Needs
disk_needs size cu = elim cu [ CuType.cu_d ↦ size | _ ↦ 0 ]

abbrev pub max_disks : ℕ
max_disks = 25

-- `list.remove`
unfoldable pub remove_first : ℕ → List ℕ → List ℕ
remove_first k [] = []
remove_first k (x ∷ xs) = let rest = remove_first k xs in if x == k then xs else x ∷ rest

-- `getProviderByGID`: whether the grid has an enabled stack
unfoldable pub has_stack : ℕ → Models → Bool
has_stack gid models =
    any (λ s. s.gid == gid && (elim s.status [ StackStatus.enabled ↦ true | _ ↦ false ]))
      models.stack

abbrev get_disk : ℕ → Exec Models Disk
get_disk k models = or_raise (get disk_id k models.disk) python_error models

-- The first machine that a search by disk returns.
abbrev pub holder_of : ℕ → Models → Option VMachine
holder_of k models = find? (λ vm. mem k vm.disks) models.vmachine

-- The first of them that is not DESTROYED.
abbrev pub holder_alive : ℕ → Models → Option VMachine
holder_alive k models =
    find? (λ vm. mem k vm.disks && (elim vm.status [ MachineStatus.destroyed ↦ false | _ ↦ true ]))
      models.vmachine

abbrev pub new_disk : ℕ → ℕ → ℕ → ℕ → Disk
new_disk account_id gid size id = record {
  id = id;
  account_id = account_id;
  gid = gid;
  size_max = size;
  status = DiskStatus.created;
}

unfoldable pub check_if : Bool → ℕ → Disk → Exec Models (Unit {0})
unfolding check_cloudspace_resources
check_if true cloudspace_id disk =
    check_cloudspace_resources cloudspace_id (disk_needs disk.size_max) false
check_if false cloudspace_id disk = pure tt

module _ (hv : Hypervisor) where
  unfoldable pub detach_found : Bool → VMachine → Option Bool → ℕ → Exec Models Bool
  unfolding remove_first
  detach_found false vm host k = pure true
  detach_found true vm host k = do
    disk ← get_disk k
    provider ← or_raise host python_error
    lift (hv.detach_volume disk.id)
    set_machine (record vm { disks = remove_first k vm.disks })
    pure true

  -- `detachDisk`
  unfoldable pub detach_disk : ℕ → ℕ → Exec Models Bool
  unfolding get_provider_and_node detach_found
  detach_disk machine_id k = do
    (host, vm) ← get_provider_and_node hv machine_id
    detach_found (mem k vm.disks) vm host k

  -- The disk is taken from the machine that has it.
  unfoldable pub take_from : Option VMachine → VMachine → Disk → ℕ → Exec Models Bool
  unfolding check_if detach_disk
  take_from none vm disk k = check_if true vm.cloudspace_id disk >> pure true
  take_from (some other) vm disk k = do
    check_if (not (other.cloudspace_id == vm.cloudspace_id)) vm.cloudspace_id disk
    detach_disk other.id k

  unfoldable pub attach_missing : Bool → VMachine → Option Bool → ℕ → Exec Models Bool
  unfolding take_from
  attach_missing true vm host k = pure true
  attach_missing false vm host k = do
    raise_if (leb max_disks (length vm.disks)) bad_request
    disk ← get_disk k
    holder ← gets (holder_of k)
    take_from holder vm disk k
    provider ← or_raise host python_error
    lift (hv.attach_volume vm.reference_id disk.id)
    set_machine (record vm { disks = vm.disks ++ k ∷ [] })
    pure true

  -- `attachDisk`
  unfoldable pub attach_disk : ℕ → ℕ → Exec Models Bool
  unfolding get_provider_and_node attach_missing
  attach_disk machine_id k = do
    (host, vm) ← get_provider_and_node hv machine_id
    attach_missing (mem k vm.disks) vm host k

  -- `try: … except: self.models.disk.delete(disk.id); raise`
  unfoldable pub keep_or_delete : Disk → Result (Unit {0}) → Exec Models ℕ
  keep_or_delete disk (ok x) = pure disk.id
  keep_or_delete disk (err e) = do
    modify λ models. record models { disk = remove disk_id disk.id models.disk }
    raise e

  abbrev volume_of : Disk → Models → Result (Unit {0})
  volume_of disk models =
      if has_stack disk.gid models
      then hv.create_volume disk.size_max disk.id
      else err service_unavailable

  unfoldable pub add_new : Disk → Exec Models ℕ
  unfolding has_stack keep_or_delete
  add_new disk = do
    modify λ models. record models { disk = models.disk ++ disk ∷ [] }
    volume ← gets (volume_of disk)
    keep_or_delete disk volume

  -- `delete`, once the disk is found and not DESTROYED
  unfoldable pub detach_holder : Bool → Option VMachine → ℕ → Exec Models Bool
  unfolding detach_disk
  detach_holder detach none k = pure true
  detach_holder false (some vm) k = raise conflict
  detach_holder true (some vm) k = detach_disk vm.id k

  unfoldable pub destroy_disk : Bool → Disk → Exec Models Bool
  unfolding detach_holder has_stack
  destroy_disk detach disk = do
    holder ← gets (holder_alive disk.id)
    detach_holder detach holder disk.id
    stack ← gets (has_stack disk.gid)
    raise_if (not stack) service_unavailable
    lift (hv.destroy_volume disk.id)
    modify λ models. record models {
      disk = set disk_id (record disk { status = DiskStatus.destroyed }) models.disk;
    }
    pure true

  unfoldable pub destroy_found : Bool → Option Disk → Exec Models Bool
  unfolding destroy_disk
  destroy_found detach none = pure true
  destroy_found detach (some disk) = elim disk.status [
    | DiskStatus.destroyed ↦ pure true
    | DiskStatus.created ↦ destroy_disk detach disk
  ]

  -- `delete`
  unfoldable pub delete : ℕ → Bool → Exec Models Bool
  unfolding destroy_found
  delete k detach = do
    found ← gets (λ models. get disk_id k models.disk)
    destroy_found detach found

  module _ (fresh : Models → ℕ) where
    -- `_create`
    unfoldable pub create_disk : ℕ → ℕ → ℕ → Exec Models ℕ
    unfolding add_new
    create_disk account_id gid size = do
      raise_if (ltb 2000 size) bad_request
      id ← gets fresh
      add_new (new_disk account_id gid size id)

    -- `create`
    unfoldable pub create : ℕ → ℕ → ℕ → Exec Models ℕ
    unfolding create_disk check_account_resources
    create account_id gid size = do
      check_account_resources account_id (disk_needs size)
      create_disk account_id gid size

    -- `addDisk`
    unfoldable pub add_disk : ℕ → ℕ → Exec Models ℕ
    unfolding get_provider_and_node create_disk check_cloudspace_resources
    add_disk machine_id size = do
      (host, vm) ← get_provider_and_node hv machine_id
      raise_if (leb max_disks (length vm.disks)) bad_request
      cs ← λ models.
          or_raise (get (λ (c : Cloudspace). c.id) vm.cloudspace_id models.cloudspace) python_error
            models
      check_cloudspace_resources cs.id (disk_needs size) true
      id ← create_disk cs.account_id cs.gid size
      provider ← or_raise host python_error
      lift (hv.attach_volume vm.reference_id id)
      set_machine (record vm { disks = vm.disks ++ id ∷ [] })
      pure id
