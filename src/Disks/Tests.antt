-- ===== src/Disks/Tests.antt =====
-- Two machines and one disk, which moves from one to the other and is deleted.
use openvcloud.Prelude.{ℕ, suc, ◌≤◌, ◌≡◌, refl, true, false, none, some, List, [], ◌∷◌, sum, arith}
use openvcloud.Result.{ok, err, conflict}
use openvcloud.Models.{VMachine, MachineStatus, Disk, DiskStatus, StackStatus, Models}
use openvcloud.Models.Table.{get, exists}
use openvcloud.Machines.{Hypervisor, get_provider_and_node, provider_and_node, refresh}
use openvcloud.Disks.{
  disk_id, holder_alive, attach_disk, attach_missing, take_from, check_if, detach_disk,
  detach_found, remove_first, delete, destroy_found, destroy_disk, detach_holder, has_stack,
}
use openvcloud.Disks.Owners.{IsAttached}
use openvcloud.Disks.Steps.{attaches, deletes, begin, then_call, Reach-IsAttached}
use openvcloud.Disks.Deleted.{delete_releases}

abbrev works : Hypervisor
works = record {
  node_details = λ ref. ok (none, false);
  supports = λ a. true;
  act = λ a ref. ok true;
  attach_volume = λ ref k. ok tt;
  detach_volume = λ k. ok tt;
  create_volume = λ size k. ok tt;
  destroy_volume = λ k. ok tt;
}

-- An id that is above those of all disks.
abbrev fresh : Models → ℕ
fresh models = suc (sum (λ (d : Disk). d.id) models.disk)

fresh_new : (m : Models) → exists disk_id (fresh m) m.disk ≡ false
fresh_new m = above (sum (λ (d : Disk). d.id) m.disk) m.disk (omega arith)
  where
    above :
        (n : ℕ) (ds : List Disk)
        → sum (λ (d : Disk). d.id) ds ≤ n
        → exists disk_id (suc n) ds ≡ false
    above n [] h = refl
    above n (d ∷ ds) h = ground (arith, above n ds)

abbrev machine : ℕ → List ℕ → VMachine
machine id disks = record {
  id = id;
  name = "vm";
  cloudspace_id = 1;
  size_id = 1;
  image_id = 1;
  disks = disks;
  nics = [];
  status = MachineStatus.running;
  stack_id = 2;
  reference_id = 9;
  acl = [];
  is_virtual = true;
  clone_reference = 0;
}

abbrev data_disk : Disk
data_disk = record { id = 4; account_id = 1; gid = 7; size_max = 10; status = DiskStatus.created }

abbrev two_machines : Models
two_machines = record {
  account = [];
  cloudspace = [];
  vmachine = machine 1 (4 ∷ []) ∷ machine 2 [] ∷ [];
  disk = data_disk ∷ [];
  size = [];
  stack =
      record {
        id = 2;
        gid = 7;
        reference_id = 3;
        status = StackStatus.enabled;
        images = [];
        error = 0;
      }
      ∷ [];
  externalnetwork = [];
  networkids = [];
}

abbrev moved : Models
moved = (attach_disk works 2 4 two_machines).1

abbrev deleted : Models
deleted = (delete works 4 true two_machines).1

attach_moves : moved.vmachine ≡ machine 1 [] ∷ machine 2 (4 ∷ []) ∷ []
unfolding attach_disk attach_missing take_from check_if detach_disk detach_found remove_first
    get_provider_and_node provider_and_node refresh
attach_moves = refl

delete_attached : delete works 4 false two_machines ≡ (err conflict, two_machines)
unfolding delete destroy_found destroy_disk detach_holder
delete_attached = refl

delete_one : delete works 4 true two_machines ≡ (ok true, deleted)
unfolding delete destroy_found destroy_disk detach_holder detach_disk detach_found
    get_provider_and_node provider_and_node refresh has_stack
delete_one = refl

two_machines-IsAttached : IsAttached two_machines
two_machines-IsAttached = record {
  machines_unique = (refl, (refl, tt));
  one_machine = λ k. ground arith;
  all_fit = refl;
  known = λ k e. ground arith;
}

Reach-IsAttached_example : IsAttached (delete works 4 true moved).1
Reach-IsAttached_example =
    Reach-IsAttached works fresh fresh_new
      (then_call (then_call begin (attaches 2 4 two_machines)) (deletes 4 true moved))
      two_machines-IsAttached

delete_releases_example :
    (holder_alive 4 deleted ≡ none)
    × (d : Disk) × (get disk_id 4 deleted.disk ≡ some d)
    × (d.status ≡ DiskStatus.destroyed)
delete_releases_example =
    delete_releases works 4 true two_machines deleted data_disk true two_machines-IsAttached refl
      refl delete_one
