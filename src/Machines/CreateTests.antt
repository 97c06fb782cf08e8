-- ===== src/Machines/CreateTests.antt =====
-- An order of a machine with one data disk, in a cloudspace that has a machine, with one stack.
use openvcloud.Prelude.{
  ℕ, suc, ◌≤◌, ◌≡◌, refl, Bool, true, false, none, some, List, [], ◌∷◌, sum, arith, length,
}
use openvcloud.Result.{ok, err, python_error, service_unavailable}
use openvcloud.Models.{
  Account, AccountStatus, Cloudspace, CloudspaceStatus, VMachine, MachineStatus, Disk, DiskStatus,
  StackStatus, Image, Limits, Models,
}
use openvcloud.Models.Table.{exists}
use openvcloud.Machines.{Hypervisor, vm_id}
use openvcloud.Machines.Provision.{Driver, made, minus_one, other_exception}
use openvcloud.Machines.Create.{MachineOrder, create, update_machine}
use openvcloud.Machines.Named.{IsNamed}
use openvcloud.Machines.Calls.{creates, updates, begin, then_call, Reach-IsNamed}
use openvcloud.Disks.{disk_id}

-- Ids that are above those of all disks, and of all machines.
abbrev fresh_disk : Models → ℕ
fresh_disk models = suc (sum (λ (d : Disk). d.id) models.disk)

abbrev fresh_machine : Models → ℕ
fresh_machine models = suc (sum (λ (vm : VMachine). vm.id) models.vmachine)

fresh_disk_new : (m : Models) → exists disk_id (fresh_disk m) m.disk ≡ false
fresh_disk_new m = above (sum (λ (d : Disk). d.id) m.disk) m.disk (omega arith)
  where
    above :
        (n : ℕ) (ds : List Disk)
        → sum (λ (d : Disk). d.id) ds ≤ n
        → exists disk_id (suc n) ds ≡ false
    above n [] h = refl
    above n (d ∷ ds) h = ground (arith, above n ds)

fresh_machine_new : (m : Models) → exists vm_id (fresh_machine m) m.vmachine ≡ false
fresh_machine_new m = above (sum (λ (vm : VMachine). vm.id) m.vmachine) m.vmachine (omega arith)
  where
    above :
        (n : ℕ) (vms : List VMachine)
        → sum (λ (vm : VMachine). vm.id) vms ≤ n
        → exists vm_id (suc n) vms ≡ false
    above n [] h = refl
    above n (vm ∷ vms) h = ground (arith, above n vms)

abbrev no_limits : Limits
no_limits cu = none

abbrev team : Account
team = record {
  id = 1;
  name = "team";
  acl = [];
  status = AccountStatus.confirmed;
  resource_limits = no_limits;
  send_access_emails = false;
}

abbrev space : Cloudspace
space = record {
  id = 1;
  name = "space";
  account_id = 1;
  gid = 7;
  acl = [];
  status = CloudspaceStatus.deployed;
  resource_limits = no_limits;
  network_id = some 40;
  externalnetwork_id = none;
  externalnetworkip = none;
  allowed_vm_sizes = [];
}

abbrev web : VMachine
web = record {
  id = 1;
  name = "web";
  cloudspace_id = 1;
  size_id = 1;
  image_id = 1;
  disks = 4 ∷ [];
  nics = [];
  status = MachineStatus.running;
  stack_id = 2;
  reference_id = 9;
  acl = [];
  is_virtual = true;
  clone_reference = 0;
}

abbrev before : Models
before = record {
  account = team ∷ [];
  cloudspace = space ∷ [];
  vmachine = web ∷ [];
  disk =
      record { id = 4; account_id = 1; gid = 7; size_max = 10; status = DiskStatus.created } ∷ [];
  size = record { id = 1; memory = 512; vcpus = 1; disks = 10 ∷ []; gids = 7 ∷ [] } ∷ [];
  stack =
      record {
        id = 2;
        gid = 7;
        reference_id = 3;
        status = StackStatus.enabled;
        images = 1 ∷ [];
        error = 0;
      }
      ∷ [];
  externalnetwork = [];
  networkids = [];
}

abbrev linux : List Image
linux = record { id = 1; size = 5; is_created = true } ∷ []

abbrev db : MachineOrder
db = record { name = "db"; size_id = 1; image_id = 1; disksize = 10; datadisks = 100 ∷ [] }

all_active : ℕ → ℕ → Bool
all_active gid reference_id = true

abbrev works : Driver
works = record {
  has_image = λ k image. ok true;
  list_sizes = λ k. ok (record { ram = 512; vcpus = 1; disk = 20 } ∷ []);
  create_node = λ k size vm. made 77 (60 ∷ 61 ∷ []);
}

-- Every node fails, so the only stack is ruled out.
abbrev fails : Driver
fails = record {
  has_image = λ k image. ok true;
  list_sizes = λ k. ok [];
  create_node = λ k size vm. other_exception;
}

-- The images of a stack are not to be had.
abbrev offline : Driver
offline = record {
  has_image = λ k image. err python_error;
  list_sizes = λ k. ok [];
  create_node = λ k size vm. minus_one;
}

abbrev quiet : Hypervisor
quiet = record {
  node_details = λ ref. ok (none, false);
  supports = λ a. true;
  act = λ a ref. ok true;
  attach_volume = λ ref k. ok tt;
  detach_volume = λ k. ok tt;
  create_volume = λ size k. ok tt;
  destroy_volume = λ k. ok tt;
}

abbrev after : Models
after = (create linux fresh_disk fresh_machine works all_active 1 db before).1

db_runs : (create linux fresh_disk fresh_machine works all_active 1 db before).0 ≡ ok (some 2)
unfolding create all_active
db_runs = refl

no_stack_left :
    (create linux fresh_disk fresh_machine fails all_active 1 db before).0 ≡ err service_unavailable
unfolding create all_active
no_stack_left = refl

-- The exception of the driver leaves the machine and its two disks.
left_behind :
    ((create linux fresh_disk fresh_machine offline all_active 1 db before).0 ≡ err python_error)
    × (length (create linux fresh_disk fresh_machine offline all_active 1 db before).1.vmachine ≡ 2)
    × (length (create linux fresh_disk fresh_machine offline all_active 1 db before).1.disk ≡ 3)
unfolding create all_active
left_behind = (refl, refl, refl)

before-IsNamed : IsNamed before
before-IsNamed = record { own_ids = (refl, tt); names = refl; room = λ c. ground arith }

Reach-IsNamed_example : IsNamed (update_machine 2 (some "cache") after).1
Reach-IsNamed_example =
    Reach-IsNamed linux fresh_disk fresh_machine fresh_disk_new fresh_machine_new works all_active
      quiet before-IsNamed
      (then_call (then_call begin (creates 1 db before)) (updates 2 (some "cache") after))
