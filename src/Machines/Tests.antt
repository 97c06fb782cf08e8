-- ===== src/Machines/Tests.antt =====
-- A machine that runs, a hypervisor on which an action fails, and the creation of a machine on the
-- second of two stacks.
use openvcloud.Prelude.{
  Bool, ℕ, ◌⊎◌, ◌==◌, if◌then◌else◌, ◌≡◌, refl, true, false, none, some, [], ◌∷◌,
}
use openvcloud.Result.{Error, ok, err, python_error}
use openvcloud.Models.{VMachine, MachineStatus, Stack, StackStatus, Size, DiskStatus, Models}
use openvcloud.Limits.{sum_sizes}
use openvcloud.Scheduling.{
  get_best_provider, get_capacity_info, loads, serves, used_memory, sort, insert, mark_provider,
  clear_provider,
}
use openvcloud.Machines.Provision.{
  Driver, made, other_exception, rounds, get_stack, best_or_fail, fail_if, get_size, after_node,
  update_machine_from_node, next_round,
}
use openvcloud.Machines.Retry.{create_ends}
use openvcloud.Models.Table.{get}
use openvcloud.Machines.{
  Hypervisor, pause_node, vm_id, action, get_provider_and_node, provider_and_node, refresh,
  write_status,
}
use openvcloud.Machines.Status.{with_status}
use openvcloud.Machines.Outcome.{action_written}

abbrev works : Hypervisor
works = record {
  node_details = λ ref. ok (none, false);
  supports = λ a. true;
  act = λ a ref. ok true;
  attach_volume = λ ref k. ok tt;
  detach_volume = λ k. ok tt;
  create_volume = λ size k. ok tt;
  destroy_volume = λ k. ok tt;
}

abbrev broken : Hypervisor
broken = record works {
  node_details = λ ref. ok (some MachineStatus.halted, false);
  act = λ a ref. err python_error;
}

abbrev machine : VMachine
machine = record {
  id = 1;
  name = "vm";
  cloudspace_id = 1;
  size_id = 1;
  image_id = 1;
  disks = 4 ∷ [];
  nics = [];
  status = MachineStatus.running;
  stack_id = 2;
  reference_id = 9;
  acl = [];
  is_virtual = true;
  clone_reference = 0;
}

abbrev one_machine : Models
one_machine = record {
  account = [];
  cloudspace = [];
  vmachine = machine ∷ [];
  disk = [];
  size = [];
  stack = [];
  externalnetwork = [];
  networkids = [];
}

pause_one : (action works pause_node MachineStatus.paused 1 one_machine).0 ≡ ok true
unfolding action get_provider_and_node provider_and_node refresh write_status
pause_one = refl

action_written_example :
    ((action broken pause_node MachineStatus.paused 1 one_machine).0 ≡ err python_error)
    × (get vm_id 1 (action broken pause_node MachineStatus.paused 1 one_machine).1.vmachine
        ≡ some (with_status MachineStatus.paused machine))
action_written_example =
    action_written broken pause_node MachineStatus.paused 1 one_machine machine
      (some MachineStatus.halted) refl refl refl refl refl

abbrev node : ℕ → Stack
node id = record {
  id = id;
  gid = 7;
  reference_id = id;
  status = StackStatus.enabled;
  images = 1 ∷ [];
  error = 0;
}

abbrev small : Size
small = record { id = 1; memory = 512; vcpus = 1; disks = []; gids = [] }

abbrev two_stacks : Models
two_stacks = record one_machine {
  disk =
      record { id = 4; account_id = 1; gid = 7; size_max = 10; status = DiskStatus.created } ∷ [];
  size = small ∷ [];
  stack = node 2 ∷ node 3 ∷ [];
}

all_active : ℕ → ℕ → Bool
all_active gid reference_id = true

-- Nodes are made on stack 2 only; the machine takes memory there, so stack 3 is tried first.
abbrev one_works : Driver
one_works = record {
  has_image = λ k image. ok true;
  list_sizes = λ k. ok (record { ram = 512; vcpus = 1; disk = 20 } ∷ []);
  create_node = λ k size vm. if k == 2 then made 77 (60 ∷ []) else other_exception;
}

create_second : (rounds one_works all_active 7 3 none none [] machine two_stacks).0 ≡ ok (some 1)
unfolding rounds get_stack best_or_fail get_best_provider get_capacity_info loads serves used_memory
    sum_sizes sort insert fail_if get_size after_node next_round update_machine_from_node
    mark_provider clear_provider all_active
create_second = refl

create_ends_example :
    ((e : Error) × ((rounds one_works all_active 7 3 none none [] machine two_stacks).0 ≡ err e))
    ⊎ ((rounds one_works all_active 7 3 none none [] machine two_stacks).0 ≡ ok (some 1))
create_ends_example = create_ends one_works all_active 7 machine two_stacks
