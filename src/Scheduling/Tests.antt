-- ===== src/Scheduling/Tests.antt =====
-- Two stacks, one of which runs a machine.
use openvcloud.Prelude.{ℕ, ◌≤◌, ◌≡◌, refl, Bool, true, false, not, some, none, [], ◌∷◌, mem}
use openvcloud.Result.{ok}
use openvcloud.Models.{Stack, StackStatus, Size, VMachine, MachineStatus, Models}
use openvcloud.Limits.{sum_sizes}
use openvcloud.Scheduling.{
  insert, sort, used_memory, serves, loads, get_capacity_info, get_best_provider,
}
use openvcloud.Scheduling.Best.{AllOf, get_best_provider-least}

abbrev busy : Stack
busy = record {
  id = 1;
  gid = 7;
  reference_id = 11;
  status = StackStatus.enabled;
  images = [];
  error = 0;
}

abbrev idle : Stack
idle = record {
  id = 2;
  gid = 7;
  reference_id = 12;
  status = StackStatus.enabled;
  images = [];
  error = 0;
}

abbrev small : Size
small = record { id = 5; memory = 512; vcpus = 1; disks = []; gids = [] }

abbrev worker : VMachine
worker = record {
  id = 3;
  name = "worker";
  cloudspace_id = 2;
  size_id = 5;
  image_id = 1;
  disks = [];
  nics = [];
  status = MachineStatus.running;
  stack_id = 1;
  reference_id = 1;
  acl = [];
  is_virtual = true;
  clone_reference = 0;
}

abbrev grid : Models
grid = record {
  account = [];
  cloudspace = [];
  vmachine = worker ∷ [];
  disk = [];
  size = small ∷ [];
  stack = busy ∷ idle ∷ [];
  externalnetwork = [];
  networkids = [];
}

abbrev all_active : ℕ → ℕ → Bool
all_active gid reference_id = true

idle_chosen : get_best_provider all_active 7 none grid [] ≡ ok (some (idle, 0))
unfolding get_best_provider get_capacity_info loads serves used_memory sum_sizes sort insert
idle_chosen = refl

get_best_provider-least_example :
    (serves all_active 7 none grid idle ≡ true)
    × (mem 2 [] ≡ false)
    × (used_memory grid idle ≡ ok 0)
    × AllOf
        (λ r.
          serves all_active 7 none grid r ≡ true
          → (m : ℕ) × (used_memory grid r ≡ ok m) × (not (mem r.id []) ≡ true → 0 ≤ m))
        (busy ∷ idle ∷ [])
get_best_provider-least_example =
    get_best_provider-least all_active 7 none grid [] idle 0 idle_chosen
