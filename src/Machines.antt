-- ===== src/Machines.antt =====
-- Actions on virtual machines: `_action`, `start`, `stop`, `reboot`, `reset`, `pause` and `resume` of
-- apps/cloudbroker/base/cloudapi__machines, with `getProviderAndNode` and `chooseProvider` of
-- apps/cloudbroker/cloudbrokerlib/cloudbroker.py. The hypervisor is a parameter.
pub mod Status
pub mod Outcome
pub mod Provision
pub mod Candidates
pub mod Retry
pub mod Create
pub mod Cleanup
pub mod Faulty
pub mod Settled
pub mod Validated
pub mod Whole
pub mod Names
pub mod Named
pub mod Calls
pub mod Acted
pub mod CreateTests
pub mod External
pub mod Delete
pub mod Destroyed
pub mod Deleted
pub mod DeleteTests
pub mod Plugged
pub mod Attached
pub mod Tests
use openvcloud.Prelude.{
  ℕ, zero, suc, Bool, true, false, not, ◌&&◌, Option, none, some, List, [], ◌==◌, if◌then◌else◌,
}
use openvcloud.Result.{
  Error, Result, ok, err, bad_request, conflict, service_unavailable, python_error, Exec, ◌>>=◌,
  ◌>>◌, pure, raise, lift, or_raise, raise_if, gets, modify,
}
use openvcloud.Models.{Cloudspace, VMachine, MachineStatus, Models}
use openvcloud.Models.Table.{get, update, set}
use openvcloud.Scheduling.{Load, get_best_provider}

pub data Action : Type 0 where
  start_node stop_node soft_reboot hard_reboot pause_node resume_node : Action

-- The driver of a stack: machines are known to it by their reference ids, volumes by the ids of their
-- disks here.
pub record Hypervisor : Type 0 where
  -- `ex_get_node_details`: the status that the state of the node stands for, if any, and whether the
  -- node is locked
  pub node_details : ℕ → Result (Option MachineStatus × Bool)
  pub supports : Action → Bool
  pub act : Action → ℕ → Result Bool
  pub attach_volume : ℕ → ℕ → Result (Unit {0})
  pub detach_volume : ℕ → Result (Unit {0})
  pub create_volume : ℕ → ℕ → Result (Unit {0})
  pub destroy_volume : ℕ → Result (Unit {0})

abbrev pub vm_id : VMachine → ℕ
vm_id vm = vm.id

abbrev code : MachineStatus → ℕ
code MachineStatus.running = 0
code MachineStatus.halted = 1
code MachineStatus.paused = 2
code MachineStatus.error = 3
code MachineStatus.destroying = 4
code MachineStatus.destroyed = 5
code MachineStatus.unset = 6

abbrev pub same_status : MachineStatus → MachineStatus → Bool
same_status a b = code a == code b

-- `machine.status in ['ERROR', 'DESTROYED', 'DESTROYING']`
abbrev pub out_of_reach : VMachine → Bool
out_of_reach vm = elim vm.status [
  | MachineStatus.error ↦ true
  | MachineStatus.destroyed ↦ true
  | MachineStatus.destroying ↦ true
  | _ ↦ false
]

-- `machine.referenceId and machine.stackId`
abbrev pub has_provider : VMachine → Bool
has_provider vm = not (vm.reference_id == 0) && not (vm.stack_id == 0)

abbrev pub halted_if_destroyed : MachineStatus → MachineStatus
halted_if_destroyed MachineStatus.destroyed = MachineStatus.halted
halted_if_destroyed s = s

abbrev pub set_machine : VMachine → Exec Models (Unit {0})
set_machine vm = modify λ models. record models { vmachine = set vm_id vm models.vmachine }

-- The status of the node is written to the machine where it is another. A node is told by whether it
-- is locked.
abbrev pub write_refreshed : Bool → VMachine → Exec Models (Option Bool × VMachine)
write_refreshed locked vm = set_machine vm >> pure (some locked, vm)

unfoldable pub refresh :
    VMachine → Option MachineStatus × Bool → Exec Models (Option Bool × VMachine)
refresh vm (none, locked) = pure (some locked, vm)
refresh vm (some s, locked) =
    if same_status s vm.status
    then pure (some locked, vm)
    else write_refreshed locked (record vm { status = halted_if_destroyed s })

module _ (hv : Hypervisor) where
  unfoldable pub provider_and_node : Bool → VMachine → Exec Models (Option Bool × VMachine)
  unfolding refresh
  provider_and_node false vm = pure (none, vm)
  provider_and_node true vm = do
    details ← lift (hv.node_details vm.reference_id)
    refresh vm details

  -- `getProviderAndNode`
  unfoldable pub get_provider_and_node : ℕ → Exec Models (Option Bool × VMachine)
  unfolding provider_and_node
  get_provider_and_node k = do
    vm ← λ models. or_raise (get vm_id k models.vmachine) python_error models
    provider_and_node (not (out_of_reach vm) && has_provider vm) vm

  -- `if newstatus and newstatus != machine.status`
  unfoldable pub write_status : VMachine → MachineStatus → Exec Models (Unit {0})
  write_status vm new =
      if same_status new vm.status
      then pure tt
      else (modify λ models. record models {
        vmachine = update vm_id vm.id (λ v. record v { status = new }) models.vmachine;
      })

  -- `_action`
  unfoldable pub action : Action → MachineStatus → ℕ → Exec Models Bool
  unfolding get_provider_and_node write_status
  action a new k = do
    (node, vm) ← get_provider_and_node k
    raise_if (not vm.is_virtual) bad_request
    locked ← or_raise node python_error
    raise_if locked conflict
    raise_if (not (hv.supports a)) bad_request
    write_status vm new
    lift (hv.act a vm.reference_id)

  unfoldable pub stop : ℕ → Exec Models Bool
  unfolding action
  stop = action stop_node MachineStatus.halted

  unfoldable pub reboot : ℕ → Exec Models Bool
  unfolding action
  reboot = action soft_reboot MachineStatus.running

  unfoldable pub reset : ℕ → Exec Models Bool
  unfolding action
  reset = action hard_reboot MachineStatus.running

  unfoldable pub pause : ℕ → Exec Models Bool
  unfolding action
  pause = action pause_node MachineStatus.paused

  unfoldable pub resume : ℕ → Exec Models Bool
  unfolding action
  resume = action resume_node MachineStatus.running

abbrev pub runs_or_paused : VMachine → Bool
runs_or_paused vm = elim vm.status [
  | MachineStatus.running ↦ true
  | MachineStatus.paused ↦ true
  | _ ↦ false
]

module _ (hv : Hypervisor) (active : ℕ → ℕ → Bool) where
  -- `chooseProvider`
  unfoldable pub choose_provider : VMachine → Exec Models Bool
  unfolding get_best_provider
  choose_provider vm = do
    cs ← λ models.
        or_raise (get (λ (c : Cloudspace). c.id) vm.cloudspace_id models.cloudspace) python_error
          models
    best ← λ models. lift (get_best_provider active cs.gid (some vm.image_id) models []) models
    load ← or_raise best service_unavailable
    set_machine (record vm { stack_id = load.0.id })
    pure true

  unfoldable pub choose_if : Bool → VMachine → Exec Models Bool
  unfolding choose_provider
  choose_if true vm = pure true
  choose_if false vm = choose_provider vm

  -- `start`; the tags of a machine are left out.
  unfoldable pub start : ℕ → Exec Models Bool
  unfolding choose_if action
  start k = do
    vm ← λ models. or_raise (get vm_id k models.vmachine) python_error models
    choose_if (runs_or_paused vm) vm
    action hv start_node MachineStatus.running k
