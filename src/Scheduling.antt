-- ===== src/Scheduling.antt =====
-- The choice of a stack for a machine: apps/cloudbroker/cloudbrokerlib/cloudbroker.py. Which nodes have
-- a session with the agent controller is the parameter `active`.
pub mod Best
pub mod Tests
use openvcloud.Prelude.{
  ℕ, suc, ◌+◌, Bool, true, false, not, ◌&&◌, Option, none, some, List, [], ◌∷◌, ◌==◌, filter, mem,
  leb, if◌then◌else◌,
}
use openvcloud.Result.{Result, ok, err, python_error, bind, Exec, ◌>>=◌, ◌>>◌, or_raise, modify}
use openvcloud.Models.{Stack, StackStatus, VMachine, MachineStatus, Size, Models}
use openvcloud.Models.Table.{get, set}
use openvcloud.Limits.{sum_sizes}

-- Machines that take memory of their stack: not HALTED, ERROR or DESTROYED.
abbrev uses_memory : VMachine → Bool
uses_memory vm = elim vm.status [
  | MachineStatus.halted ↦ false
  | MachineStatus.error ↦ false
  | MachineStatus.destroyed ↦ false
  | _ ↦ true
]

unfoldable pub used_memory : Models → Stack → Result ℕ
unfolding sum_sizes
used_memory models stack =
    sum_sizes (λ s. s.memory) models.size
      (filter (λ vm. vm.stack_id == stack.id && uses_memory vm) models.vmachine)

abbrev is_enabled : Stack → Bool
is_enabled stack = elim stack.status [ StackStatus.enabled ↦ true | _ ↦ false ]

abbrev has_image : Option ℕ → Stack → Bool
has_image none stack = true
has_image (some k) stack = mem k stack.images

-- A stack with the memory that its machines take.
abbrev pub Load : Type 0
Load = Stack × ℕ

-- `sort(key=…)` keeps the order of stacks that are used alike.
unfoldable pub insert : Load → List Load → List Load
insert x [] = x ∷ []
insert x (y ∷ ys) = if leb x.1 y.1 then x ∷ y ∷ ys else y ∷ insert x ys

unfoldable pub sort : List Load → List Load
unfolding insert
sort [] = []
sort (x ∷ xs) = insert x (sort xs)

abbrev pub eco_limit : ℕ
eco_limit = 2

abbrev pub stack_id_of : Stack → ℕ
stack_id_of stack = stack.id

-- `markProvider`: the second error takes the stack out of service.
unfoldable pub mark_provider : ℕ → Exec Models (Unit {0})
mark_provider stack_id = do
  stack ← λ models. or_raise (get stack_id_of stack_id models.stack) python_error models
  modify λ models. record models {
    stack =
        set stack_id_of
          (record stack {
            error = suc stack.error;
            status = if leb eco_limit (suc stack.error) then StackStatus.error else stack.status;
          })
          models.stack;
  }

-- `clearProvider`
unfoldable pub clear_provider : ℕ → Exec Models (Unit {0})
clear_provider stack_id = do
  stack ← λ models. or_raise (get stack_id_of stack_id models.stack) python_error models
  modify λ models. record models {
    stack = set stack_id_of (record stack { error = 0; status = StackStatus.enabled }) models.stack;
  }

abbrev pub first : List Load → Option Load
first [] = none
first (x ∷ xs) = some x

module _ (active : ℕ → ℕ → Bool) (gid : ℕ) (image_id : Option ℕ) (models : Models) where
  unfoldable pub serves : Stack → Bool
  serves stack =
      (stack.gid == gid && has_image image_id stack)
      && (is_enabled stack && active stack.gid stack.reference_id)

  unfoldable pub loads : List Stack → Result (List Load)
  unfolding serves used_memory
  loads [] = ok []
  loads (s ∷ stacks) =
      bind (loads stacks)
        λ rest. if serves s then (bind (used_memory models s) λ n. ok ((s, n) ∷ rest)) else ok rest

  -- `getCapacityInfo`
  unfoldable pub get_capacity_info : Result (List Load)
  unfolding loads sort
  get_capacity_info = bind (loads models.stack) λ found. ok (sort found)

  -- `getBestProvider`; `none` is -1
  unfoldable pub get_best_provider : List ℕ → Result (Option Load)
  unfolding get_capacity_info
  get_best_provider excludelist =
      bind get_capacity_info λ info. ok (first (filter (λ x. not (mem x.0.id excludelist)) info))
