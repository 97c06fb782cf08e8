-- ===== src/Machines/Provision.antt =====
-- The machine on a stack: `create`, `cleanup`, `getSize` and `updateMachineFromNode` of the class
-- Machine, and `getSize` of the class CloudProvider, in apps/cloudbroker/cloudbrokerlib/cloudbroker.py.
-- What the driver of a stack answers is a parameter. The interfaces of a new machine, and the stack
-- and the reference of its disks are left out.
-- `stackId` is `none` for the actor of the users, and a stack for the operators.
use openvcloud.Prelude.{
  ℕ, zero, suc, ◌==◌, ltb, ◌&&◌, if◌then◌else◌, Bool, true, false, not, Option, none, some, List,
  [], ◌∷◌, ◌++◌,
}
use openvcloud.Result.{
  Error, Result, ok, err, bad_request, service_unavailable, python_error, Exec, raise, ◌>>=◌, ◌>>◌,
  pure, gets, lift, or_raise,
}
use openvcloud.Models.{VMachine, MachineStatus, Size, Stack, Models}
use openvcloud.Models.Table.{get, delete as remove}
use openvcloud.Scheduling.{Load, stack_id_of, get_best_provider, mark_provider, clear_provider}
use openvcloud.Machines.{vm_id, set_machine}
use openvcloud.Disks.{disk_id}

-- How `create_node` ends: with a node, its reference id and its volumes of type disk, with -1, with a
-- StorageException, or with another exception.
pub data Attempt : Type 0 where
  made : ℕ → List ℕ → Attempt
  minus_one storage_exception other_exception : Attempt

-- A size of a provider.
pub record NodeSize : Type 0 where
  pub ram : ℕ
  pub vcpus : ℕ
  pub disk : ℕ

-- The provider of a stack: whether it has an image, its sizes, and how it makes a node.
pub record Driver : Type 0 where
  pub has_image : ℕ → ℕ → Result Bool
  pub list_sizes : ℕ → Result (List NodeSize)
  pub create_node : ℕ → Option NodeSize → VMachine → Attempt

abbrev pub remove_disks : List ℕ → Models → Models
remove_disks [] models = models
remove_disks (k ∷ ks) models =
    remove_disks ks (record models { disk = remove disk_id k models.disk })

-- `cleanup`, and the exception that follows it
unfoldable pub fail : {A : Type 0} → VMachine → Error → Exec Models A
fail vm e models = (
  err e,
  (let left = remove_disks vm.disks models in
      record left { vmachine = remove vm_id vm.id left.vmachine }),
)

abbrev is_bigger : Option NodeSize → NodeSize → Bool
is_bigger none s = true
is_bigger (some best) s = ltb s.disk best.disk

-- `getSize` of a provider: the size with a disk as big as the first one, or else the smallest bigger.
abbrev pub find_size : Size → ℕ → Option NodeSize → List NodeSize → Option NodeSize
find_size size boot biggerdisk [] = biggerdisk
find_size size boot biggerdisk (s ∷ sizes) =
    let keep = find_size size boot biggerdisk sizes in
    let bigger = find_size size boot (some s) sizes in
    if not (s.ram == size.memory && s.vcpus == size.vcpus)
    then keep
    else if boot == s.disk
    then some s
    else if ltb boot s.disk && is_bigger biggerdisk s
    then bigger
    else keep

-- `machine.disks[0]`
abbrev pub first_disk : List ℕ → Option ℕ
first_disk [] = none
first_disk (k ∷ ks) = some k

-- `getSize` of a machine
unfoldable pub get_size : Driver → ℕ → VMachine → Exec Models (Option NodeSize)
get_size driver k vm = do
  found ← gets (λ (models : Models). get (λ (s : Size). s.id) vm.size_id models.size)
  size ← or_raise found python_error
  first ← or_raise (first_disk vm.disks) python_error
  stored ← gets (λ (models : Models). get disk_id first models.disk)
  boot ← or_raise stored python_error
  sizes ← lift (driver.list_sizes k)
  pure (find_size size boot.size_max none sizes)

-- The loop of `updateMachineFromNode` over the disks, each with its volume.
abbrev pub adopt_disks : List ℕ → List ℕ → Exec Models (Unit {0})
adopt_disks [] volumes models = (ok tt, models)
adopt_disks (k ∷ ks) [] models = (err python_error, models)
adopt_disks (k ∷ ks) (volume ∷ volumes) models = elim (get disk_id k models.disk) [
  | none ↦ (err python_error, models)
  | some disk ↦ adopt_disks ks volumes models
]

-- `updateMachineFromNode`
unfoldable pub update_machine_from_node :
    VMachine → ℕ → List ℕ → ℕ → Option NodeSize → Exec Models (Unit {0})
update_machine_from_node vm reference volumes k none = raise python_error
update_machine_from_node vm reference volumes k (some size) = do
  set_machine (record vm { reference_id = reference; stack_id = k; status = MachineStatus.running })
  adopt_disks vm.disks volumes

unfoldable pub fail_if : Bool → VMachine → Error → Exec Models (Unit {0})
unfolding fail
fail_if true vm e = fail vm e
fail_if false vm e = pure tt

module _ (driver : Driver) (active : ℕ → ℕ → Bool) (gid : ℕ) where
  unfoldable pub best_or_fail : VMachine → Result (Option Load) → Exec Models ℕ
  unfolding fail
  best_or_fail vm (err e) = fail vm e
  best_or_fail vm (ok none) = fail vm service_unavailable
  best_or_fail vm (ok (some load)) = pure load.0.id

  unfoldable pub given_or_fail : VMachine → Option Stack → Exec Models ℕ
  unfolding fail_if fail
  given_or_fail vm none = fail vm python_error
  given_or_fail vm (some stack) = do
    fail_if (not (active stack.gid stack.reference_id)) vm service_unavailable
    pure stack.id

  -- `getStackAndProvider`
  unfoldable pub get_stack : Option ℕ → List ℕ → VMachine → Exec Models ℕ
  unfolding best_or_fail given_or_fail get_best_provider
  get_stack none excludelist vm = do
    best ← gets (λ models. get_best_provider active gid (some vm.image_id) models excludelist)
    best_or_fail vm best
  get_stack (some k) excludelist vm = do
    stack ← gets (λ models. get stack_id_of k models.stack)
    given_or_fail vm stack

  -- What follows a round without a node: a given stack is not replaced by another.
  unfoldable pub next_round : Option ℕ → VMachine → Exec Models (Option ℕ) → Exec Models (Option ℕ)
  unfolding fail
  next_round none vm again = again
  next_round (some k) vm again = fail vm service_unavailable

  abbrev pub failed : VMachine → VMachine
  failed vm = record vm { status = MachineStatus.error }

  unfoldable pub after_node :
      Option ℕ
      → ℕ
      → Option NodeSize
      → VMachine
      → Attempt
      → (VMachine → Exec Models (Option ℕ))
      → Exec Models (Option ℕ)
  unfolding next_round fail mark_provider clear_provider update_machine_from_node
  after_node given k size vm (made reference volumes) again = do
    clear_provider k
    update_machine_from_node vm reference volumes k size
    pure (some vm.id)
  after_node given k size vm storage_exception again = fail vm service_unavailable
  after_node given k size vm minus_one again = next_round given vm (again vm)
  after_node given k size vm other_exception again = do
    mark_provider k
    set_machine (failed vm)
    next_round given (failed vm) (again (failed vm))

  -- The loop of `create`, with at most as many rounds as are given; `none` is that they are over.
  unfoldable pub rounds : ℕ → Option ℕ → Option ℕ → List ℕ → VMachine → Exec Models (Option ℕ)
  unfolding get_stack fail_if get_size after_node
  rounds zero given new excludelist vm = pure none
  rounds (suc n) given new excludelist vm = do
    k ← get_stack new excludelist vm
    image ← lift (driver.has_image k vm.image_id)
    fail_if (not image) vm bad_request
    size ← get_size driver k vm
    after_node given k size vm (driver.create_node k size vm)
        (rounds n given none (excludelist ++ k ∷ []))
