-- ===== src/Machines/Create.antt =====
-- `create` and `update` of apps/cloudbroker/base/cloudapi__machines, with `validateCreate`,
-- `assertName` and `createModel` of apps/cloudbroker/cloudbrokerlib/cloudbroker.py and `list` of
-- apps/cloudbroker/base/cloudapi__sizes. The images, which are only read, are the parameter
-- `images`; `fresh_disk` and `fresh_machine` are the ids that the store gives new objects. The
-- logins and passwords of a machine are left out.
use Prim.Native.Char.{code}
use openvcloud.Prelude.{
  ℕ, suc, String, Bool, true, false, not, ◌&&◌, ◌||◌, Option, none, some, List, [], ◌∷◌, ◌++◌, ◌==◌,
  str_eq, leb, ltb, any, filter, mem, length, sum,
}
use openvcloud.Result.{
  bad_request, conflict, python_error, Exec, ◌>>=◌, ◌>>◌, pure, or_raise, raise_if, gets, modify,
}
use openvcloud.Models.{
  Cloudspace, CloudspaceStatus, VMachine, MachineStatus, Size, Image, CuType, Models,
}
use openvcloud.Models.Table.{get}
use openvcloud.Limits.{is_live}
use openvcloud.Limits.Available.{Needs, check_cloudspace_resources}
use openvcloud.Machines.{vm_id, set_machine}
use openvcloud.Machines.Provision.{Driver, rounds}
use openvcloud.Disks.{new_disk}

-- What the client asks for; sizes of disks are in GB.
pub record MachineOrder : Type 0 where
  pub name : String
  pub size_id : ℕ
  pub image_id : ℕ
  pub disksize : ℕ
  pub datadisks : List ℕ

abbrev is_space : ℕ → Bool
is_space c = c == 32 || (leb 9 c && leb c 13)

-- `not name.strip()`, which holds of the empty text too
pub is_blank : String → Bool
is_blank String.[] = true
is_blank (String.◌∷◌ c s) = is_space (code c) && is_blank s

-- A live machine of the cloudspace with the name.
abbrev pub has_name : ℕ → String → VMachine → Bool
has_name cloudspace_id name vm =
    (vm.cloudspace_id == cloudspace_id && str_eq vm.name name) && is_live vm

-- `assertName`
unfoldable pub assert_name : ℕ → String → Exec Models (Unit {0})
unfolding is_blank
assert_name cloudspace_id name = do
  raise_if (is_blank name) python_error
  same ← gets (λ models. any (has_name cloudspace_id name) models.vmachine)
  raise_if same conflict

abbrev pub get_cloudspace : ℕ → Exec Models Cloudspace
get_cloudspace k models =
    or_raise (get (λ (c : Cloudspace). c.id) k models.cloudspace) python_error models

abbrev pub get_size : ℕ → Exec Models Size
get_size k models = or_raise (get (λ (s : Size). s.id) k models.size) python_error models

-- `if cloudspace.allowedVMSizes`
abbrev allows : List ℕ → ℕ → Bool
allows [] k = true
allows (j ∷ ks) k = mem k (j ∷ ks)

abbrev pub sizes_of : Cloudspace → Models → List Size
sizes_of cs models = filter (λ s. mem cs.gid s.gids && allows cs.allowed_vm_sizes s.id) models.size

-- `list` of the sizes
unfoldable pub list_sizes : ℕ → Exec Models (List Size)
list_sizes cloudspace_id = do cs ← get_cloudspace cloudspace_id; gets (sizes_of cs)

abbrev pub is_destroyed : Cloudspace → Bool
is_destroyed cs = elim cs.status [ CloudspaceStatus.destroyed ↦ true | _ ↦ false ]

abbrev pub is_kept : VMachine → Bool
is_kept vm = elim vm.status [ MachineStatus.destroyed ↦ false | _ ↦ true ]

-- A machine of the cloudspace that is not DESTROYED.
abbrev pub lives_in : ℕ → VMachine → Bool
lives_in cloudspace_id vm = is_kept vm && vm.cloudspace_id == cloudspace_id

abbrev pub max_machines : ℕ
max_machines = 250

abbrev pub max_datadisk : ℕ
max_datadisk = 2000

abbrev pub machine_needs : Size → ℕ → Needs
machine_needs size disks cu = elim cu [
  | CuType.cu_c ↦ size.vcpus
  | CuType.cu_m ↦ size.memory
  | CuType.cu_d ↦ disks
  | _ ↦ 0
]

-- `totaldisksize` is the sum of the boot disk and the data disks.
abbrev pub order_needs : MachineOrder → Size → Needs
order_needs order size = machine_needs size (sum (λ n. n) (order.disksize ∷ order.datadisks))

-- `if name`: an empty text is none.
abbrev pub given_name : Option String → Option String
given_name none = none
given_name (some name) = elim (str_eq name "") [ true ↦ none | false ↦ some name ]

-- `update`; descriptions are left out.
unfoldable pub rename : VMachine → Option String → Exec Models (Unit {0})
unfolding assert_name
rename vm none = set_machine vm
rename vm (some name) = do
  assert_name vm.cloudspace_id name
  set_machine (record vm { name = name })

unfoldable pub update_machine : ℕ → Option String → Exec Models ℕ
unfolding rename
update_machine k new = do
  vm ← λ models. or_raise (get vm_id k models.vmachine) python_error models
  rename vm (given_name new)
  pure vm.id

abbrev pub new_machine : ℕ → MachineOrder → List ℕ → ℕ → VMachine
new_machine cloudspace_id order disks id = record {
  id = id;
  name = order.name;
  cloudspace_id = cloudspace_id;
  size_id = order.size_id;
  image_id = order.image_id;
  disks = disks;
  nics = [];
  status = MachineStatus.unset;
  stack_id = 0;
  reference_id = 0;
  acl = [];
  is_virtual = true;
  clone_reference = 0;
}

module _ (images : List Image) where
  -- `models.image.get(imageId)`
  abbrev pub get_image : ℕ → Exec Models Image
  get_image k models = or_raise (get (λ (i : Image). i.id) k images) python_error models

  -- `validateCreate`
  unfoldable pub validate_create : Cloudspace → MachineOrder → Exec Models (Unit {0})
  unfolding assert_name list_sizes
  validate_create cs order = do
    assert_name cs.id order.name
    raise_if (order.disksize == 0) bad_request
    raise_if (any (λ size. ltb max_datadisk size) order.datadisks) bad_request
    raise_if (is_destroyed cs) bad_request
    image ← get_image order.image_id
    raise_if (ltb order.disksize image.size) bad_request
    raise_if (not image.is_created) bad_request
    living ← gets (λ models. length (filter (lives_in cs.id) models.vmachine))
    raise_if (leb max_machines living) bad_request
    sizes ← list_sizes cs.id
    raise_if (not (any (λ s. s.id == order.size_id) sizes)) bad_request
    size ← get_size order.size_id
    raise_if (not (mem order.disksize size.disks)) bad_request

module _ (fresh_disk : Models → ℕ) where
  -- `addDisk` of `createModel`
  unfoldable pub store_disk : Cloudspace → ℕ → Exec Models ℕ
  store_disk cs size = do
    id ← gets fresh_disk
    modify
        λ models. record models { disk = models.disk ++ new_disk cs.account_id cs.gid size id ∷ [] }
    pure id

  unfoldable pub store_disks : Cloudspace → List ℕ → Exec Models (List ℕ)
  unfolding store_disk
  store_disks cs [] = pure []
  store_disks cs (size ∷ sizes) = do
    id ← store_disk cs size
    ids ← store_disks cs sizes
    pure (id ∷ ids)

module _ (images : List Image) (fresh_disk fresh_machine : Models → ℕ) where
  -- `createModel`: the boot disk, the data disks, and the machine that has them
  unfoldable pub create_model : Cloudspace → MachineOrder → Exec Models VMachine
  unfolding store_disks
  create_model cs order = do
    get_image images order.image_id
    ids ← store_disks fresh_disk cs (order.disksize ∷ order.datadisks)
    id ← gets fresh_machine
    modify λ models. record models {
      vmachine = models.vmachine ++ new_machine cs.id order ids id ∷ [];
    }
    pure (new_machine cs.id order ids id)

  module _ (driver : Driver) (active : ℕ → ℕ → Bool) where
    -- `create`; `none` would be that the rounds of `Machine.create` are over
    unfoldable pub create : ℕ → MachineOrder → Exec Models (Option ℕ)
    unfolding validate_create check_cloudspace_resources create_model rounds
    create cloudspace_id order = do
      cs ← get_cloudspace cloudspace_id
      validate_create images cs order
      size ← get_size order.size_id
      check_cloudspace_resources cs.id (order_needs order size) true
      vm ← create_model cs order
      n ← gets (λ models. length models.stack)
      rounds driver active cs.gid (suc n) none none [] vm
