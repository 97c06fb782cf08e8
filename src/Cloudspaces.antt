-- ===== src/Cloudspaces.antt =====
-- The life of a cloudspace after `create`: `deploy`, `delete`, `disable`, `enable` and the allowed sizes of
-- apps/cloudbroker/base/cloudapi__cloudspaces; `create` is Cloudspaces/Create.
pub mod Network
pub mod Create
pub mod Status
pub mod Released
pub mod Owners
pub mod Ids
pub mod Found
pub mod Conserved
pub mod Addresses
pub mod Tests
use openvcloud.Prelude.{
  ℕ, Bool, true, false, not, ◌&&◌, Option, none, some, List, [], ◌∷◌, ◌==◌, any, filter, mem,
}
use openvcloud.Result.{
  ◌>>=◌, ◌>>◌, Result, ok, err, bad_request, conflict, python_error, Exec, ◌>>◌, pure, raise,
  or_raise, raise_if, gets, modify,
}
use openvcloud.Models.{
  Cloudspace, CloudspaceStatus, VMachine, MachineStatus, ExternalNetwork, Size, Models,
}
use openvcloud.Models.Table.{get, exists, update, set}
use openvcloud.Pools.{
  pool_id, get_external_ip_address, release_external_ip_address, pull, add_to_set,
}
use openvcloud.Firewall.{Cloud}
use Network.{Jobs, on_models, fw_create, fw_start, fw_stop, release_resources}

abbrev pub id_of : Cloudspace → ℕ
id_of cs = cs.id

abbrev pub get_cloudspace : ℕ → Exec Models Cloudspace
get_cloudspace k models = or_raise (get id_of k models.cloudspace) python_error models

abbrev pub set_cloudspace : Cloudspace → Exec Models (Unit {0})
set_cloudspace cs = modify λ models. record models { cloudspace = set id_of cs models.cloudspace }

abbrev pub update_space : ℕ → (Cloudspace → Cloudspace) → Exec Models (Unit {0})
update_space k f =
    modify λ models. record models { cloudspace = update id_of k f models.cloudspace }

-- The address of `deploy`: the one that the cloudspace has, or a new one. `None` does not unpack.
unfoldable pub address_of : Cloudspace → ExternalNetwork → Exec Models (ExternalNetwork × ℕ × ℕ)
unfolding get_external_ip_address
address_of cs pool = elim cs.externalnetworkip [
  | some (ip, prefixlen) ↦ pure (pool, ip, prefixlen)
  | none ↦ do
    netinfo ← get_external_ip_address cs.gid cs.externalnetwork_id
    (taken, ip, prefixlen) ← or_raise netinfo python_error
    update_space cs.id (λ c. record c { externalnetworkip = some (ip, prefixlen) })
    pure (taken, ip, prefixlen)
]

abbrev pub is_virtual : Cloudspace → Bool
is_virtual cs = elim cs.status [ CloudspaceStatus.virtual ↦ true | _ ↦ false ]

abbrev pub get_pool : Option ℕ → Exec Models ExternalNetwork
get_pool none models = (err python_error, models)
get_pool (some k) models = or_raise (get pool_id k models.externalnetwork) python_error models

-- The end of `deploy`: the firewall is created or not.
unfoldable pub finish_deploy : ℕ → ℕ → ℕ → Result Bool → Exec Models (Option CloudspaceStatus)
unfolding release_external_ip_address
finish_deploy k pool ip (ok b) = do
  update_space k (λ c. record c { status = CloudspaceStatus.deployed })
  pure (some CloudspaceStatus.deployed)
finish_deploy k pool ip (err e) = do
  release_external_ip_address pool ip
  update_space k (λ c. record c { externalnetworkip = none; status = CloudspaceStatus.virtual })
  raise e

-- Whether the cloudspace is VIRTUAL, tested and changed under its lock.
unfoldable pub claim_if : Bool → Cloudspace → Exec Models (Option Cloudspace)
claim_if false cs = pure none
claim_if true cs = do
  set_cloudspace (record cs { status = CloudspaceStatus.deploying })
  pure (some (record cs { status = CloudspaceStatus.deploying }))

unfoldable pub claim : ℕ → Exec Models (Option Cloudspace)
unfolding claim_if
claim k = do cs ← get_cloudspace k; claim_if (is_virtual cs) cs

abbrev pub exists_machine : VMachine → Bool
exists_machine vm = elim vm.status [ MachineStatus.destroyed ↦ false | _ ↦ true ]

abbrev pub is_deploying : Cloudspace → Bool
is_deploying cs = elim cs.status [ CloudspaceStatus.deploying ↦ true | _ ↦ false ]

abbrev pub runs : VMachine → Bool
runs vm = elim vm.status [ MachineStatus.running ↦ true | MachineStatus.paused ↦ true | _ ↦ false ]

module _ (jobs : Jobs) where
  unfoldable pub deploy_claimed : ℕ → Option Cloudspace → Exec Cloud (Option CloudspaceStatus)
  unfolding address_of fw_create finish_deploy
  deploy_claimed k none = pure none
  deploy_claimed k (some cs) = do
    pool ← on_models (get_pool cs.externalnetwork_id)
    (taken, ip, prefixlen) ← on_models (address_of cs pool)
    created ←
        λ cloud. let (r, cloud') = fw_create jobs cs.gid k cs.network_id cloud in (ok r, cloud')
    on_models (finish_deploy k taken.id ip created)

  -- `deploy`
  unfoldable pub deploy : ℕ → Exec Cloud (Option CloudspaceStatus)
  unfolding claim deploy_claimed
  deploy k = do claimed ← on_models (claim k); deploy_claimed k claimed

  -- `delete`
  unfoldable pub delete : ℕ → Exec Cloud Bool
  unfolding release_resources
  delete k = do
    machines ← gets (λ cloud. cloud.models.vmachine)
    raise_if (any (λ vm. vm.cloudspace_id == k && exists_machine vm) machines) conflict
    cs ← on_models (get_cloudspace k)
    raise_if (is_deploying cs) bad_request
    on_models (set_cloudspace (record cs { status = CloudspaceStatus.destroying }))
    freed ← release_resources jobs true (record cs { status = CloudspaceStatus.destroying })
    on_models (set_cloudspace (record freed { status = CloudspaceStatus.destroyed }))
    pure true

  -- `enable` passes the network id where `fw_start` takes a guid.
  unfoldable pub enable : ℕ → Exec Cloud Bool
  unfolding fw_start
  enable k = do
    cs ← on_models (get_cloudspace k)
    fw_start jobs (jobs.bare cs.network_id)
    on_models (update_space k (λ c. record c { status = CloudspaceStatus.deployed }))
    pure true

  -- `disable`; stopping the machines that run is `stop`, on each of them.
  unfoldable pub stop_all : (ℕ → Exec Cloud (Unit {0})) → List VMachine → Exec Cloud (Unit {0})
  stop_all stop [] = pure tt
  stop_all stop (vm ∷ vms) = stop vm.id >> stop_all stop vms

  unfoldable pub disable : (ℕ → Exec Cloud (Unit {0})) → ℕ → Exec Cloud Bool
  unfolding stop_all fw_stop
  disable stop k = do
    cs ← on_models (get_cloudspace k)
    running ← gets (λ cloud. filter (λ vm. vm.cloudspace_id == k && runs vm) cloud.models.vmachine)
    stop_all stop running
    fw_stop jobs (jobs.bare cs.network_id)
    on_models (update_space k (λ c. record c { status = CloudspaceStatus.disabled }))
    pure true

-- `addAllowedSize`
unfoldable pub add_allowed_size : ℕ → ℕ → Exec Models Bool
unfolding add_to_set
add_allowed_size k size_id = do
  sizes ← gets (λ models. models.size)
  raise_if (not (exists (λ (s : Size). s.id) size_id sizes)) bad_request
  update_space k (λ c. record c { allowed_vm_sizes = add_to_set size_id c.allowed_vm_sizes })
  pure true

-- `removeAllowedSize`
unfoldable pub remove_allowed_size : ℕ → ℕ → Exec Models Bool
unfolding pull
remove_allowed_size k size_id = do
  cs ← get_cloudspace k
  raise_if (not (mem size_id cs.allowed_vm_sizes)) bad_request
  update_space k (λ c. record c { allowed_vm_sizes = pull size_id c.allowed_vm_sizes })
  pure true
