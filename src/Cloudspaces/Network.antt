-- ===== src/Cloudspaces/Network.antt =====
-- The virtual firewall of a cloudspace, created and removed: apps/cloudbroker/cloudbrokerlib/netmgr.py,
-- and `release_resources` of apps/cloudbroker/cloudbrokerlib/cloudbroker.py. Firewalls are of the
-- type 'routeros', the one that `deploy` asks for. The jobs on the nodes are parameters.
use openvcloud.Prelude.{
  ℕ, zero, suc, Bool, true, false, not, ◌&&◌, Option, none, some, List, [], ◌∷◌, ◌++◌, ◌==◌, find?,
  if◌then◌else◌,
}
use openvcloud.Result.{
  Result, ok, err, service_unavailable, python_error, Exec, ◌>>=◌, ◌>>◌, pure, raise, lift,
  or_raise, raise_if, gets, modify,
}
use openvcloud.Models.{Cloudspace, Stack, StackStatus, Models}
use openvcloud.Models.Table.{exists, update, delete}
use openvcloud.Firewall.{VirtualFirewall, Cloud, guid_of, get_vfw_object}
use openvcloud.Scheduling.{get_best_provider}
use openvcloud.Pools.{release_network_id, release_external_ip_address}

-- The jobs of the agent controller, and the names of firewalls: `guid` is the text
-- '<gid>_<networkId>', and `bare` the text of a network id alone.
pub record Jobs : Type 0 where
  pub guid : ℕ → Option ℕ → ℕ
  pub bare : Option ℕ → ℕ
  -- which nodes of a grid have a session
  pub active : ℕ → ℕ → Bool
  -- 'vfs_create_routeros' on a node: the node where the firewall runs, if the job ends in OK
  pub create_routeros : ℕ → ℕ → Option ℕ
  -- whether 'vfs_destroy_routeros', 'deletedisk_by_path', 'vfs_start_routeros' and
  -- 'vfs_stop_routeros' end in OK
  pub destroy_routeros : VirtualFirewall → Bool
  pub delete_disk : VirtualFirewall → Bool
  pub start_routeros : VirtualFirewall → Bool
  pub stop_routeros : VirtualFirewall → Bool

-- An operation on the objects of the broker alone.
abbrev pub on_models {ℓ} : {A : Type ℓ} → (Models → Result A × Models) → Cloud → Result A × Cloud
on_models m cloud = let (r, models) = m cloud.models in (r, record cloud { models = models })

abbrev truthy_id : Option ℕ → Bool
truthy_id none = false
truthy_id (some zero) = false
truthy_id (some (suc n)) = true

abbrev pub new_vfw : ℕ → ℕ → ℕ → VirtualFirewall
new_vfw guid gid domain = record { guid = guid; gid = gid; nid = none; domain = domain; rules = [] }

-- `fwobj.domain = …` and so on, on a new object or on the one that is there
unfoldable pub store_vfw : ℕ → ℕ → ℕ → Exec Cloud (Unit {0})
store_vfw guid gid domain = modify λ cloud. record cloud {
  vfw =
      if exists guid_of guid cloud.vfw
      then update guid_of guid (λ fw. record fw { domain = domain; gid = gid }) cloud.vfw
      else cloud.vfw ++ new_vfw guid gid domain ∷ [];
}

-- `fw_destroy`
unfoldable pub fw_destroy : ℕ → Exec Cloud (Unit {0})
fw_destroy guid = modify λ cloud. record cloud { vfw = delete guid_of guid cloud.vfw }

module _ (jobs : Jobs) where
  -- What `fw_create` does with the answer of the job.
  unfoldable pub finish_create : ℕ → Option ℕ → Exec Cloud Bool
  unfolding fw_destroy
  finish_create guid none = fw_destroy guid >> raise service_unavailable
  finish_create guid (some nid) = do
    modify λ cloud. record cloud {
      vfw = update guid_of guid (λ fw. record fw { nid = some nid }) cloud.vfw;
    }
    pure true

  unfoldable pub fw_create : ℕ → ℕ → Option ℕ → Exec Cloud Bool
  unfolding store_vfw get_best_provider finish_create
  fw_create gid domain network_id = do
    store_vfw (jobs.guid gid network_id) gid domain
    best ← λ cloud. lift (get_best_provider jobs.active gid none cloud.models []) cloud
    provider ← or_raise best python_error
    finish_create (jobs.guid gid network_id)
        (jobs.create_routeros provider.0.reference_id (jobs.guid gid network_id))

  -- `fw_delete` of a firewall that runs on a node
  unfoldable pub fw_delete : VirtualFirewall → Exec Cloud (Unit {0})
  unfolding fw_destroy
  fw_delete fw = do
    raise_if (not (jobs.destroy_routeros fw)) service_unavailable
    raise_if (not (jobs.delete_disk fw)) service_unavailable
    fw_destroy fw.guid

  unfoldable pub fw_start : ℕ → Exec Cloud Bool
  unfolding get_vfw_object
  fw_start fwid = do
    fw ← get_vfw_object fwid
    raise_if (not (jobs.start_routeros fw)) service_unavailable
    pure true

  unfoldable pub fw_stop : ℕ → Exec Cloud Bool
  unfolding get_vfw_object
  fw_stop fwid = do
    fw ← get_vfw_object fwid
    raise_if (not (jobs.stop_routeros fw)) service_unavailable
    pure true

  -- The stack on which a firewall runs, unless it is decomissioned.
  unfoldable pub runs_on : VirtualFirewall → List Stack → Bool
  runs_on fw stacks = elim fw.nid [
    | none ↦ false
    | some nid ↦ elim (find? (λ s. s.reference_id == nid && s.gid == fw.gid) stacks) [
      | none ↦ false
      | some s ↦ elim s.status [ StackStatus.decomissioned ↦ false | _ ↦ true ]
    ]
  ]

  unfoldable pub remove_if : Bool → VirtualFirewall → Exec Cloud (Unit {0})
  unfolding fw_delete fw_destroy
  remove_if true fw = fw_delete fw
  remove_if false fw = fw_destroy fw.guid

  -- `try: … except ServiceUnavailable: pass else: …`
  unfoldable pub remove_found : Result VirtualFirewall → Exec Cloud (Unit {0})
  unfolding runs_on remove_if
  remove_found (err e) = pure tt
  remove_found (ok fw) = do
    stacks ← gets (λ cloud. cloud.models.stack)
    remove_if (runs_on fw stacks) fw

  unfoldable pub remove_firewall : Cloudspace → Exec Cloud (Unit {0})
  unfolding get_vfw_object remove_found
  remove_firewall cs = do
    found ← gets (λ cloud. (get_vfw_object (jobs.guid cs.gid cs.network_id) cloud).0)
    remove_found found

unfoldable pub release_network : Bool → Cloudspace → Exec Cloud Cloudspace
unfolding release_network_id
release_network releasenetwork cs =
    if truthy_id cs.network_id && releasenetwork
    then (elim cs.network_id [
      | none ↦ pure cs
      | some k ↦ on_models (release_network_id cs.gid k) >> pure (record cs { network_id = none })
    ])
    else pure cs

-- An address goes back to the pool of the cloudspace; a pool id of `None` finds no pool.
unfoldable pub release_ip : Cloudspace → Exec Cloud Cloudspace
unfolding release_external_ip_address
release_ip cs = elim cs.externalnetworkip [
  | none ↦ pure cs
  | some (ip, prefixlen) ↦ elim cs.externalnetwork_id [
    | none ↦ pure (record cs { externalnetworkip = none })
    | some k ↦
        on_models (release_external_ip_address k ip)
        >> pure (record cs { externalnetworkip = none })
  ]
]

module _ (jobs : Jobs) where
  unfoldable pub release_resources : Bool → Cloudspace → Exec Cloud Cloudspace
  unfolding remove_firewall release_network release_ip
  release_resources releasenetwork cs = do
    remove_firewall jobs cs
    freed ← release_network releasenetwork cs
    release_ip freed
