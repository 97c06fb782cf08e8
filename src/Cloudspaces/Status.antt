-- ===== src/Cloudspaces/Status.antt =====
-- How `deploy` leaves a cloudspace without a free address, and what `delete` leaves.
use openvcloud.Prelude.{Bool-cases, ◌≡◌, refl, false, none, some, ◌==◌, ◌&&◌, any, inl, inr, filter}
use openvcloud.Result.{ok, err, python_error, is_ok}
use openvcloud.Models.{Cloudspace, CloudspaceStatus, ExternalNetwork}
use openvcloud.Models.Table.{get, set}
use openvcloud.Firewall.{Cloud}
use openvcloud.Pools.{pool_id, wanted, first_free, take_first, get_external_ip_address}
use openvcloud.Cloudspaces.{
  id_of, exists_machine, delete, deploy, deploy_claimed, claim, claim_if, address_of,
}
use openvcloud.Cloudspaces.Network.{Jobs}
use openvcloud.Cloudspaces.Found.{get-set}

-- The cloudspace `k` as `deploy` has claimed it.
abbrev pub stuck : Cloudspace → Cloud → Cloud
stuck cs cloud = record cloud {
  models = record cloud.models {
    cloudspace =
        set id_of (record cs { status = CloudspaceStatus.deploying }) cloud.models.cloudspace;
  };
}

module _ (jobs : Jobs) (cloud : Cloud) (cs : Cloudspace) (pool : ExternalNetwork)
    (found : get id_of cs.id cloud.models.cloudspace ≡ some cs)
    (virtual : cs.status ≡ CloudspaceStatus.virtual) (no_address : cs.externalnetworkip ≡ none)
    (network : cs.externalnetwork_id ≡ some pool.id)
    (known : get pool_id pool.id cloud.models.externalnetwork ≡ some pool)
    (no_free : first_free (filter (wanted cs.gid (some pool.id)) cloud.models.externalnetwork)
      ≡ none) where
  claimed_stuck : deploy jobs cs.id cloud ≡ (err python_error, stuck cs cloud)
  unfolding deploy deploy_claimed claim claim_if address_of get_external_ip_address take_first
  claimed_stuck = rw (found, virtual, no_address, network, known, no_free) refl

  again : deploy jobs cs.id (stuck cs cloud) ≡ (ok none, stuck cs cloud)
  unfolding deploy deploy_claimed claim claim_if
  again =
      rw
        (get-set (record cs { status = CloudspaceStatus.deploying }) cs cloud.models.cloudspace
          found)
        refl

  delete_refused :
      (is_ok (delete jobs cs.id (stuck cs cloud)).0 ≡ false)
      × ((delete jobs cs.id (stuck cs cloud)).1 ≡ stuck cs cloud)
  unfolding delete
  delete_refused =
      elim (Bool-cases
        (any (λ vm. vm.cloudspace_id == cs.id && exists_machine vm) cloud.models.vmachine)) [
          | inl e ↦ rw e (refl, refl)
          | inr e ↦
              rw
                (
                  e,
                  get-set (record cs { status = CloudspaceStatus.deploying }) cs
                      cloud.models.cloudspace found,
                )
                (refl, refl)
        ]

  -- A VIRTUAL cloudspace without an address whose pool has no free address: `deploy` raises and
  -- leaves it DEPLOYING. From there `deploy` answers without doing anything, and `delete` raises and
  -- changes nothing.
  pub deploy-stuck :
      (deploy jobs cs.id cloud ≡ (err python_error, stuck cs cloud))
      × (deploy jobs cs.id (stuck cs cloud) ≡ (ok none, stuck cs cloud))
      × (is_ok (delete jobs cs.id (stuck cs cloud)).0 ≡ false)
      × ((delete jobs cs.id (stuck cs cloud)).1 ≡ stuck cs cloud)
  deploy-stuck = (claimed_stuck, again, delete_refused.0, delete_refused.1)
