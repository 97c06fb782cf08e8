-- ===== src/Machines/Delete.antt =====
-- `delete` of apps/cloudbroker/base/cloudapi__machines, with `fw_remove_lease` of
-- apps/cloudbroker/cloudbrokerlib/netmgr.py, whose job is the parameter `lease_job`; `fw_guid` is the
-- text of a firewall's id.
use openvcloud.Prelude.{
  ℕ, Bool, true, false, not, ◌&&◌, Option, none, some, List, [], ◌∷◌, ◌==◌, any, mem, filter, map,
}
use openvcloud.Result.{
  Error, Result, ok, err, conflict, Exec, ◌>>=◌, ◌>>◌, pure, lift, raise_if, gets, modify,
}
use openvcloud.Models.{Cloudspace, VMachine, MachineStatus, Nic, Disk, DiskStatus, Models}
use openvcloud.Models.Table.{each}
use openvcloud.Firewall.{Cloud, VirtualFirewall, get_vfw_object}
use openvcloud.PortForwarding.{delete_by_vm}
use openvcloud.Cloudspaces.Network.{on_models}
use openvcloud.Machines.{Hypervisor, set_machine, get_provider_and_node}
use openvcloud.Machines.Create.{is_kept, get_cloudspace}
use openvcloud.Machines.External.{Netaddr, NodePorts, is_public, detach_from_model}
use openvcloud.Disks.{disk_id}

abbrev pub is_locked : Option Bool → Bool
is_locked none = false
is_locked (some b) = b

-- A clone of the machine that is not DESTROYED.
abbrev pub is_clone_of : ℕ → VMachine → Bool
is_clone_of k vm = vm.clone_reference == k && is_kept vm

abbrev pub destroyed_machine : VMachine → VMachine
destroyed_machine vm = record vm { status = MachineStatus.destroyed }

abbrev pub destroyed_disk : Disk → Disk
destroyed_disk d = record d { status = DiskStatus.destroyed }

unfoldable pub destroy_machine : VMachine → Exec Models (Unit {0})
destroy_machine vm = elim (is_kept vm) [
  | true ↦ set_machine (destroyed_machine vm)
  | false ↦ pure tt
]

unfoldable pub destroy_disks : List ℕ → Exec Models (Unit {0})
destroy_disks ks = modify λ models. record models {
  disk = each disk_id destroyed_disk (filter (λ d. mem d.id ks) models.disk) models.disk;
}

-- The addresses of the interfaces that are not PUBLIC; 0 is the empty text.
abbrev pub lease_macs : List Nic → List ℕ
lease_macs nics =
    map (λ nic. nic.mac_address)
      (filter (λ nic. not (is_public nic) && not (nic.mac_address == 0)) nics)

-- `try: … except: processPythonExceptionObject(…)`
abbrev pub attempt : {A : Type 0} → Exec Cloud A → Exec Cloud (Unit {0})
attempt m cloud = (ok tt, (m cloud).1)

-- `except exceptions.ServiceUnavailable`
abbrev pub forgive : Result (Unit {0}) → Result (Unit {0})
forgive (err Error.service_unavailable) = ok tt
forgive r = r

module _ (lease_job : VirtualFirewall → List ℕ → Result (Unit {0}))
    (fw_guid : ℕ → Option ℕ → ℕ) where
  -- `fw_remove_lease`
  unfoldable pub fw_remove_lease : ℕ → List ℕ → Exec Cloud (Unit {0})
  unfolding get_vfw_object
  fw_remove_lease fwid macs = do fw ← get_vfw_object fwid; lift (lease_job fw macs)

  unfoldable pub remove_leases : Cloudspace → List ℕ → Exec Cloud (Unit {0})
  unfolding fw_remove_lease
  remove_leases cs [] = pure tt
  remove_leases cs (mac ∷ macs) = λ cloud.
      let (r, left) = fw_remove_lease (fw_guid cs.gid cs.network_id) (mac ∷ macs) cloud in
      (forgive r, left)

  module _ (net : Netaddr) (hv : Hypervisor) (ports : NodePorts)
      (run_job : VirtualFirewall → Option Bool) where
    unfoldable pub destroy_node : Option Bool → VMachine → Exec Cloud (Unit {0})
    destroy_node none vm = pure tt
    destroy_node (some b) vm = lift (ports.destroy_node vm.reference_id)

    -- `delete`
    unfoldable pub delete : ℕ → Exec Cloud Bool
    unfolding get_provider_and_node detach_from_model destroy_machine delete_by_vm destroy_node
        destroy_disks remove_leases
    delete k = do
      (host, found) ← on_models (get_provider_and_node hv k)
      raise_if (is_locked host) conflict
      cloned ← gets (λ cloud. any (is_clone_of k) cloud.models.vmachine)
      raise_if cloned conflict
      vm ← on_models (detach_from_model net found)
      on_models (destroy_machine vm)
      attempt (delete_by_vm run_job vm)
      destroy_node host vm
      on_models (destroy_disks vm.disks)
      cs ← on_models (get_cloudspace vm.cloudspace_id)
      remove_leases cs (lease_macs vm.nics)
      pure true
