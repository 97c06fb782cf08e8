-- ===== src/Machines/Deleted.antt =====
-- A machine that is deleted, with its disks.
use openvcloud.Prelude.{
  ℕ, ◌≡◌, refl, Bool, true, false, Option, none, some, List, [], ◌∷◌, any, mem, map, ap, ◌∙◌, sym,
  subst, Option-cases, inl, inr, if◌then◌else◌, filter,
}
use openvcloud.Result.{
  Result, ok, conflict, python_error, Exec, ◌>>=◌, ◌>>◌, pure, raise_if, bind_ok, same_ok,
  raise_if_ok, or_raise_same,
}
use openvcloud.Models.{Cloudspace, VMachine, Models}
use openvcloud.Models.Table.{get, each}
use openvcloud.Models.Unique.{Unique, each-if}
use openvcloud.Firewall.{Cloud, VirtualFirewall, get_vfw_object, deployed, guid_of}
use openvcloud.PortForwarding.{delete_by_vm}
use openvcloud.PortForwarding.ByMachine.{delete_by_vm_quiet}
use openvcloud.Cloudspaces.Network.{on_models}
use openvcloud.Machines.{Hypervisor, vm_id, get_provider_and_node}
use openvcloud.Machines.Create.{is_kept, get_cloudspace}
use openvcloud.Machines.External.{Netaddr, NodePorts, detach_from_model}
use openvcloud.Machines.Delete.{
  is_locked, is_clone_of, destroyed_disk, destroy_machine, destroy_disks, lease_macs, attempt,
  fw_remove_lease, remove_leases, destroy_node, delete,
}
use openvcloud.Machines.Destroyed.{
  IsGoing, IsFoundAs, other_clone, other_clone-any, found_as, on_models_ok, detach_outcome,
  destroyed_stored,
}
use openvcloud.Disks.{disk_id}

pub record IsDeleted (k : ℕ) (before after : Models) : Type 0 where
  pub old : VMachine
  pub was : get vm_id k before.vmachine ≡ some old
  pub no_clone : any (other_clone k) before.vmachine ≡ false
  pub now : VMachine
  pub stored : get vm_id k after.vmachine ≡ some now
  pub gone : is_kept now ≡ false
  pub disks : after.disk ≡ map (λ d. if mem d.id old.disks then destroyed_disk d else d) before.disk

-- The objects after an action that answers: what is known of its last state.
ends :
    {A : Type 0} {o : Result A × Cloud} {a : A} {c : Cloud} {m : Models}
    → o ≡ (ok a, c)
    → o.1.models ≡ m
    → c.models ≡ m
ends e h = ap (λ z. z.1.models) (sym e) ∙ h

module _ (lease_job : VirtualFirewall → List ℕ → Result (Unit {0})) (fw_guid : ℕ → Option ℕ → ℕ)
    (net : Netaddr) (hv : Hypervisor) (ports : NodePorts)
    (run_job : VirtualFirewall → Option Bool) where
  lease_quiet :
      (j : ℕ) (macs : List ℕ) (cloud : Cloud)
      → (fw_remove_lease lease_job fw_guid j macs cloud).1 ≡ cloud
  unfolding fw_remove_lease get_vfw_object deployed
  lease_quiet j macs cloud = elim (Option-cases (get guid_of j cloud.vfw)) [
    | inl e ↦ rw e refl
    | inr (fw, e) ↦ elim (Option-cases fw.nid) [
      | inl n ↦ rw (e, n) refl
      | inr (i, n) ↦ rw (e, n) refl
    ]
  ]

  leases_quiet :
      (cs : Cloudspace) (macs : List ℕ) (cloud : Cloud)
      → (remove_leases lease_job fw_guid cs macs cloud).1 ≡ cloud
  unfolding remove_leases
  leases_quiet cs [] cloud = refl
  leases_quiet cs (mac ∷ macs) cloud = lease_quiet (fw_guid cs.gid cs.network_id) (mac ∷ macs) cloud

  node_quiet :
      (h : Option Bool) (vm : VMachine) (cloud : Cloud)
      → (destroy_node lease_job fw_guid net hv ports run_job h vm cloud).1 ≡ cloud
  unfolding destroy_node
  node_quiet none vm cloud = refl
  node_quiet (some b) vm cloud = refl

  -- What delete does once the machine is DESTROYED.
  abbrev finish : Option Bool → VMachine → Exec Cloud Bool
  finish host vm = do
    attempt (delete_by_vm run_job vm)
    destroy_node lease_job fw_guid net hv ports run_job host vm
    on_models (destroy_disks vm.disks)
    cs ← on_models (get_cloudspace vm.cloudspace_id)
    remove_leases lease_job fw_guid cs (lease_macs vm.nics)
    pure true

  finish-models :
      (host : Option Bool) (vm : VMachine) (cloud after : Cloud)
      → finish host vm cloud ≡ (ok true, after)
      → after.models ≡ (destroy_disks vm.disks cloud.models).1
  unfolding destroy_disks
  finish-models host vm cloud after run =
      let c1 = (delete_by_vm run_job vm cloud).1 in
      let (x2, c2, e2, r2) =
        bind_ok (destroy_node lease_job fw_guid net hv ports run_job host vm) _ c1 after true run in
      let (cs, c3, e3, r3) =
        bind_ok (on_models (get_cloudspace vm.cloudspace_id)) _ _ after true r2 in
      let (x4, c4, e4, r4) =
        bind_ok (remove_leases lease_job fw_guid cs (lease_macs vm.nics)) _ c3 after true r3 in
      let at_2 : c2.models ≡ cloud.models =
        ends e2 (ap (λ (c : Cloud). c.models) (node_quiet host vm c1))
        ∙ delete_by_vm_quiet run_job vm cloud in
      let at_3 = ends e3 (or_raise_same _ python_error _) in
      let at_4 : c4.models ≡ c3.models =
        ends e4 (ap (λ (c : Cloud). c.models) (leases_quiet cs (lease_macs vm.nics) c3)) in
      ap (λ (c : Cloud). c.models) (sym (same_ok r4).1)
      ∙ at_4
      ∙ at_3
      ∙ ap (λ t. (destroy_disks vm.disks t).1) at_2

  destroyed_lem :
      (k : ℕ) (m t : Models) (host : Option Bool) (found vm : VMachine) (cloud after : Cloud)
      → Unique disk_id m.disk
      → any (is_clone_of k) t.vmachine ≡ false
      → IsFoundAs k m found t
      → vm.id ≡ found.id
      → vm.disks ≡ found.disks
      → IsGoing m.disk vm cloud.models
      → (on_models (destroy_machine vm) >> finish host vm) cloud ≡ (ok true, after)
      → IsDeleted k m after.models
  unfolding destroy_disks
  destroyed_lem k m t host found vm cloud after u no_clones f same_id same_disks g run =
      let (x, c1, e1, r1) = bind_ok (on_models (destroy_machine vm)) _ cloud after true run in
      let (now, stored, gone, left) = destroyed_stored m.disk vm cloud.models g in
      let at_1 : c1.models ≡ (destroy_machine vm cloud.models).1 = ends e1 refl in
      let done = finish-models host vm c1 after r1 ∙ ap (λ d. (destroy_disks vm.disks d).1) at_1 in
      let own : vm.disks ≡ f.old.disks = same_disks ∙ f.same_disks in
      record {
        old = f.old;
        was = f.was;
        no_clone = sym f.clones ∙ other_clone-any k t.vmachine no_clones;
        now = now;
        stored =
            ap (λ (d : Models). get vm_id k d.vmachine) done
            ∙ subst (λ i. get vm_id i (destroy_machine vm cloud.models).1.vmachine ≡ some now)
                (same_id ∙ f.same_id) stored;
        gone = gone;
        disks =
            ap (λ (d : Models). d.disk) done
            ∙ ap (λ ds. each disk_id destroyed_disk (filter (λ d. mem d.id vm.disks) ds) ds) left
            ∙ each-if disk_id (λ d. mem d.id vm.disks) destroyed_disk (λ d. refl) m.disk u
            ∙ ap (λ ks. map (λ d. if mem d.id ks then destroyed_disk d else d) m.disk) own;
      }

  -- If delete of a machine succeeds, where no two machines and no two disks have one id: the machine was
  -- in the store and no other machine that is not DESTROYED is a clone of it; it is DESTROYED, and so
  -- are those disks that it had, and no others are changed.
  pub delete_machine_lem :
      (k : ℕ) (cloud after : Cloud)
      → Unique vm_id cloud.models.vmachine
      → Unique disk_id cloud.models.disk
      → delete lease_job fw_guid net hv ports run_job k cloud ≡ (ok true, after)
      → IsDeleted k cloud.models after.models
  unfolding delete
  delete_machine_lem k cloud after w u run =
      let ((host, found), c1, e1, r1) =
        bind_ok (on_models (get_provider_and_node hv k)) _ cloud after true run in
      let (x2, c2, e2, r2) = bind_ok (raise_if (is_locked host) conflict) _ c1 after true r1 in
      let (x4, c4, e4, r4) =
        bind_ok (raise_if (any (is_clone_of k) c2.models.vmachine) conflict) _ c2 after true r2 in
      let (vm, c5, e5, r5) = bind_ok (on_models (detach_from_model net found)) _ c4 after true r4 in
      let (t, first, at_1) = on_models_ok (get_provider_and_node hv k) cloud c1 (host, found) e1 in
      let f = found_as hv k cloud.models w host found t first in
      let (unlocked, at_2) = raise_if_ok (is_locked host) conflict c1 c2 x2 e2 in
      let (no_clones, at_4) =
        raise_if_ok (any (is_clone_of k) c2.models.vmachine) conflict c2 c4 x4 e4 in
      let start : c4.models ≡ t = ap (λ (c : Cloud). c.models) (sym at_4 ∙ sym at_2 ∙ at_1) in
      let (t5, detached, at_5) = on_models_ok (detach_from_model net found) c4 c5 vm e5 in
      let (same_id, same_disks, going) =
        detach_outcome net cloud.models.disk found vm c4.models t5
          (subst (IsGoing cloud.models.disk found) (sym start) f.going) detached in
      destroyed_lem k cloud.models t host found vm c5 after u
        (subst (λ (c : Cloud). any (is_clone_of k) c.models.vmachine ≡ false) (sym at_2 ∙ at_1)
          no_clones)
        f same_id same_disks
        (subst (λ (c : Cloud). IsGoing cloud.models.disk vm c.models) (sym at_5) going) r5
