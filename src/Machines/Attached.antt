-- ===== src/Machines/Attached.antt =====
-- An interface in an external network that is attached to a machine and detached again.
use openvcloud.Prelude.{ℕ, ◌≡◌, refl, true, false, some, [], ◌∷◌, ◌++◌, any, ap, ◌∙◌, sym, subst}
use openvcloud.Result.{ok, bind_ok, same_ok}
use openvcloud.Models.{VMachine, Models}
use openvcloud.Models.Table.{get, set, update}
use openvcloud.Models.Unique.{Unique, get-set, some_eq}
use openvcloud.Pools.{pool_id}
use openvcloud.Pools.Balance.{UniquePools}
use openvcloud.Pools.Taken.{is_free, SameFree, is_free-back, with_free}
use openvcloud.Machines.{Hypervisor, vm_id, get_provider_and_node}
use openvcloud.Machines.External.{
  Netaddr, NodePorts, is_public, detach_loop, detach_from_model, detach_ports,
  detach_external_network, attach_external_network,
}
use openvcloud.Machines.Destroyed.{IsFoundAs, found_as}
use openvcloud.Machines.Plugged.{
  IsPlugged, released, last_off_lem, detach_loop-last, detach_ports_same, attach_lem,
}

module _ (net : Netaddr) (hv : Hypervisor) (ports : NodePorts) where
  module _ (k : ℕ) (m t : Models) (old : VMachine) (q : IsPlugged net hv ports k m old t)
      (inverse : (a n : ℕ) → net.host (net.text a n) ≡ a) where
    Restored : Models → Type 0
    Restored u =
        (now : VMachine) × (get vm_id k u.vmachine ≡ some now)
        × (now.nics ≡ old.nics)
        × SameFree u.externalnetwork m.externalnetwork

    released_lem :
        (vm : VMachine) (s : Models)
        → IsFoundAs k t vm s
        → Restored (released net vm q.nic q.pool.id (net.text q.ip q.has_ip.0) old.nics s)
    unfolding Restored
    released_lem vm s f = (
      record vm { nics = old.nics },
      subst
          (λ i.
            get vm_id i (set vm_id (record vm { nics = old.nics }) s.vmachine)
            ≡ some (record vm { nics = old.nics }))
          f.same_id
          (get-set vm_id (record vm { nics = old.nics }) f.going.stored s.vmachine f.going.here),
      refl,
      λ j a.
          ap (λ ip. is_free j a (update pool_id q.pool.id (with_free ip) s.externalnetwork))
            (inverse q.ip q.has_ip.0)
          ∙ ap (λ ps. is_free j a (update pool_id q.pool.id (with_free q.ip) ps))
              (f.same_pools ∙ q.pools)
          ∙ is_free-back q.pool.id j q.ip a m.externalnetwork q.before q.in_store q.was_free,
    )

    off_lem :
        (vm left : VMachine) (s u : Models)
        → IsFoundAs k t vm s
        → vm.nics ≡ old.nics ++ q.nic ∷ []
        → any is_public old.nics ≡ false
        → detach_from_model net vm s ≡ (ok left, u)
        → Restored u
    unfolding detach_from_model
    off_lem vm left s u f nics none_yet h =
        let (xs, s1, e1, r1) = bind_ok (detach_loop net vm [] vm.nics) _ s u left h in
        let whole =
          sym (
            last_off_lem net vm q.nic q.pool.id (net.text q.ip q.has_ip.0) old.nics s q.has_pool
              q.has_ip.1)
          ∙ sym (detach_loop-last net vm q.nic q.public [] old.nics s none_yet)
          ∙ subst (λ ns. detach_loop net vm [] ns s ≡ (ok xs, s1)) nics e1 in
        subst Restored ((same_ok whole).1 ∙ (same_ok r1).1) (released_lem vm s f)

    detach_lem :
        (u : Models)
        → any is_public old.nics ≡ false
        → detach_external_network net hv ports k t ≡ (ok true, u)
        → Restored u
    unfolding detach_external_network
    detach_lem u none_yet h =
        let ((host, vm), s, e, r) = bind_ok (get_provider_and_node hv k) _ t u true h in
        let f = found_as hv k t q.own_ids host vm s e in
        let (x, s1, e1, r1) = bind_ok (detach_ports net hv ports host vm vm.nics) _ s u true r in
        let (left, s2, e2, r2) = bind_ok (detach_from_model net vm) _ s1 u true r1 in
        let at_1 : s1 ≡ s =
          ap (λ z. z.1) (sym e1) ∙ detach_ports_same net hv ports host vm vm.nics s in
        let now : f.old ≡ q.now = some_eq (sym f.was ∙ q.stored) in
        let nics : vm.nics ≡ old.nics ++ q.nic ∷ [] =
          f.same_nics ∙ ap (λ (a : VMachine). a.nics) now ∙ q.nics in
        off_lem vm left s u f nics none_yet (
          subst (λ a. detach_from_model net vm a ≡ (ok left, u)) at_1
            (e2 ∙ ap (λ a. (ok left, a)) (same_ok r2).1))

  -- If attachExternalNetwork and then detachExternalNetwork succeed on a machine without a PUBLIC
  -- interface, where no two machines and no two pools have one id and the address of a text is read
  -- back: the machine has the interfaces that it had, and in every pool exactly those addresses are
  -- free that were free before.
  pub detach_external_network-attach_external_network :
      (k : ℕ) (m t u : Models) (old : VMachine)
      → Unique vm_id m.vmachine
      → UniquePools m.externalnetwork
      → ((a n : ℕ) → net.host (net.text a n) ≡ a)
      → get vm_id k m.vmachine ≡ some old
      → any is_public old.nics ≡ false
      → attach_external_network net hv ports k m ≡ (ok true, t)
      → detach_external_network net hv ports k t ≡ (ok true, u)
      → (now : VMachine) × (get vm_id k u.vmachine ≡ some now)
        × (now.nics ≡ old.nics)
        × SameFree u.externalnetwork m.externalnetwork
  unfolding Restored
  detach_external_network-attach_external_network k m t u old w v inverse g none_yet on off =
      detach_lem k m t old (attach_lem net hv ports k m w v old g none_yet t on) inverse u none_yet
        off
