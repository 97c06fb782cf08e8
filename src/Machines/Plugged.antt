-- ===== src/Machines/Plugged.antt =====
-- What `attachExternalNetwork` leaves where it succeeds, and what the loop of
-- `_detachExternalNetworkFromModel` does to its interface.
use openvcloud.Prelude.{
  ℕ, ◌≡◌, refl, Bool, true, false, Option, none, some, List, [], ◌∷◌, ◌++◌, any, mem, ap, ◌∙◌, sym,
  subst, Bool-cases, inl, inr,
}
use mathlib.Core.List.{append-nil, append_assoc}
use openvcloud.Prelude.Bools.{or_false}
use openvcloud.Result.{
  ok, python_error, Exec, bind_ok, same_ok, err_not_ok, or_raise, or_raise_ok, or_raise_same, lift,
  ◌>>◌, pure, check_keeps,
}
use openvcloud.Models.{VMachine, Nic, NicType, ExternalNetwork, Models}
use openvcloud.Models.Table.{get, set, update}
use openvcloud.Models.Unique.{Unique, set-Unique, get-set, some_eq}
use openvcloud.Limits.Available.{check_cloudspace_public_ips}
use openvcloud.Limits.Checks.{check_cloudspace_public_ips_same}
use openvcloud.Pools.{pool_id, get_external_ip_address, release_external_ip_address}
use openvcloud.Pools.Balance.{UniquePools}
use openvcloud.Pools.Taken.{IsTaken, get_external_ip_address-IsTaken, with_free, without}
use openvcloud.Machines.{Hypervisor, vm_id, set_machine, get_provider_and_node}
use openvcloud.Machines.Status.{written}
use openvcloud.Machines.Create.{get_cloudspace}
use openvcloud.Machines.External.{
  Netaddr, NodePorts, is_public, release_nic, detach_loop, detach_ports, with_nic, add_nic,
  attach_if_missing, attach_external_network,
}
use openvcloud.Machines.Destroyed.{IsFoundAs, found_as}

module _ (net : Netaddr) (vm : VMachine) (n : Nic) where
  -- What the loop does where the last interface is the only one that is PUBLIC.
  abbrev pub last_off : List Nic → Exec Models (List Nic)
  last_off left = set_machine (record vm { nics = left }) >> release_nic net n >> pure left

  abbrev pub released : ℕ → ℕ → List Nic → Models → Models
  released j text left t = record t {
    vmachine = set vm_id (record vm { nics = left }) t.vmachine;
    externalnetwork = update pool_id j (with_free (net.host text)) t.externalnetwork;
  }

  pub last_off_lem :
      (j text : ℕ) (left : List Nic) (t : Models)
      → n.pool_id ≡ some j
      → n.ip_address ≡ some text
      → last_off left t ≡ (ok left, released j text left t)
  unfolding release_nic release_external_ip_address
  last_off_lem j text left t e f = rw (e, f) refl

module _ (net : Netaddr) (vm : VMachine) (n : Nic) (p : is_public n ≡ true) where
  pub detach_loop-last :
      (kept xs : List Nic) (t : Models)
      → any is_public xs ≡ false
      → detach_loop net vm kept (xs ++ n ∷ []) t ≡ last_off net vm n (kept ++ xs) t
  unfolding detach_loop
  detach_loop-last kept [] t h = rw (append-nil, detach_loop, p) refl
  detach_loop-last kept (x ∷ []) t h =
      let (e, rest) = or_false (is_public x) false h in
      rw (detach_loop, e)
        (detach_loop-last (kept ++ x ∷ []) [] t rest
          ∙ ap (λ l. last_off net vm n l t) (append_assoc kept (x ∷ []) []))
  detach_loop-last kept (x ∷ y ∷ xs) t h =
      let (e, rest) = or_false (is_public x) (any is_public (y ∷ xs)) h in
      rw (detach_loop, e)
        (detach_loop-last (kept ++ x ∷ []) (y ∷ xs) t rest
          ∙ ap (λ l. last_off net vm n l t) (append_assoc kept (x ∷ []) (y ∷ xs)))

module _ (net : Netaddr) (hv : Hypervisor) (ports : NodePorts) where
  pub detach_ports_same :
      (host : Option Bool) (vm : VMachine) (nics : List Nic) (t : Models)
      → (detach_ports net hv ports host vm nics t).1 ≡ t
  unfolding detach_ports
  detach_ports_same host vm [] t = refl
  detach_ports_same host vm (n ∷ nics) t = elim (Bool-cases (is_public n)) [
    | inr e ↦ rw (detach_ports, e) (detach_ports_same host vm nics t)
    | inl e ↦
        rw (detach_ports, e)
          (check_keeps (λ s. s ≡ t)
            (or_raise host python_error >> lift (ports.detach_public vm.reference_id)) _ t
            (check_keeps (λ s. s ≡ t) (or_raise host python_error)
              (λ b. lift (ports.detach_public vm.reference_id)) t
              (or_raise_same host python_error t) refl λ b f. refl)
            refl λ x g. detach_ports_same host vm nics t)
  ]

  -- The machine `k` with an interface more.
  pub record IsPlugged (k : ℕ) (m : Models) (old : VMachine) (t : Models) : Type 0 where
    pub pool : ExternalNetwork
    pub ip : ℕ
    pub nic : Nic
    pub now : VMachine
    pub has_pool : nic.pool_id ≡ some pool.id
    pub has_ip : (mask : ℕ) × (nic.ip_address ≡ some (net.text ip mask))
    pub public : is_public nic ≡ true
    pub stored : get vm_id k t.vmachine ≡ some now
    pub nics : now.nics ≡ old.nics ++ nic ∷ []
    pub own_ids : Unique vm_id t.vmachine
    pub before : ExternalNetwork
    pub in_store : get pool_id pool.id m.externalnetwork ≡ some before
    pub was_free : mem ip before.ips ≡ true
    pub pools : t.externalnetwork ≡ update pool_id pool.id (without ip) m.externalnetwork

  add_nic_lem :
      (host : Option Bool) (vm : VMachine) (o : Option (ExternalNetwork × ℕ × ℕ)) (s t : Models)
      → add_nic net hv ports host vm o s ≡ (ok true, t)
      → (pool : ExternalNetwork) × (ip : ℕ) × (mask : ℕ) × (mac : ℕ) × (o ≡ some (pool, ip, mask))
        × (t
            ≡ written
                (with_nic net hv ports vm pool (net.text ip mask) mac)
                (written (with_nic net hv ports vm pool (net.text ip mask) 0) s))
  unfolding add_nic
  add_nic_lem host vm none s t h = absurd (err_not_ok h)
  add_nic_lem host vm (some (pool, ip, mask)) s t h =
      let (b, s1, e1, r1) = bind_ok (or_raise host python_error) _ _ t true h in
      let (mac, s2, e2, r2) =
        bind_ok (lift (ports.attach_public vm.reference_id pool)) _ s1 t true r1 in
      let (o, same) = or_raise_ok host python_error _ s1 b e1 in
      let to_2 : s1 ≡ s2 = ap (λ z. z.1) e2 in
      (
        pool,
        ip,
        mask,
        mac,
        refl,
        sym (same_ok r2).1
            ∙ ap (λ x. written (with_nic net hv ports vm pool (net.text ip mask) mac) x)
                (sym to_2 ∙ sym same),
      )

  missing_lem :
      (host : Option Bool) (vm : VMachine) (s t : Models)
      → UniquePools s.externalnetwork
      → attach_if_missing net hv ports false host vm s ≡ (ok true, t)
      → (pool : ExternalNetwork) × (ip : ℕ) × (mask : ℕ) × (mac : ℕ) × (u : Models) × IsTaken ip s
          pool u
        × (t
            ≡ written
                (with_nic net hv ports vm pool (net.text ip mask) mac)
                (written (with_nic net hv ports vm pool (net.text ip mask) 0) u))
  unfolding attach_if_missing
  missing_lem host vm s t u h =
      let (cs, s1, e1, r1) = bind_ok (get_cloudspace vm.cloudspace_id) _ s t true h in
      let (x, s2, e2, r2) =
        bind_ok (check_cloudspace_public_ips vm.cloudspace_id 1) _ s1 t true r1 in
      let (netinfo, s3, e3, r3) =
        bind_ok (get_external_ip_address cs.gid cs.externalnetwork_id) _ s2 t true r2 in
      let (o, at_1) = or_raise_ok _ python_error s s1 cs e1 in
      let at_2 : s ≡ s2 =
        at_1 ∙ sym (check_cloudspace_public_ips_same vm.cloudspace_id 1 s1) ∙ ap (λ z. z.1) e2 in
      let (pool, ip, mask, mac, is, stored) = add_nic_lem host vm netinfo s3 t r3 in
      let taking : get_external_ip_address cs.gid cs.externalnetwork_id s
          ≡ (ok (some (pool, ip, mask)), s3) =
        rw (← is) (rw at_2 e3) in
      (
        pool,
        ip,
        mask,
        mac,
        s3,
        get_external_ip_address-IsTaken cs.gid cs.externalnetwork_id s s3 pool ip mask u taking,
        stored,
      )

  module _ (k : ℕ) (m : Models) (w : Unique vm_id m.vmachine) (v : UniquePools m.externalnetwork)
      (old : VMachine) (g : get vm_id k m.vmachine ≡ some old)
      (none_yet : any is_public old.nics ≡ false) where
    plugged_lem :
        (host : Option Bool) (vm : VMachine) (s t : Models)
        → IsFoundAs k m vm s
        → vm.nics ≡ old.nics
        → attach_if_missing net hv ports false host vm s ≡ (ok true, t)
        → IsPlugged k m old t
    plugged_lem host vm s t f nics run =
        let pools : s.externalnetwork ≡ m.externalnetwork = f.same_pools in
        let (pool, ip, mask, mac, u, taken, after) =
          missing_lem host vm s t (subst UniquePools (sym pools) v) run in
        let a1 = with_nic net hv ports vm pool (net.text ip mask) 0 in
        let a2 = with_nic net hv ports vm pool (net.text ip mask) mac in
        let once = get-set vm_id a1 f.going.stored s.vmachine f.going.here in
        let twice = get-set vm_id a2 a1 (set vm_id a1 s.vmachine) once in
        subst (IsPlugged k m old) (sym (after ∙ ap (λ x. written a2 (written a1 x)) taken.after))
          record {
            pool = pool;
            ip = ip;
            nic = record {
              ip_address = some (net.text ip mask);
              mac_address = mac;
              type = NicType.public;
              pool_id = some pool.id;
            };
            now = a2;
            has_pool = refl;
            has_ip = (mask, refl);
            public = refl;
            stored =
                subst (λ i. get vm_id i (set vm_id a2 (set vm_id a1 s.vmachine)) ≡ some a2)
                  f.same_id twice;
            nics =
                ap
                  (λ xs.
                    xs
                    ++ record {
                      ip_address = some (net.text ip mask);
                      mac_address = mac;
                      type = NicType.public;
                      pool_id = some pool.id;
                    }
                      ∷ [])
                  nics;
            own_ids =
                set-Unique vm_id a2 (set vm_id a1 s.vmachine)
                  (set-Unique vm_id a1 s.vmachine f.going.own_ids);
            before = taken.old;
            in_store = ap (λ ps. get pool_id pool.id ps) (sym pools) ∙ taken.in_store;
            was_free = taken.was_free;
            pools = ap (λ ps. update pool_id pool.id (without ip) ps) pools;
          }

    pub attach_lem :
        (t : Models) → attach_external_network net hv ports k m ≡ (ok true, t) → IsPlugged k m old t
    unfolding attach_external_network
    attach_lem t h =
        let ((host, vm), s, e, r) = bind_ok (get_provider_and_node hv k) _ m t true h in
        let f = found_as hv k m w host vm s e in
        let same : f.old ≡ old = some_eq (sym f.was ∙ g) in
        let nics : vm.nics ≡ old.nics = f.same_nics ∙ ap (λ (a : VMachine). a.nics) same in
        let missing : any is_public vm.nics ≡ false =
          subst (λ xs. any is_public xs ≡ false) (sym nics) none_yet in
        plugged_lem host vm s t f nics
          (subst (λ b. attach_if_missing net hv ports b host vm s ≡ (ok true, t)) missing r)
