-- ===== src/PortForwarding/Guards.antt =====
-- What `create` of apps/cloudbroker/base/cloudapi__portforwarding lets pass, and that it keeps one
-- rule for each public address, port and protocol.
use openvcloud.Prelude.{
  ℕ, ◌≤◌, ◌≡◌, refl, Bool, true, false, Option, none, some, List, [], ◌∷◌, any, filter, arith,
  Option-cases, inl, inr, sym, ◌∙◌, ap,
}
use openvcloud.Result.{Result, ok, Exec, ◌>>=◌, ◌>>◌, bind_keeps, raise_if, conflict, Result-cases}
use openvcloud.Models.{Models, Nic, Cloudspace, CloudspaceStatus}
use openvcloud.Models.Table.{get}
use openvcloud.Firewall.{
  Protocol, Rule, VirtualFirewall, Cloud, guid_of, leads_to, fw_forward_create, fw_forward_list,
  fw_list,
}
use openvcloud.Firewall.Lookup.{HasUniqueRules, fw_forward_create-HasUniqueRules}
use openvcloud.PortForwarding.{
  create, checked, self_check_duplicate, duplicates, or_unavailable, local_ip,
}

module _ (interfaces : Models → ℕ → Result (List Nic)) where
  -- Nothing is written before the firewall is asked to create the rule.
  checked-state :
      (cloudspace_id : ℕ) (public_ip : Option ℕ) (public_port machine_id local_port : ℕ)
      (cloud : Cloud)
      → (checked interfaces cloudspace_id public_ip public_port machine_id local_port cloud).1
        ≡ cloud
  unfolding checked fw_list
  checked-state cs ip port vm local cloud = ground arith

  checked_lem :
      (cloudspace_id : ℕ) (public_ip : Option ℕ) (public_port machine_id local_port : ℕ)
      (cloud : Cloud) (vfw : VirtualFirewall) (ip destip : ℕ)
      → (checked interfaces cloudspace_id public_ip public_port machine_id local_port cloud).0
        ≡ ok (vfw, ip, destip)
      → (cs : Cloudspace) × (get (λ (c : Cloudspace). c.id) cloudspace_id cloud.models.cloudspace
          ≡ some cs)
        × (cs.status ≡ CloudspaceStatus.deployed)
        × (1 ≤ public_port)
        × (public_port ≤ 65535)
        × (1 ≤ local_port)
        × (local_port ≤ 65535)
        × (public_ip ≡ some ip)
        × (prefixlen : ℕ) × (cs.externalnetworkip ≡ some (ip, prefixlen))
        × (nics : List Nic) × (interfaces cloud.models machine_id ≡ ok nics)
        × (local_ip nics ≡ some destip)
  unfolding checked fw_list
  checked_lem cs ip port vm local cloud vfw a b h =
      elim (Option-cases (get (λ (c : Cloudspace). c.id) cs cloud.models.cloudspace)) [
        | inl e ↦ absurd (ground arith)
        | inr (c, e) ↦ elim (Option-cases c.externalnetworkip) [
          | inl x ↦ absurd (ground arith)
          | inr ((address, prefixlen), x) ↦ elim (Result-cases (interfaces cloud.models vm)) [
            | inr (y, i) ↦ absurd (ground arith)
            | inl (nics, i) ↦ (
              c,
              e,
              ground arith,
              ground arith,
              ground arith,
              ground arith,
              ground arith,
              ground arith,
              prefixlen,
              ground arith,
              nics,
              i,
              ground arith,
            )
          ]
        ]
      ]

  create-checked :
      (run_job : VirtualFirewall → Option Bool) (cloudspace_id : ℕ) (public_ip : Option ℕ)
      (public_port machine_id local_port : ℕ) (protocol : Option Protocol) (cloud : Cloud)
      (b : Bool)
      → (create interfaces run_job cloudspace_id public_ip public_port machine_id local_port
          protocol cloud).0
        ≡ ok b
      → (r : VirtualFirewall × ℕ × ℕ) × ((checked interfaces cloudspace_id public_ip public_port
            machine_id local_port cloud).0
          ≡ ok r)
  unfolding create
  create-checked run_job cs ip port vm local protocol cloud b h =
      elim (Result-cases (checked interfaces cs ip port vm local cloud).0) [
        | inl (r, e) ↦ (r, e)
        | inr (x, e) ↦ absurd (ground arith)
      ]

  -- A port forwarding rule is created only if the two ports lie between 1 and 65535, the cloudspace
  -- is DEPLOYED, the public address is that of the cloudspace, and the machine has an address.
  pub create_guards :
      (run_job : VirtualFirewall → Option Bool) (cloudspace_id : ℕ) (public_ip : Option ℕ)
      (public_port machine_id local_port : ℕ) (protocol : Option Protocol) (cloud : Cloud)
      (b : Bool)
      → (create interfaces run_job cloudspace_id public_ip public_port machine_id local_port
          protocol cloud).0
        ≡ ok b
      → (cs : Cloudspace) × (get (λ (c : Cloudspace). c.id) cloudspace_id cloud.models.cloudspace
          ≡ some cs)
        × (cs.status ≡ CloudspaceStatus.deployed)
        × (1 ≤ public_port)
        × (public_port ≤ 65535)
        × (1 ≤ local_port)
        × (local_port ≤ 65535)
        × (ip : ℕ) × (public_ip ≡ some ip)
        × (prefixlen : ℕ) × (cs.externalnetworkip ≡ some (ip, prefixlen))
        × (nics : List Nic) × (interfaces cloud.models machine_id ≡ ok nics)
        × (destip : ℕ) × (local_ip nics ≡ some destip)
  create_guards run_job cs ip port vm local protocol cloud b h =
      let ((vfw, a, d), e) = create-checked run_job cs ip port vm local protocol cloud b h in
      let (c, g, st, p1, p2, l1, l2, pi, len, x, nics, i, o) =
        checked_lem cs ip port vm local cloud vfw a d e in
      (c, g, st, p1, p2, l1, l2, a, pi, len, x, nics, i, d, o)

filter_all : (rules : List Rule) → filter (leads_to none) rules ≡ rules
filter_all [] = refl
filter_all (r ∷ rules) = ap (λ l. r ∷ l) (filter_all rules)

-- The check for a duplicate reads the rules of the firewall.
self_check_duplicate_lem :
    (j ip port : ℕ) (protocol : Option Protocol) (cloud t : Cloud) (fw : VirtualFirewall)
    → self_check_duplicate j ip port protocol cloud ≡ (ok false, t)
    → get guid_of j cloud.vfw ≡ some fw
    → any (duplicates ip port protocol) fw.rules ≡ false
unfolding self_check_duplicate fw_forward_list
self_check_duplicate_lem j ip port protocol cloud t fw h e = ground (arith, filter_all fw.rules)

self_check_duplicate-state :
    (j ip port : ℕ) (protocol : Option Protocol) (cloud : Cloud)
    → (self_check_duplicate j ip port protocol cloud).1 ≡ cloud
unfolding self_check_duplicate fw_forward_list
self_check_duplicate-state j ip port protocol cloud = ground arith

or_unavailable-state :
    (m : Exec Cloud Bool) (cloud : Cloud) → (or_unavailable m cloud).1 ≡ (m cloud).1
unfolding or_unavailable
or_unavailable-state m cloud = refl

module _ (interfaces : Models → ℕ → Result (List Nic))
    (run_job : VirtualFirewall → Option Bool) where
  -- Whether `create` succeeds or raises, a firewall with one rule for each source stays so.
  pub create-HasUniqueRules :
      (k cloudspace_id : ℕ) (public_ip : Option ℕ) (public_port machine_id local_port : ℕ)
      (protocol : Option Protocol) (cloud : Cloud)
      → HasUniqueRules k cloud
      → HasUniqueRules k
          (create interfaces run_job cloudspace_id public_ip public_port machine_id local_port
            protocol cloud).1
  unfolding create
  create-HasUniqueRules k cs pip port vm local protocol cloud w =
      bind_keeps P (checked interfaces cs pip port vm local) after_checks cloud
        (rw (checked-state interfaces cs pip port vm local cloud) w)
        λ (vfw, ip, destip) t _ p.
          bind_keeps P (self_check_duplicate vfw.guid ip port protocol) (after_test vfw ip destip) t
            (rw (self_check_duplicate-state vfw.guid ip port protocol t) p)
            (λ d u e q. written vfw ip destip t d u e q)
    where
      P : Cloud → Type 0
      P = HasUniqueRules k

      after_test : VirtualFirewall → ℕ → ℕ → Bool → Exec Cloud Bool
      after_test vfw ip destip d =
          raise_if d conflict
          >> or_unavailable (fw_forward_create run_job vfw.guid ip port destip local protocol)

      after_checks : VirtualFirewall × ℕ × ℕ → Exec Cloud Bool
      after_checks (vfw, ip, destip) =
          self_check_duplicate vfw.guid ip port protocol >>= after_test vfw ip destip

      written :
          (vfw : VirtualFirewall) (ip destip : ℕ) (t : Cloud) (d : Bool) (u : Cloud)
          → self_check_duplicate vfw.guid ip port protocol t ≡ (ok d, u)
          → P u
          → P (after_test vfw ip destip d u).1
      written vfw ip destip t true u e q = q
      written vfw ip destip t false u e q =
          rw
            (or_unavailable-state (fw_forward_create run_job vfw.guid ip port destip local protocol)
              u)
            (fw_forward_create-HasUniqueRules run_job k vfw.guid
              (record {
                from_addr = ip;
                from_port = port;
                to_addr = destip;
                to_port = local;
                protocol = protocol;
              })
              u
              (λ fw g. self_check_duplicate_lem vfw.guid ip port protocol t u fw e (rw (← moved) g))
              q)
        where
          moved : u ≡ t
          moved = sym (ap (λ x. x.1) e) ∙ self_check_duplicate-state vfw.guid ip port protocol t
