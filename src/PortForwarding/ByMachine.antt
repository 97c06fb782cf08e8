-- ===== src/PortForwarding/ByMachine.antt =====
-- `deleteByVM` of apps/cloudbroker/base/cloudapi__portforwarding and the objects of the broker.
use openvcloud.Prelude.{
  ℕ, ◌≡◌, refl, Bool, true, false, Option, none, some, List, [], ◌∷◌, ◌==◌, Option-cases, inl, inr,
  any, ◌&&◌, ◌∙◌, not, ap, if◌then◌else◌,
}
use openvcloud.Result.{
  Error, Exec, bind_keeps, or_raise, or_raise_same, raise_if, raise_if_same, python_error,
  not_found, service_unavailable, ◌>>=◌, pure,
}
use openvcloud.Models.{Cloudspace, VMachine}
use openvcloud.Models.Table.{get}
use openvcloud.Firewall.{
  Protocol, Rule, VirtualFirewall, Cloud, guid_of, fw_forward_delete, fw_forward_list, fw_list,
  get_vfw_object, deployed, apply_if, apply_config, set_rules, removed, matches,
}
use openvcloud.PortForwarding.{
  get_cloudspace, get_firewall_id, process_list, delete_by_port_rule, delete_if, delete_each,
  delete_on, delete_for, delete_by_vm, first,
}

-- An action that leaves the objects of the broker alone, from any state.
Quiet : {A : Type 0} → Exec Cloud A → Type 0
Quiet m = (cloud : Cloud) → (m cloud).1.models ≡ cloud.models

then-Quiet :
    {A B : Type 0} (m : Exec Cloud A) (f : A → Exec Cloud B)
    → Quiet m
    → ((a : A) → Quiet (f a))
    → Quiet (m >>= f)
unfolding Quiet
then-Quiet m f q r cloud =
    bind_keeps (λ t. t.models ≡ cloud.models) m f cloud (q cloud) λ a t e p. r a t ∙ p

find-Quiet : {A : Type 0} (o : Cloud → Option A) → Quiet (λ c. or_raise (o c) python_error c)
unfolding Quiet
find-Quiet o cloud = elim (Option-cases (o cloud)) [ inl e ↦ rw e refl | inr (a, e) ↦ rw e refl ]

or_raise-Quiet : {A : Type 0} (o : Option A) (e : Error) → Quiet (or_raise o e)
unfolding Quiet
or_raise-Quiet o e cloud = ap (λ (c : Cloud). c.models) (or_raise_same o e cloud)

raise_if-Quiet : (b : Bool) (e : Error) → Quiet (raise_if b e)
unfolding Quiet
raise_if-Quiet b e cloud = ap (λ (c : Cloud). c.models) (raise_if_same b e cloud)

pure-Quiet : {A : Type 0} (a : A) → Quiet (pure a)
unfolding Quiet
pure-Quiet a cloud = refl

get_vfw_object-Quiet : (j : ℕ) → Quiet (get_vfw_object j)
unfolding Quiet get_vfw_object deployed
get_vfw_object-Quiet j cloud = elim (Option-cases (get guid_of j cloud.vfw)) [
  | inl e ↦ rw e refl
  | inr (fw, e) ↦ elim (Option-cases fw.nid) [
    | inl n ↦ rw (e, n) refl
    | inr (k, n) ↦ rw (e, n) refl
  ]
]

fw_forward_list-Quiet : (j : ℕ) → Quiet (fw_forward_list j none)
unfolding Quiet fw_forward_list
fw_forward_list-Quiet j cloud = elim (Option-cases (get guid_of j cloud.vfw)) [
  | inl e ↦ rw e refl
  | inr (fw, e) ↦ rw e refl
]

get_cloudspace-Quiet : (k : ℕ) → Quiet (get_cloudspace k)
unfolding get_cloudspace
get_cloudspace-Quiet k =
    find-Quiet (λ cloud. get (λ (c : Cloudspace). c.id) k cloud.models.cloudspace)

fw_list-Quiet : (gid k : ℕ) → Quiet (fw_list gid k)
unfolding fw_list Quiet
fw_list-Quiet gid k cloud = refl

module _ (run_job : VirtualFirewall → Option Bool) where
  apply_if-Quiet : (b : Bool) (j : ℕ) → Quiet (apply_if run_job b j)
  unfolding apply_if apply_config
  apply_if-Quiet false j = pure-Quiet false
  apply_if-Quiet true j =
      then-Quiet (get_vfw_object j) (λ fw. or_raise (run_job fw) service_unavailable)
        (get_vfw_object-Quiet j) λ fw. or_raise-Quiet (run_job fw) service_unavailable

  write_if : Bool → ℕ → ℕ → ℕ → Option Protocol → Exec Cloud (Unit {0})
  write_if c j ip port p = if c then set_rules j (removed (matches ip port p)) else pure tt

  write_if-Quiet : (c : Bool) (j ip port : ℕ) (p : Option Protocol) → Quiet (write_if c j ip port p)
  unfolding write_if Quiet set_rules
  write_if-Quiet true j ip port p cloud = refl
  write_if-Quiet false j ip port p cloud = refl

  forward_delete-Quiet :
      (j ip port : ℕ) (p : Option Protocol) → Quiet (fw_forward_delete run_job j ip port p true)
  unfolding fw_forward_delete write_if
  forward_delete-Quiet j ip port p = then-Quiet (get_vfw_object j) _ (get_vfw_object-Quiet j) λ fw.
      then-Quiet (write_if (any (matches ip port p) fw.rules) j ip port p)
        (λ _. apply_if run_job (any (matches ip port p) fw.rules && true) j)
        (write_if-Quiet (any (matches ip port p) fw.rules) j ip port p)
        λ x. apply_if-Quiet (any (matches ip port p) fw.rules && true) j

  get_firewall_id-Quiet : (k : ℕ) → Quiet (get_firewall_id k)
  unfolding get_firewall_id
  get_firewall_id-Quiet k = then-Quiet (get_cloudspace k) _ (get_cloudspace-Quiet k) λ cs.
      then-Quiet (fw_list cs.gid k) (λ fw. or_raise (first fw) not_found >>= λ vfw. pure vfw.guid)
        (fw_list-Quiet cs.gid k)
        λ fw.
          then-Quiet (or_raise (first fw) not_found) (λ vfw. pure vfw.guid)
            (or_raise-Quiet (first fw) not_found) λ vfw. pure-Quiet vfw.guid

  process_list-Quiet : (rules : List Rule) (k : ℕ) → Quiet (process_list rules k)
  unfolding process_list Quiet
  process_list-Quiet rules k cloud = refl

  delete_by_port_rule-Quiet :
      (k ip port : ℕ) (p : Option Protocol) → Quiet (delete_by_port_rule run_job k ip port p)
  unfolding delete_by_port_rule
  delete_by_port_rule-Quiet k ip port p =
      then-Quiet (get_firewall_id k) _ (get_firewall_id-Quiet k) λ j.
        then-Quiet (fw_forward_delete run_job j ip port p true) _ (forward_delete-Quiet j ip port p)
          λ found.
            then-Quiet (raise_if (not found) not_found) _ (raise_if-Quiet (not found) not_found)
              λ x.
                then-Quiet (fw_forward_list j none) _ (fw_forward_list-Quiet j)
                  λ rest. process_list-Quiet rest k

  delete_if-Quiet : (b : Bool) (k : ℕ) (r : Rule) → Quiet (delete_if run_job b k r)
  unfolding delete_if
  delete_if-Quiet false k r = pure-Quiet tt
  delete_if-Quiet true k r =
      then-Quiet (delete_by_port_rule run_job k r.from_addr r.from_port r.protocol) (λ _. pure tt)
        (delete_by_port_rule-Quiet k r.from_addr r.from_port r.protocol) λ x. pure-Quiet tt

  delete_each-Quiet : (k ip : ℕ) (rules : List Rule) → Quiet (delete_each run_job k ip rules)
  unfolding delete_each
  delete_each-Quiet k ip [] = pure-Quiet tt
  delete_each-Quiet k ip (r ∷ rules) =
      then-Quiet (delete_if run_job (r.to_addr == ip) k r) (λ _. delete_each run_job k ip rules)
        (delete_if-Quiet (r.to_addr == ip) k r) λ x. delete_each-Quiet k ip rules

  delete_on-Quiet : (o : Option VirtualFirewall) (k ip : ℕ) → Quiet (delete_on run_job o k ip)
  unfolding delete_on
  delete_on-Quiet none k ip = pure-Quiet true
  delete_on-Quiet (some vfw) k ip =
      then-Quiet (fw_forward_list vfw.guid none) _ (fw_forward_list-Quiet vfw.guid) λ rules.
        then-Quiet (delete_each run_job k ip rules) (λ _. pure true) (delete_each-Quiet k ip rules)
          λ x. pure-Quiet true

  delete_for-Quiet : (o : Option ℕ) (k : ℕ) → Quiet (delete_for run_job o k)
  unfolding delete_for
  delete_for-Quiet none k = pure-Quiet true
  delete_for-Quiet (some ip) k = then-Quiet (get_cloudspace k) _ (get_cloudspace-Quiet k) λ cs.
      then-Quiet (fw_list cs.gid k) (λ fw. delete_on run_job (first fw) k ip)
        (fw_list-Quiet cs.gid k) λ fw. delete_on-Quiet (first fw) k ip

  -- `deleteByVM` leaves the objects of the broker as they are, on every branch.
  pub delete_by_vm_quiet :
      (vm : VMachine) (cloud : Cloud) → (delete_by_vm run_job vm cloud).1.models ≡ cloud.models
  unfolding delete_by_vm Quiet
  delete_by_vm_quiet vm cloud = delete_for-Quiet _ vm.cloudspace_id cloud
