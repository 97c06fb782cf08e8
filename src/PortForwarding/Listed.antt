-- ===== src/PortForwarding/Listed.antt =====
-- `list` of the port forwarding rules, of a whole cloudspace or of one machine.
use openvcloud.Prelude.{
  ℕ, zero, suc, ◌+◌, ◌≡◌, refl, Option, none, some, List, [], ◌∷◌, get_elem?, arith, filter, ◌==◌,
  ◌&&◌, subst, ap, ◌∙◌, sym,
}
use openvcloud.Prelude.Int.{pos}
use openvcloud.Result.{
  ok, not_found, python_error, Exec, ◌>>=◌, pure, or_raise, bind_ok, same_ok, or_raise_ok,
}
use openvcloud.Models.{Cloudspace, VMachine}
use openvcloud.Models.Unique.{some_eq}
use openvcloud.Firewall.{Rule, VirtualFirewall, Cloud, fw_forward_list, fw_list}
use openvcloud.PortForwarding.{
  Forward, first, get_cloudspace, get_vmachine, get_firewall_id, local_ip, process_from,
  process_list, rule_at,
}

unfoldable pub get_machine : Option ℕ → Exec Cloud (Option VMachine)
unfolding get_vmachine
get_machine none = pure none
get_machine (some k) = do vm ← get_vmachine k; pure (some vm)

unfoldable pub list_on : ℕ → Option ℕ → Exec Cloud (List Forward)
unfolding get_cloudspace fw_list fw_forward_list process_list
list_on cloudspace_id localip = do
  cloudspace ← get_cloudspace cloudspace_id
  fw ← fw_list cloudspace.gid cloudspace_id
  vfw ← or_raise (first fw) not_found
  forwards ← fw_forward_list vfw.guid localip
  process_list forwards cloudspace_id

unfoldable pub list_for : ℕ → Option VMachine → Exec Cloud (List Forward)
unfolding local_ip list_on
list_for cloudspace_id none = list_on cloudspace_id none
list_for cloudspace_id (some vm) = elim (local_ip vm.nics) [
  | none ↦ pure []
  | some ip ↦ list_on cloudspace_id (some ip)
]

-- `list`
unfoldable pub list_rules : ℕ → Option ℕ → Exec Cloud (List Forward)
unfolding get_machine list_for
list_rules cloudspace_id machine_id = do
  machine ← get_machine machine_id
  list_for cloudspace_id machine

-- Each rule is shown with its place.
process_from-at :
    (i : ℕ) (machines : List VMachine) (rules : List Rule) (n : ℕ) (f : Forward)
    → get_elem? (process_from i machines rules) n ≡ some f
    → (f.id ≡ i + n) × (get_elem? rules n ≡ some f.rule)
unfolding process_from
process_from-at i machines [] n f h = absurd (ground arith)
process_from-at i machines (r ∷ rules) zero f h =
    let q = some_eq h in
    let own : f.id ≡ i = ap (λ (x : Forward). x.id) (sym q) in
    (omega (arith, own), ap (λ (x : Forward). some x.rule) q)
process_from-at i machines (r ∷ rules) (suc n) f h =
    let (own, found) = process_from-at (suc i) machines rules n f h in (omega (arith, own), found)

-- The rules of the cloudspace's firewall, which `delete` and `update` take their rule from.
abbrev pub stored_rules : ℕ → Exec Cloud (List Rule)
unfolding get_firewall_id fw_forward_list
stored_rules cloudspace_id = do fw_id ← get_firewall_id cloudspace_id; fw_forward_list fw_id none

shown_lem :
    (k : ℕ) (cloud t : Cloud) (rules : List Rule) (shown : List Forward) (n : ℕ) (f : Forward)
    → process_list rules k cloud ≡ (ok shown, t)
    → get_elem? shown n ≡ some f
    → rule_at (pos f.id) rules ≡ ok f.rule
unfolding process_list rule_at
shown_lem k cloud t rules shown n f h at =
    let (own, found) =
      process_from-at 0 _ rules n f
        (subst (λ fs. get_elem? fs n ≡ some f) (sym (same_ok h).0) at) in
    let place : f.id ≡ n = omega (arith, own) in rw (place, rule_at, found) refl

abbrev of_cloudspace : ℕ → Cloudspace → Cloud → List VirtualFirewall
of_cloudspace k cs cloud = filter (λ fw. fw.domain == k && fw.gid == cs.gid) cloud.vfw

-- Under the id that the list of a whole cloudspace shows with a rule, the search by an id in the
-- rules of the cloudspace's firewall finds this rule.
pub list_rules-rule_at :
    (k : ℕ) (cloud t : Cloud) (shown : List Forward) (n : ℕ) (f : Forward)
    → list_rules k none cloud ≡ (ok shown, t)
    → get_elem? shown n ≡ some f
    → (rules : List Rule) × ((stored_rules k cloud).0 ≡ ok rules)
      × (rule_at (pos f.id) rules ≡ ok f.rule)
unfolding list_rules list_for list_on get_firewall_id get_cloudspace fw_list process_list rule_at
    get_machine
list_rules-rule_at k cloud t shown n f run at =
    let (cs, c1, e1, r1) = bind_ok (get_cloudspace k) _ cloud t shown run in
    let (x, same_1) = or_raise_ok _ python_error cloud c1 cs e1 in
    let (vfw, c2, e2, r2) =
      bind_ok (or_raise (first (of_cloudspace k cs c1)) not_found) _ c1 t shown r1 in
    let (y, same_2) = or_raise_ok (first (of_cloudspace k cs c1)) not_found c1 c2 vfw e2 in
    let (rules, c3, e3, r3) = bind_ok (fw_forward_list vfw.guid none) _ c2 t shown r2 in
    let y_own : first (of_cloudspace k cs cloud) ≡ some vfw =
      subst (λ c. first (of_cloudspace k cs c) ≡ some vfw) (sym same_1) y in
    let e_own =
      subst (λ c. fw_forward_list vfw.guid none c ≡ (ok rules, c3)) (sym (same_1 ∙ same_2)) e3 in
    let stored : stored_rules k cloud ≡ (ok rules, c3) = rw (x, y_own) e_own in
    (rules, ap (λ o. o.0) stored, shown_lem k c3 t rules shown n f r3 at)
