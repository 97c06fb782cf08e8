-- ===== src/Firewall.antt =====
-- apps/cloudbroker/cloudbrokerlib/netmgr.py: the port forwarding rules of the virtual firewalls.
-- The job that applies a configuration on a firewall is run by the agent controller: its outcome
-- is the parameter `run_job`, `none` where the job's state is not OK, and else whether the result
-- is true. Ports are numbers, as their texts are only compared; so are addresses.
pub mod Removal
pub mod Lookup
pub mod Table
pub mod Tests
use openvcloud.Prelude.{
  ℕ, zero, suc, Bool, true, false, not, ◌&&◌, Option, none, some, List, [], ◌∷◌, ◌++◌, ◌==◌, filter,
  map, get_elem?, length, any, if◌then◌else◌,
}
use openvcloud.Result.{
  Error, Result, ok, err, service_unavailable, python_error, Exec, ◌>>=◌, ◌>>◌, pure, raise,
  or_raise, modify, gets,
}
use openvcloud.Models.{Models}
use openvcloud.Models.Table.{get, update}

pub data Protocol : Type 0 where
  tcp udp : Protocol

pub record Rule : Type 0 where
  pub from_addr : ℕ
  pub from_port : ℕ
  pub to_addr : ℕ
  pub to_port : ℕ
  pub protocol : Option Protocol

pub record VirtualFirewall : Type 0 where
  pub guid : ℕ
  pub gid : ℕ
  -- the node on which it runs, once it is deployed
  pub nid : Option ℕ
  -- the id of its cloudspace
  pub domain : ℕ
  pub rules : List Rule

-- The objects of the broker and the firewalls of the `vfw` namespace.
pub record Cloud : Type 0 where
  pub models : Models
  pub vfw : List VirtualFirewall

abbrev pub guid_of : VirtualFirewall → ℕ
guid_of fw = fw.guid

abbrev pub same_protocol : Protocol → Protocol → Bool
same_protocol Protocol.tcp Protocol.tcp = true
same_protocol Protocol.udp Protocol.udp = true
same_protocol _ _ = false

-- Python's `==` on two protocols.
abbrev pub eq_protocol : Option Protocol → Option Protocol → Bool
eq_protocol none none = true
eq_protocol (some Protocol.tcp) (some Protocol.tcp) = true
eq_protocol (some Protocol.udp) (some Protocol.udp) = true
eq_protocol _ _ = false

-- `protocol and rule.protocol and rule.protocol.lower() != protocol.lower()`
abbrev pub differs : Option Protocol → Option Protocol → Bool
differs (some p) (some q) = not (same_protocol q p)
differs _ _ = false

-- The test of `fw_forward_delete` on a rule.
unfoldable pub matches : ℕ → ℕ → Option Protocol → Rule → Bool
matches fwip fwport protocol rule =
    (rule.from_addr == fwip && rule.from_port == fwport) && not (differs protocol rule.protocol)

-- `rules.remove(rule)` in the loop, where `rule` is the object at the index `i`: rules are objects of the
-- store's client, and two of them are equal only if they are the same object.
pub remove_at : ℕ → List Rule → List Rule
remove_at i [] = []
remove_at zero (r ∷ rules) = rules
remove_at (suc i) (r ∷ rules) = r ∷ remove_at i rules

-- `for rule in rules: … rules.remove(rule)`: Python's iterator is an index into the list that the
-- body shortens. The fuel is the number of rounds left; there are at most as many as rules.
pub remove_loop : (Rule → Bool) → ℕ → ℕ → List Rule → List Rule
unfolding remove_at
remove_loop test zero i rules = rules
remove_loop test (suc rounds) i rules = elim (get_elem? rules i) [
  | none ↦ rules
  | some r ↦ elim (test r) [
    | true ↦ remove_loop test rounds (suc i) (remove_at i rules)
    | false ↦ remove_loop test rounds (suc i) rules
  ]
]

unfoldable pub removed : (Rule → Bool) → List Rule → List Rule
unfolding remove_loop
removed test rules = remove_loop test (length rules) 0 rules

-- `_getVFWObject`
unfoldable pub deployed : Option VirtualFirewall → Exec Cloud VirtualFirewall
deployed none = raise service_unavailable
deployed (some fw) = elim fw.nid [ none ↦ raise service_unavailable | some _ ↦ pure fw ]

unfoldable pub get_vfw_object : ℕ → Exec Cloud VirtualFirewall
unfolding deployed
get_vfw_object fwid cloud = deployed (get guid_of fwid cloud.vfw) cloud

unfoldable pub set_rules : ℕ → (List Rule → List Rule) → Exec Cloud (Unit {0})
set_rules fwid f = modify λ cloud. record cloud {
  vfw = update guid_of fwid (λ fw. record fw { rules = f fw.rules }) cloud.vfw;
}

module _ (run_job : VirtualFirewall → Option Bool) where
  -- `_applyconfig`
  unfoldable pub apply_config : VirtualFirewall → Exec Cloud Bool
  apply_config fw = or_raise (run_job fw) service_unavailable

  unfoldable pub apply_if : Bool → ℕ → Exec Cloud Bool
  unfolding apply_config get_vfw_object
  apply_if false fwid = pure false
  apply_if true fwid = do fw ← get_vfw_object fwid; apply_config fw

  -- The rules that the loop leaves are stored only if some rule matched.
  unfoldable pub fw_forward_delete : ℕ → ℕ → ℕ → Option Protocol → Bool → Exec Cloud Bool
  unfolding get_vfw_object matches removed set_rules apply_if
  fw_forward_delete fwid fwip fwport protocol apply = do
    fw ← get_vfw_object fwid
    let change = any (matches fwip fwport protocol) fw.rules
    if change then set_rules fwid (removed (matches fwip fwport protocol)) else pure tt
    apply_if (change && apply) fwid

  unfoldable pub delete_unless : Bool → ℕ → ℕ → ℕ → Option Protocol → Exec Cloud Bool
  unfolding fw_forward_delete
  delete_unless true fwid fwip fwport protocol = pure true
  delete_unless false fwid fwip fwport protocol = do
    fw_forward_delete fwid fwip fwport protocol false
    pure false

  unfoldable pub fw_forward_create : ℕ → ℕ → ℕ → ℕ → ℕ → Option Protocol → Exec Cloud Bool
  unfolding get_vfw_object set_rules apply_config delete_unless
  fw_forward_create fwid fwip fwport destip destport protocol = do
    get_vfw_object fwid
    set_rules fwid λ rules.
        rules
        ++ record {
          from_addr = fwip;
          from_port = fwport;
          to_addr = destip;
          to_port = destport;
          protocol = protocol;
        }
          ∷ []
    fw ← get_vfw_object fwid
    result ← apply_config fw
    delete_unless result fwid fwip fwport protocol

-- `fw_forward_list`; with a local address, only the rules that lead there
abbrev pub leads_to : Option ℕ → Rule → Bool
leads_to none rule = true
leads_to (some ip) rule = rule.to_addr == ip

unfoldable pub fw_forward_list : ℕ → Option ℕ → Exec Cloud (List Rule)
fw_forward_list fwid localip = do
  fw ← λ cloud. or_raise (get guid_of fwid cloud.vfw) python_error cloud
  pure (filter (leads_to localip) fw.rules)

-- `fw_list(gid, domain)`
unfoldable pub fw_list : ℕ → ℕ → Exec Cloud (List VirtualFirewall)
fw_list gid domain = gets λ cloud. filter (λ fw. fw.domain == domain && fw.gid == gid) cloud.vfw
