-- ===== src/Firewall/Tests.antt =====
-- The forwarding rules of a firewall on short lists of rules.
use openvcloud.Prelude.{
  if◌then◌else◌, ◌≡◌, refl, Bool, true, false, not, some, none, [], ◌∷◌, ◌++◌, filter, any, ◌==◌,
}
use openvcloud.Result.{ok}
use openvcloud.Models.{Models}
use openvcloud.Firewall.{
  Protocol, Rule, VirtualFirewall, Cloud, matches, removed, fw_forward_delete, fw_forward_create,
  get_vfw_object, deployed, set_rules, apply_if, apply_config,
}
use openvcloud.Firewall.Removal.{removed-eq-filter, removed-skips, skip_removed}
use openvcloud.Firewall.Table.{
  table, same_key, fw_forward_delete_refines, fw_forward_create_refines,
}

abbrev web : Rule
web = record {
  from_addr = 9;
  from_port = 80;
  to_addr = 5;
  to_port = 80;
  protocol = some Protocol.tcp;
}

abbrev ssh : Rule
ssh = record {
  from_addr = 9;
  from_port = 22;
  to_addr = 5;
  to_port = 22;
  protocol = some Protocol.tcp;
}

abbrev dns : Rule
dns = record {
  from_addr = 9;
  from_port = 80;
  to_addr = 6;
  to_port = 53;
  protocol = some Protocol.udp;
}

-- Port 80, whatever the protocol: what `deleteByPort` without a protocol asks for.
abbrev port_80 : Rule → Bool
port_80 rule = matches 9 80 none rule

removed-eq-filter_example :
    removed (λ r. r.from_port == 80) (web ∷ ssh ∷ dns ∷ [])
    ≡ filter (λ r. not (r.from_port == 80)) (web ∷ ssh ∷ dns ∷ [])
removed-eq-filter_example =
    removed-eq-filter (λ r. r.from_port == 80) (web ∷ ssh ∷ dns ∷ []) (refl, (refl, tt))

web_matches : port_80 web ≡ true
unfolding matches
web_matches = refl

ssh_differs : any port_80 (ssh ∷ []) ≡ false
unfolding matches
ssh_differs = refl

-- The rule for udp survives the removal of port 80 for both protocols.
removed-skips_example :
    removed port_80 (ssh ∷ web ∷ dns ∷ []) ≡ (ssh ∷ []) ++ dns ∷ skip_removed port_80 []
removed-skips_example = removed-skips port_80 (ssh ∷ []) web dns [] ssh_differs web_matches

abbrev empty : Models
empty = record {
  account = [];
  cloudspace = [];
  vmachine = [];
  disk = [];
  size = [];
  stack = [];
  externalnetwork = [];
  networkids = [];
}

abbrev wall : VirtualFirewall
wall = record { guid = 4; gid = 1; nid = some 1; domain = 2; rules = ssh ∷ web ∷ dns ∷ [] }

abbrev walled : Cloud
walled = record { models = empty; vfw = wall ∷ [] }

-- The entry for tcp goes, the one for udp stays.
tcp_gone :
    table 4
      (fw_forward_delete (λ _. some true) 4 9 80 (some Protocol.tcp) true walled).1
      9
      80
      Protocol.tcp
    ≡ none
unfolding fw_forward_delete get_vfw_object deployed matches removed set_rules apply_if apply_config
tcp_gone = refl

fw_forward_delete_refines_example :
    table 4
      (fw_forward_delete (λ _. some true) 4 9 80 (some Protocol.tcp) true walled).1
      9
      80
      Protocol.udp
    ≡ (if same_key 9 80 Protocol.udp 9 80 Protocol.tcp
        then none
        else table 4 walled 9 80 Protocol.udp)
fw_forward_delete_refines_example =
    fw_forward_delete_refines 9 80 Protocol.tcp (λ _. some true) 4 1 true walled wall 9 80
      Protocol.udp refl refl (refl, (refl, (refl, tt))) refl

fw_forward_create_refines_example :
    ((fw_forward_create (λ _. some true) 4 9 443 5 443 (some Protocol.tcp) walled).0 ≡ ok true)
    × (table 4
          (fw_forward_create (λ _. some true) 4 9 443 5 443 (some Protocol.tcp) walled).1
          9
          443
          Protocol.tcp
        ≡ (if same_key 9 443 Protocol.tcp 9 443 Protocol.tcp
            then some (5, 443)
            else table 4 walled 9 443 Protocol.tcp))
fw_forward_create_refines_example =
    fw_forward_create_refines 9 443 5 443 Protocol.tcp (λ _. some true) 4 1 walled wall 9 443
      Protocol.tcp refl refl refl refl
