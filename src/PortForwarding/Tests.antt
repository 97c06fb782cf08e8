-- ===== src/PortForwarding/Tests.antt =====
-- A cloudspace with a firewall and a machine, and a port forwarding rule for it; and two machines with
-- a rule each.
use openvcloud.Prelude.{ℕ, ◌≤◌, ◌≡◌, refl, Bool, true, Option, some, none, List, [], ◌∷◌}
use openvcloud.Prelude.Int.{pos}
use openvcloud.Result.{Result, ok}
use openvcloud.Models.{Models, MachineStatus, Nic, NicType, Cloudspace, CloudspaceStatus, VMachine}
use openvcloud.Models.Table.{get}
use openvcloud.Firewall.{
  Protocol, Rule, VirtualFirewall, Cloud, fw_list, fw_forward_list, fw_forward_create,
}
use openvcloud.Firewall.Lookup.{HasUniqueRules}
use openvcloud.PortForwarding.{
  Forward, create, get_vmachine, process_list, rule_at, local_ip, checked, self_check_duplicate,
  or_unavailable, check_public_ip, get_cloudspace,
}
use openvcloud.PortForwarding.Listed.{get_machine, list_rules, stored_rules, list_rules-rule_at}
use openvcloud.PortForwarding.Guards.{create_guards, create-HasUniqueRules}

abbrev lab : Cloudspace
lab = record {
  id = 2;
  name = "lab";
  account_id = 1;
  gid = 7;
  acl = [];
  status = CloudspaceStatus.deployed;
  resource_limits = λ _. none;
  network_id = some 40;
  externalnetwork_id = some 1;
  externalnetworkip = some (9, 24);
  allowed_vm_sizes = [];
}

abbrev lab_models : Models
lab_models = record {
  account = [];
  cloudspace = lab ∷ [];
  vmachine = [];
  disk = [];
  size = [];
  stack = [];
  externalnetwork = [];
  networkids = [];
}

abbrev lab_rule : Rule
lab_rule = record {
  from_addr = 9;
  from_port = 22;
  to_addr = 5;
  to_port = 22;
  protocol = some Protocol.tcp;
}

abbrev lab_wall : VirtualFirewall
lab_wall = record { guid = 4; gid = 7; nid = some 1; domain = 2; rules = lab_rule ∷ [] }

abbrev lab_cloud : Cloud
lab_cloud = record { models = lab_models; vfw = lab_wall ∷ [] }

abbrev one_nic : Models → ℕ → Result (List Nic)
one_nic models k =
    ok (record { ip_address = some 5; mac_address = 1; type = NicType.bridge; pool_id = none } ∷ [])

abbrev job_ok : VirtualFirewall → Option Bool
job_ok fw = some true

lab_created : (create one_nic job_ok 2 (some 9) 80 3 8080 (some Protocol.tcp) lab_cloud).0 ≡ ok true
unfolding create checked self_check_duplicate or_unavailable fw_forward_create get_cloudspace
    local_ip check_public_ip fw_list fw_forward_list
lab_created = refl

create_guards_example :
    (cs : Cloudspace) × (get (λ (c : Cloudspace). c.id) 2 lab_models.cloudspace ≡ some cs)
    × (cs.status ≡ CloudspaceStatus.deployed)
    × (1 ≤ 80)
    × (80 ≤ 65535)
    × (1 ≤ 8080)
    × (8080 ≤ 65535)
    × (ip : ℕ) × (some 9 ≡ some ip)
    × (prefixlen : ℕ) × (cs.externalnetworkip ≡ some (ip, prefixlen))
    × (nics : List Nic) × (one_nic lab_models 3 ≡ ok nics)
    × (destip : ℕ) × (local_ip nics ≡ some destip)
create_guards_example =
    create_guards one_nic job_ok 2 (some 9) 80 3 8080 (some Protocol.tcp) lab_cloud true lab_created

create-HasUniqueRules_example :
    HasUniqueRules 4 (create one_nic job_ok 2 (some 9) 80 3 8080 (some Protocol.tcp) lab_cloud).1
create-HasUniqueRules_example =
    create-HasUniqueRules one_nic job_ok 4 2 (some 9) 80 3 8080 (some Protocol.tcp) lab_cloud
      (lab_wall, refl, (refl, tt))

abbrev second_rule : Rule
second_rule = record lab_rule { from_port = 80; to_addr = 6 }

abbrev second : VMachine
second = record {
  id = 3;
  name = "second";
  cloudspace_id = 2;
  size_id = 1;
  image_id = 1;
  disks = [];
  nics =
      record { ip_address = some 6; mac_address = 2; type = NicType.bridge; pool_id = none } ∷ [];
  status = MachineStatus.running;
  stack_id = 0;
  reference_id = 0;
  acl = [];
  is_virtual = true;
  clone_reference = 0;
}

abbrev two_rules : Cloud
two_rules = record {
  models = record lab_models { vmachine = second ∷ [] };
  vfw = record lab_wall { rules = lab_rule ∷ second_rule ∷ [] } ∷ [];
}

-- A rule as it is shown under an id, with the second machine.
abbrev shown_at : ℕ → Forward
shown_at id = record {
  id = id;
  rule = second_rule;
  machine_id = some 3;
  shown_protocol = Protocol.tcp;
}

abbrev shown_first : Forward
shown_first = record { id = 0; rule = lab_rule; machine_id = none; shown_protocol = Protocol.tcp }

-- The list of the machine shows its rule under the id 0, which is that of the other rule.
numbered_anew : (list_rules 2 (some 3) two_rules).0 ≡ ok (shown_at 0 ∷ [])
unfolding list_rules get_machine get_vmachine get_cloudspace local_ip fw_list fw_forward_list
    process_list
numbered_anew = refl

shows_both : list_rules 2 none two_rules ≡ (ok (shown_first ∷ shown_at 1 ∷ []), two_rules)
unfolding list_rules get_machine get_cloudspace fw_list fw_forward_list process_list
shows_both = refl

list_rules-rule_at_example :
    (rules : List Rule) × ((stored_rules 2 two_rules).0 ≡ ok rules)
    × (rule_at (pos 1) rules ≡ ok second_rule)
list_rules-rule_at_example =
    list_rules-rule_at 2 two_rules two_rules (shown_first ∷ shown_at 1 ∷ []) 1 (shown_at 1)
      shows_both refl
