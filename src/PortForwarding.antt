-- ===== src/PortForwarding.antt =====
-- apps/cloudbroker/base/cloudapi__portforwarding: the port forwarding rules of a cloudspace, kept
-- on its virtual firewall. `interfaces` is what `machines.get` answers on a machine, with the
-- addresses that the hypervisor knows; an address argument is `none` where `netaddr` refuses it.
pub mod Guards
pub mod ByMachine
pub mod Listed
pub mod Tests
use openvcloud.Prelude.{
  ℕ, zero, suc, ◌-◌, ◌<◌, Bool, true, false, not, ◌&&◌, ◌||◌, Option, none, some, List, [], ◌∷◌,
  ◌++◌, ◌==◌, ltb, leb, filter, map, find?, any, length, get_elem?, String, if◌then◌else◌,
}
use openvcloud.Prelude.Int.{ℤ, pos, negsuc}
use openvcloud.Result.{
  Error, Result, ok, err, bad_request, not_found, conflict, service_unavailable, python_error, Exec,
  ◌>>=◌, ◌>>◌, pure, raise, lift, or_raise, raise_if, gets, continue,
}
use openvcloud.Models.{Cloudspace, CloudspaceStatus, VMachine, MachineStatus, Nic, Models}
use openvcloud.Models.Table.{get}
use openvcloud.Firewall.{
  Protocol, Rule, VirtualFirewall, Cloud, eq_protocol, fw_forward_create, fw_forward_delete,
  fw_forward_list, fw_list,
}

pub get_cloudspace : ℕ → Exec Cloud Cloudspace
get_cloudspace k cloud =
    or_raise (get (λ (c : Cloudspace). c.id) k cloud.models.cloudspace) python_error cloud

get_vmachine : ℕ → Exec Cloud VMachine
get_vmachine k cloud =
    or_raise (get (λ (m : VMachine). m.id) k cloud.models.vmachine) python_error cloud

-- The first address of the interfaces that is not 'Undefined'.
pub local_ip : List Nic → Option ℕ
local_ip [] = none
local_ip (nic ∷ nics) = elim nic.ip_address [ none ↦ local_ip nics | some ip ↦ some ip ]

abbrev pub out_of_range : ℕ → Bool
out_of_range port = ltb 65535 port || ltb port 1

abbrev pub is_deployed : Cloudspace → Bool
is_deployed cs = elim cs.status [ CloudspaceStatus.deployed ↦ true | _ ↦ false ]

-- fw[0]
abbrev pub first {ℓ} : {A : Type ℓ} → List A → Option A
first [] = none
first (a ∷ rest) = some a

abbrev pub duplicates : ℕ → ℕ → Option Protocol → Rule → Bool
duplicates ip port protocol rule =
    (rule.from_addr == ip && rule.from_port == port) && eq_protocol rule.protocol protocol

-- `_selfcheckduplicate`
pub self_check_duplicate : ℕ → ℕ → ℕ → Option Protocol → Exec Cloud Bool
unfolding fw_forward_list
self_check_duplicate fw_id ip port protocol = do
  forwards ← fw_forward_list fw_id none
  pure (any (duplicates ip port protocol) forwards)

-- `cloudspace.externalnetworkip.split('/')[0] != publicIp`; `None` has no `split`
pub check_public_ip : Option (ℕ × ℕ) → ℕ → Result (Unit {0})
check_public_ip none ip = err python_error
check_public_ip (some (address, prefixlen)) ip = if address == ip then ok tt else err bad_request

-- `except:` around the call of the firewall
or_unavailable : Exec Cloud Bool → Exec Cloud Bool
or_unavailable m cloud =
    let (r, cloud') = m cloud in (elim r [ ok b ↦ ok b | err e ↦ err service_unavailable ], cloud')

module _ (interfaces : Models → ℕ → Result (List Nic)) where
  -- The part of `create` before the firewall is asked for its rules.
  pub checked : ℕ → Option ℕ → ℕ → ℕ → ℕ → Exec Cloud (VirtualFirewall × ℕ × ℕ)
  unfolding get_cloudspace local_ip check_public_ip fw_list
  checked cloudspace_id public_ip public_port machine_id local_port = do
    cloudspace ← get_cloudspace cloudspace_id
    fw ← fw_list cloudspace.gid cloudspace_id
    raise_if (out_of_range public_port) bad_request
    raise_if (out_of_range local_port) bad_request
    raise_if (not (is_deployed cloudspace)) bad_request
    vfw ← or_raise (first fw) not_found
    ip ← or_raise public_ip bad_request
    lift (check_public_ip cloudspace.externalnetworkip ip)
    nics ← λ cloud. lift (interfaces cloud.models machine_id) cloud
    destip ← or_raise (local_ip nics) not_found
    pure (vfw, ip, destip)

module _ (interfaces : Models → ℕ → Result (List Nic))
    (run_job : VirtualFirewall → Option Bool) where
  pub create : ℕ → Option ℕ → ℕ → ℕ → ℕ → Option Protocol → Exec Cloud Bool
  unfolding checked self_check_duplicate or_unavailable fw_forward_create
  create cloudspace_id public_ip public_port machine_id local_port protocol = do
    (vfw, ip, destip) ← checked interfaces cloudspace_id public_ip public_port machine_id local_port
    duplicate ← self_check_duplicate vfw.guid ip public_port protocol
    raise_if duplicate conflict
    or_unavailable (fw_forward_create run_job vfw.guid ip public_port destip local_port protocol)

-- `_getFirewallId`
get_firewall_id : ℕ → Exec Cloud ℕ
unfolding get_cloudspace fw_list
get_firewall_id cloudspace_id = do
  cloudspace ← get_cloudspace cloudspace_id
  fw ← fw_list cloudspace.gid cloudspace_id
  vfw ← or_raise (first fw) not_found
  pure vfw.guid

-- A rule as `list` shows it: its index, and the machine that has its local address.
pub record Forward : Type 0 where
  pub id : ℕ
  pub rule : Rule
  pub machine_id : Option ℕ
  pub shown_protocol : Protocol

abbrev has_address : ℕ → VMachine → Bool
has_address ip vm = any (λ nic. elim nic.ip_address [ none ↦ false | some a ↦ a == ip ]) vm.nics

abbrev is_destroyed : VMachine → Bool
is_destroyed vm = elim vm.status [ MachineStatus.destroyed ↦ true | _ ↦ false ]

-- `_process_list`
process_from : ℕ → List VMachine → List Rule → List Forward
process_from i machines [] = []
process_from i machines (r ∷ rules) =
    record {
      id = i;
      rule = r;
      machine_id = elim (find? (has_address r.to_addr) machines) [
        | none ↦ none
        | some vm ↦ some vm.id
      ];
      shown_protocol = elim r.protocol [ none ↦ Protocol.tcp | some p ↦ p ];
    }
    ∷ process_from (suc i) machines rules

pub process_list : List Rule → ℕ → Exec Cloud (List Forward)
unfolding process_from
process_list forwards cloudspace_id = gets λ cloud.
    process_from 0
      (filter (λ vm. vm.cloudspace_id == cloudspace_id && not (is_destroyed vm))
        cloud.models.vmachine)
      forwards

-- `forwards[id]` after `if not id < len(forwards)`: a negative index counts from the end, and one
-- that is too small is an IndexError.
pub rule_at : ℤ → List Rule → Result Rule
rule_at (pos i) forwards = elim (get_elem? forwards i) [ none ↦ err not_found | some r ↦ ok r ]
rule_at (negsuc n) forwards =
    if ltb n (length forwards)
    then (elim (get_elem? forwards (length forwards - suc n)) [
      | none ↦ err python_error
      | some r ↦ ok r
    ])
    else err python_error

-- `except exceptions.BaseError: raise` and `except: raise ServiceUnavailable`
abbrev pub wrapped : Error → Error
wrapped Error.python_error = service_unavailable
wrapped e = e

or_failed : {A : Type 0} → Exec Cloud A → Exec Cloud A
or_failed m cloud =
    let (r, cloud') = m cloud in (elim r [ ok b ↦ ok b | err e ↦ err (wrapped e) ], cloud')

module _ (run_job : VirtualFirewall → Option Bool) where
  -- `_delete` and `delete`
  delete_rule : ℕ → ℤ → Exec Cloud (List Forward)
  unfolding get_firewall_id fw_forward_list rule_at fw_forward_delete process_list
  delete_rule cloudspace_id id = do
    fw_id ← get_firewall_id cloudspace_id
    forwards ← fw_forward_list fw_id none
    forward ← lift (rule_at id forwards)
    fw_forward_delete run_job fw_id forward.from_addr forward.from_port forward.protocol true
    rest ← fw_forward_list fw_id none
    process_list rest cloudspace_id

  pub delete : ℕ → ℤ → Exec Cloud (List Forward)
  unfolding delete_rule or_failed
  delete cloudspace_id id = or_failed (delete_rule cloudspace_id id)

  -- `_deleteByPort` and `deleteByPort`
  delete_by_port_rule : ℕ → ℕ → ℕ → Option Protocol → Exec Cloud (List Forward)
  unfolding get_firewall_id fw_forward_delete fw_forward_list process_list
  delete_by_port_rule cloudspace_id public_ip public_port proto = do
    fw_id ← get_firewall_id cloudspace_id
    found ← fw_forward_delete run_job fw_id public_ip public_port proto true
    raise_if (not found) not_found
    rest ← fw_forward_list fw_id none
    process_list rest cloudspace_id

  pub delete_by_port : ℕ → ℕ → ℕ → Option Protocol → Exec Cloud Bool
  unfolding delete_by_port_rule or_failed
  delete_by_port cloudspace_id public_ip public_port proto = do
    or_failed (delete_by_port_rule cloudspace_id public_ip public_port proto)
    pure true

  delete_if : Bool → ℕ → Rule → Exec Cloud (Unit {0})
  unfolding delete_by_port_rule
  delete_if false cloudspace_id r = pure tt
  delete_if true cloudspace_id r = do
    delete_by_port_rule cloudspace_id r.from_addr r.from_port r.protocol
    pure tt

  -- The loop of `deleteByVM`
  delete_each : ℕ → ℕ → List Rule → Exec Cloud (Unit {0})
  unfolding delete_if
  delete_each cloudspace_id ip [] = pure tt
  delete_each cloudspace_id ip (r ∷ rules) = do
    delete_if (r.to_addr == ip) cloudspace_id r
    delete_each cloudspace_id ip rules

  delete_on : Option VirtualFirewall → ℕ → ℕ → Exec Cloud Bool
  unfolding fw_forward_list delete_each
  delete_on none cloudspace_id ip = pure true
  delete_on (some vfw) cloudspace_id ip = do
    forwards ← fw_forward_list vfw.guid none
    delete_each cloudspace_id ip forwards
    pure true

  delete_for : Option ℕ → ℕ → Exec Cloud Bool
  unfolding get_cloudspace fw_list delete_on
  delete_for none cloudspace_id = pure true
  delete_for (some ip) cloudspace_id = do
    cloudspace ← get_cloudspace cloudspace_id
    fw ← fw_list cloudspace.gid cloudspace_id
    delete_on (first fw) cloudspace_id ip

  -- `deleteByVM`
  unfoldable pub delete_by_vm : VMachine → Exec Cloud Bool
  unfolding local_ip delete_for
  delete_by_vm vm = delete_for (local_ip vm.nics) vm.cloudspace_id

  -- The local address in `update`: an unbound local where the machine has no interface.
  update_ip : List Nic → Result (Option ℕ)
  update_ip [] = ok none
  update_ip (nic ∷ nics) = elim nic.ip_address [ none ↦ err not_found | some ip ↦ ok (some ip) ]

  pub update : ℕ → ℤ → ℕ → ℕ → ℕ → ℕ → Option Protocol → Exec Cloud (List Forward)
  unfolding get_cloudspace fw_list fw_forward_list rule_at get_vmachine update_ip fw_forward_delete
      self_check_duplicate fw_forward_create process_list
  update cloudspace_id id public_ip public_port machine_id local_port protocol = do
    cloudspace ← get_cloudspace cloudspace_id
    fw ← fw_list cloudspace.gid cloudspace_id
    vfw ← or_raise (first fw) not_found
    forwards ← fw_forward_list vfw.guid none
    forward ← lift (rule_at id forwards)
    machine ← get_vmachine machine_id
    destip ← lift (update_ip machine.nics)
    fw_forward_delete run_job vfw.guid forward.from_addr forward.from_port forward.protocol true
    duplicate ← self_check_duplicate vfw.guid public_ip public_port protocol
    raise_if duplicate conflict
    ip ← or_raise destip python_error
    fw_forward_create run_job vfw.guid public_ip public_port ip local_port protocol
    rest ← fw_forward_list vfw.guid none
    process_list rest cloudspace_id
