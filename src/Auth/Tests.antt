-- ===== src/Auth/Tests.antt =====
-- A store with one account, one cloudspace and one machine, and the guard at work on it.
use openvcloud.Prelude.{
  ℕ, String, ◌≡◌, refl, true, false, Option, none, some, [], ◌∷◌, str_eq, if◌then◌else◌, ◌⊎◌, mem,
  arith,
}
use openvcloud.Result.{ok, err, forbidden, pure}
use openvcloud.Models.{
  Rights, Ace, AceType, AceStatus, Account, Cloudspace, VMachine, Models, AccountStatus,
  CloudspaceStatus, MachineStatus, Limits,
}
use openvcloud.Auth.{
  Auth, UserInfo, Kwargs, in_groups, is_authorized, guarded, expand_acl, expand_acl_from_account,
  expand_acl_from_cloudspace, expand_acl_from_v_machine, applies,
}
use openvcloud.Auth.Expanded.{Carried, mem-expand_acl}
use openvcloud.Auth.Grants.{Granted}
use openvcloud.Prelude.{◌↔◌}
use openvcloud.Auth.Soundness.{is_authorized-Granted}
use openvcloud.Auth.Status.{is_authorized_status}
use openvcloud.Auth.Inherited.{account_rights_flow_down}

abbrev admin_rights : Rights
admin_rights = b'A' ∷ b'R' ∷ b'C' ∷ b'X' ∷ b'D' ∷ b'U' ∷ []

abbrev alice_ace : Ace
alice_ace = record {
  user_group_id = "alice";
  type = AceType.user;
  right = admin_rights;
  status = AceStatus.confirmed;
}

abbrev no_limits : Limits
no_limits _ = none

abbrev acme : Account
acme = record {
  id = 1;
  name = "acme";
  acl = alice_ace ∷ [];
  status = AccountStatus.confirmed;
  resource_limits = no_limits;
  send_access_emails = true;
}

abbrev space : Cloudspace
space = record {
  id = 2;
  name = "space";
  account_id = 1;
  gid = 7;
  acl = [];
  status = CloudspaceStatus.deployed;
  resource_limits = no_limits;
  network_id = none;
  externalnetwork_id = none;
  externalnetworkip = none;
  allowed_vm_sizes = [];
}

abbrev vm : VMachine
vm = record {
  id = 3;
  name = "vm";
  cloudspace_id = 2;
  size_id = 1;
  image_id = 1;
  disks = [];
  nics = [];
  status = MachineStatus.running;
  stack_id = 1;
  reference_id = 1;
  acl = [];
  is_virtual = true;
  clone_reference = 0;
}

abbrev store : Models
store = record {
  account = acme ∷ [];
  cloudspace = space ∷ [];
  vmachine = vm ∷ [];
  disk = [];
  size = [];
  stack = [];
  externalnetwork = [];
  networkids = [];
}

abbrev users : String → Option UserInfo
users name =
    if str_eq name "alice"
    then some (record { active = true; groups = "user" ∷ [] })
    else some (record { active = true; groups = [] })

-- @authenticator.auth(acl={'machine': set('X')})
abbrev needs_x : Auth
needs_x = record { account = none; cloudspace = none; machine = some (b'X' ∷ []); level = none }

alice_passes :
    is_authorized users needs_x store "alice" (some acme) (some space) (some vm) ≡ ok true
unfolding is_authorized expand_acl applies
alice_passes = refl

bob_fails : is_authorized users needs_x store "bob" (some acme) (some space) (some vm) ≡ ok false
unfolding is_authorized expand_acl applies
bob_fails = refl

abbrev on_vm : Kwargs
on_vm = record { machine_id = some 3; disk_id = none; cloudspace_id = none; account_id = none }

bob_is_refused :
    guarded {A = ℕ} users needs_x (some "bob") on_vm (pure 5) store ≡ (err forbidden, store)
unfolding guarded expand_acl applies
bob_is_refused = refl

mem-expand_acl_example :
    (mem b'X' (expand_acl "alice" [] (alice_ace ∷ [])) ≡ true)
    ↔ Carried b'X' "alice" [] (alice_ace ∷ [])
mem-expand_acl_example = mem-expand_acl b'X' "alice" [] (alice_ace ∷ [])

is_authorized-Granted_example :
    (u : UserInfo) × (users "alice" ≡ some u)
    × (u.active ≡ true)
    × ((in_groups "admin" u.groups ≡ true)
        ⊎ Granted needs_x store "alice" u.groups (some acme) (some space) (some vm))
is_authorized-Granted_example =
    is_authorized-Granted users needs_x store "alice" (some acme) (some space) (some vm)
      alice_passes

is_authorized_status_example : acme.status ≡ AccountStatus.confirmed
is_authorized_status_example =
    is_authorized_status users needs_x store "alice"
      (record { active = true; groups = "user" ∷ [] }) acme (some space) (some vm) refl refl
      (record {
        at_account = λ r e. ground arith;
        at_cloudspace = λ r e. ground arith;
        at_machine = λ r e. ground arith;
      })
      alice_passes

granted_x : mem b'X' (expand_acl_from_account "alice" [] acme) ≡ true
unfolding expand_acl_from_account expand_acl applies
granted_x = refl

account_rights_flow_down_example :
    (on_cloudspace on_machine : Rights) × (expand_acl_from_cloudspace needs_x store "alice" [] space
      ≡ ok on_cloudspace)
    × (expand_acl_from_v_machine needs_x store "alice" [] vm ≡ ok on_machine)
    × (mem b'X' on_cloudspace ≡ true)
    × (mem b'X' on_machine ≡ true)
account_rights_flow_down_example =
    account_rights_flow_down needs_x store "alice" [] b'X' acme space vm refl refl granted_x
