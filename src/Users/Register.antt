-- ===== src/Users/Register.antt =====
-- `sendInviteLink`'s token, `isValidInviteUserToken` and `registerInvitedUser` of
-- apps/cloudbroker/base/cloudapi__users, and `updateResourceInvitations` of
-- apps/cloudbroker/cloudbrokerlib/cloudbroker.py. The user manager of the portal is the parameter
-- `create_user`: what it answers, and the users that it leaves.
use Prim.Native.Char.{code}
use openvcloud.Prelude.{
  ℕ, String, Bool, true, false, not, ◌||◌, Option, none, some, List, [], ◌∷◌, ◌==◌, str_eq, any,
  filter, find?, ◌++◌,
}
use openvcloud.Result.{
  Result, precondition_failed, bad_request, python_error, Exec, ◌>>=◌, ◌>>◌, pure, raise, lift,
  or_raise, raise_if, gets, modify,
}
use openvcloud.Models.{Ace, AceStatus, Account, Cloudspace, VMachine, Models}
use openvcloud.Models.Table.{get, set, delete, each}
use openvcloud.Accounts.{account_id_of}
use openvcloud.Machines.{vm_id, set_machine}
use openvcloud.Users.{PortalUser, InviteToken, Portal, Answer, invite_id}

-- The query {'acl.userGroupId': emailaddress}
abbrev pub invited : String → List Ace → Bool
invited email = any (λ ace. str_eq ace.user_group_id email)

-- The loop over the entries, up to its `break`
unfoldable pub confirm_first : String → String → List Ace → List Ace
confirm_first username email [] = []
confirm_first username email (ace ∷ acl) = elim (str_eq ace.user_group_id email) [
  | true ↦ record ace { user_group_id = username; status = AceStatus.confirmed } ∷ acl
  | false ↦ ace ∷ confirm_first username email acl
]

abbrev pub confirm_account : String → String → Account → Account
confirm_account username email a = record a { acl = confirm_first username email a.acl }

abbrev pub confirm_cloudspace : String → String → Cloudspace → Cloudspace
confirm_cloudspace username email cs = record cs { acl = confirm_first username email cs.acl }

abbrev pub cloudspace_id_of : Cloudspace → ℕ
cloudspace_id_of cs = cs.id

-- `cloudspaceobj` after its loop: the last object, if there was one
unfoldable pub last_acl : String → String → List Cloudspace → Option (List Ace)
unfolding confirm_first
last_acl username email [] = none
last_acl username email (cs ∷ []) = some (confirm_first username email cs.acl)
last_acl username email (cs ∷ more ∷ spaces) = last_acl username email (more ∷ spaces)

abbrev save_if : Bool → VMachine → Exec Models (Unit {0})
save_if true vm = set_machine vm
save_if false vm = pure tt

-- The loop over the machines goes over the entries of `cloudspaceobj`, an unbound name where there is
-- none, and stores the machines as they are.
unfoldable pub confirm_machines :
    String → String → Option (List Ace) → List VMachine → Exec Models (Unit {0})
unfolding confirm_first
confirm_machines username email acl [] = pure tt
confirm_machines username email none (vm ∷ machines) = raise python_error
confirm_machines username email (some acl) (vm ∷ machines) = do
  obj ← λ models. or_raise (get vm_id vm.id models.vmachine) python_error models
  save_if (invited email acl) obj
  confirm_machines username email (some (confirm_first username email acl)) machines

unfoldable pub has_comma : String → Bool
has_comma String.[] = false
has_comma (String.◌∷◌ c s) = code c == b',' || has_comma s

-- `updateResourceInvitations`
unfoldable pub update_resource_invitations : String → String → Exec Models (Unit {0})
unfolding has_comma confirm_first last_acl confirm_machines
update_resource_invitations username email = do
  raise_if (has_comma email) bad_request
  modify λ models. record models {
    account =
        each account_id_of (confirm_account username email)
          (filter (λ a. invited email a.acl) models.account) models.account;
  }
  spaces ← gets (λ models. filter (λ cs. invited email cs.acl) models.cloudspace)
  modify λ models. record models {
    cloudspace = each cloudspace_id_of (confirm_cloudspace username email) spaces models.cloudspace;
  }
  machines ← gets (λ models. filter (λ vm. invited email vm.acl) models.vmachine)
  confirm_machines username email (last_acl username email spaces) machines

unfoldable pub store_invite : Option InviteToken → String → ℕ → ℕ → Exec Portal (Unit {0})
store_invite (some t) email key now = modify λ portal. record portal {
  invites = set invite_id (record t { last_invitation_time = now }) portal.invites;
}
store_invite none email key now = modify λ portal. record portal {
  invites = portal.invites ++ record { id = key; email = email; last_invitation_time = now } ∷ [];
}

-- `sendInviteLink`; `is_address` is the match of the pattern of addresses, `key` a new random token,
-- and `mail` whether the e-mail can be sent.
unfoldable pub send_invite_link : (String → Bool) → String → ℕ → ℕ → Result Bool → Exec Portal Bool
unfolding store_invite
send_invite_link is_address email key now mail = do
  raise_if (not (is_address email)) precondition_failed
  existing ← gets (λ portal. find? (λ (t : InviteToken). str_eq t.email email) portal.invites)
  store_invite existing email key now
  lift mail

abbrev on_models : {A : Type 0} → Exec Models A → Exec Portal A
on_models m portal = let (r, left) = m portal.models in (r, record portal { models = left })

-- `isValidInviteUserToken`
unfoldable pub is_valid_invite : ℕ → String → Exec Portal (Unit {0})
is_valid_invite key email = do
  token ← λ portal. or_raise (get invite_id key portal.invites) bad_request portal
  raise_if (not (str_eq token.email email)) bad_request

abbrev pub UserManager : Type 0
UserManager = String → String → String → List PortalUser → Result Bool × List PortalUser

module _ (create_user : UserManager) where
  abbrev make_user : String → String → String → Exec Portal Bool
  make_user name password email portal =
      let (r, users) = create_user name password email portal.users in
      (r, record portal { users = users })

  unfoldable pub welcome : Bool → ℕ → String → String → Exec Portal (Unit {0})
  unfolding update_resource_invitations
  welcome false key email name = pure tt
  welcome true key email name = do
    on_models (update_resource_invitations name email)
    modify λ portal. record portal { invites = delete invite_id key portal.invites }

  -- `registerInvitedUser`
  unfoldable pub register_invited_user : ℕ → String → String → String → String → Exec Portal Answer
  unfolding is_valid_invite welcome
  register_invited_user key email name password confirmation = do
    is_valid_invite key email
    raise_if (str_eq password "") bad_request
    raise_if (not (str_eq password confirmation)) bad_request
    created ← make_user name password email
    welcome created key email name
    pure Answer.registered
