-- ===== src/Accounts.antt =====
-- apps/cloudbroker/base/cloudapi__accounts: who has access to an account, with the roles and the
-- users of apps/cloudbroker/cloudbrokerlib/cloudbroker.py. Whether the e-mail
-- about a shared resource, which is sent through the portal, raises is the parameter `send_email`.
pub mod Admins
pub mod Access
pub mod Requests
pub mod Flags
pub mod Tests
use openvcloud.Prelude.{
  ℕ, zero, suc, String, Bool, true, false, not, ◌&&◌, ◌||◌, Option, none, some, List, [], ◌∷◌, ◌++◌,
  str_eq, any, filter, find?, same_set, ◌==◌, map, length, leb, if◌then◌else◌,
}
use openvcloud.Result.{
  Error, Result, ok, err, not_found, bad_request, python_error, Exec, ◌>>=◌, ◌>>◌, pure, raise,
  lift, gets, or_raise, modify, raise_if,
}
use openvcloud.Models.{Rights, Ace, AceType, AceStatus, Account, Cloudspace, VMachine, Models}
use openvcloud.Models.Table.{get, exists, update}

-- A user of the system namespace.
pub record SystemUser : Type 0 where
  pub id : String
  pub emails : List String
  pub active : Bool

-- `CloudBroker.checkUser`: a user with the name or with the e-mail address.
unfoldable pub check_user : List SystemUser → String → Bool → Option SystemUser
check_user users username activeonly =
    find?
      (λ u.
        (str_eq u.id username || any (λ e. str_eq e username) u.emails)
        && (not activeonly || u.active))
      users

pub data Role : Type 0 where
  read read_write admin : Role

-- set('RCX') and set('ARCXDU')
abbrev pub write_rights : Rights
write_rights = b'R' ∷ b'C' ∷ b'X' ∷ []

abbrev pub admin_rights : Rights
admin_rights = b'A' ∷ b'R' ∷ b'C' ∷ b'X' ∷ b'D' ∷ b'U' ∷ []

-- accessrights == 'R'
unfoldable pub is_r : Rights → Bool
is_r (c ∷ []) = c == b'R'
is_r _ = false

unfoldable pub is_valid_role : Rights → Result Role
unfolding is_r
is_valid_role accessrights =
    if is_r accessrights
    then ok Role.read
    else if same_set accessrights write_rights
    then ok Role.read_write
    else if same_set accessrights admin_rights
    then ok Role.admin
    else err bad_request

abbrev pub is_admin : Ace → Bool
is_admin ace = same_set ace.right admin_rights

-- The second argument holds the other entries of the list that `userace` stands in.
pub is_account_user_deletable : Ace → List Ace → Bool
is_account_user_deletable userace others = if is_admin userace then any is_admin others else true

abbrev pub is_for : String → Ace → Bool
is_for user_id ace = str_eq ace.user_group_id user_id

-- The loop that looks for a user's entry: the first such entry, and the others.
pass_by : Ace → Option (Ace × List Ace) → Option (Ace × List Ace)
pass_by ace none = none
pass_by ace (some (found, others)) = some (found, ace ∷ others)

pub find_ace : String → List Ace → Option (Ace × List Ace)
unfolding pass_by
find_ace user_id [] = none
find_ace user_id (ace ∷ acl) =
    let rest = pass_by ace (find_ace user_id acl) in
    if is_for user_id ace then some (ace, acl) else rest

-- {'$pull': {'acl': {'type': 'U', 'userGroupId': userId}}}
abbrev pub is_user : Ace → Bool
is_user ace = elim ace.type [ AceType.user ↦ true | AceType.group ↦ false ]

unfoldable pub pull_user : String → List Ace → List Ace
pull_user user_id = filter (λ ace. not (is_user ace && is_for user_id ace))

-- {'$set': {'acl.$.right': accesstype}} at the first entry of the user
pub set_right : String → Rights → List Ace → List Ace
set_right user_id accesstype [] = []
set_right user_id accesstype (ace ∷ acl) =
    if is_for user_id ace
    then record ace { right = accesstype } ∷ acl
    else ace ∷ set_right user_id accesstype acl

abbrev pub account_id_of : Account → ℕ
account_id_of a = a.id

-- `models.account.get(accountId)`
pub get_account : ℕ → Exec Models Account
get_account k models = or_raise (get account_id_of k models.account) python_error models

pub account_exists : ℕ → Exec Models (Unit {0})
account_exists k models = raise_if (not (exists account_id_of k models.account)) not_found models

pub update_acl : ℕ → (List Ace → List Ace) → Exec Models (Unit {0})
update_acl k f = modify λ models. record models {
  account = update account_id_of k (λ a. record a { acl = f a.acl }) models.account;
}

pub add_ace : ℕ → String → Rights → AceStatus → Exec Models Bool
unfolding get_account account_exists update_acl is_valid_role
add_ace account_id user_id accesstype userstatus = do
  account_exists account_id
  lift (is_valid_role accesstype)
  account ← get_account account_id
  raise_if (any (is_for user_id) account.acl) bad_request
  update_acl account_id λ acl.
      acl
      ++ record {
        user_group_id = user_id;
        type = AceType.user;
        right = accesstype;
        status = userstatus;
      }
        ∷ []
  pure true

-- The check before a user's entry is changed or removed.
pub check_deletable : String → List Ace → Exec Models (Unit {0})
unfolding find_ace is_account_user_deletable
check_deletable user_id acl = do
  (ace, others) ← or_raise (find_ace user_id acl) not_found
  raise_if (not (is_account_user_deletable ace others)) bad_request

pub update_user : ℕ → String → Rights → Exec Models Bool
unfolding get_account account_exists update_acl is_valid_role check_deletable set_right
update_user account_id user_id accesstype = do
  account_exists account_id
  lift (is_valid_role accesstype)
  account ← get_account account_id
  check_deletable user_id account.acl
  update_acl account_id (set_right user_id accesstype)
  pure true

-- What a recursive delete does to the cloudspaces of the account and to their machines.
abbrev in_account : ℕ → Cloudspace → Bool
in_account account_id cs = cs.account_id == account_id

pub pull_recursively : ℕ → String → Models → Models
unfolding pull_user
pull_recursively account_id user_id models =
    let owned = filter (in_account account_id) models.cloudspace in
    record models {
      cloudspace =
          map
            (λ cs.
              if in_account account_id cs then record cs { acl = pull_user user_id cs.acl } else cs)
            models.cloudspace;
      vmachine =
          map
            (λ vm.
              if any (λ (cs : Cloudspace). vm.cloudspace_id == cs.id) owned
              then record vm { acl = pull_user user_id vm.acl }
              else vm)
            models.vmachine;
    }

pub delete_user : ℕ → String → Bool → Exec Models Bool
unfolding get_account update_acl check_deletable pull_user pull_recursively
delete_user account_id user_id recursivedelete = do
  account ← get_account account_id
  check_deletable user_id account.acl
  update_acl account_id (pull_user user_id)
  modify (if recursivedelete then pull_recursively account_id user_id else λ models. models)
  pure true

-- `try: sendShareResourceEmail(…) except: deleteUser(…); raise`
pub share_or_undo : Result (Unit {0}) → ℕ → String → Exec Models Bool
unfolding delete_user
share_or_undo (ok _) account_id user_id = pure true
share_or_undo (err e) account_id user_id = delete_user account_id user_id false >> raise e

pub add_user :
    List SystemUser
    → (SystemUser → ℕ → Rights → Result (Unit {0}))
    → ℕ
    → String
    → Rights
    → Exec Models Bool
unfolding check_user add_ace share_or_undo
add_user users send_email account_id user_id accesstype = do
  user ← or_raise (check_user users user_id false) not_found
  add_ace account_id user.id accesstype AceStatus.confirmed
  share_or_undo (send_email user account_id accesstype) account_id user.id

-- A request of the account's user management.
pub data Request : Type 0 where
  add : ℕ → String → Rights → Request
  change : ℕ → String → Rights → Request
  remove : ℕ → String → Bool → Request

module _ (users : List SystemUser) (send_email : SystemUser → ℕ → Rights → Result (Unit {0})) where
  pub handle : Request → Exec Models Bool
  unfolding add_user update_user delete_user
  handle (add k u r) = add_user users send_email k u r
  handle (change k u r) = update_user k u r
  handle (remove k u recursivedelete) = delete_user k u recursivedelete

  -- The requests one after the other; an exception ends only its own request.
  pub serve : List Request → Models → Models
  unfolding handle
  serve [] models = models
  serve (r ∷ rs) models = serve rs (handle r models).1

-- `get`: the entries with their flag `canBeDeleted`. `ace in admins` is that `ace` is an admin.
pub can_be_deleted : List Ace → Ace → Bool
can_be_deleted acl ace = not (leb (length (filter is_admin acl)) 1 && is_admin ace)

pub flagged_acl : List Ace → List (Ace × Bool)
unfolding can_be_deleted
flagged_acl acl = map (λ ace. (ace, can_be_deleted acl ace)) acl
