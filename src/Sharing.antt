-- ===== src/Sharing.antt =====
-- Who has access to a cloudspace and to a machine: the access lists of
-- apps/cloudbroker/cloudbrokerlib/authenticator.py with what is inherited, and the users of
-- apps/cloudbroker/base/cloudapi__cloudspaces and apps/cloudbroker/base/cloudapi__machines.
pub mod Levels
pub mod Machines
pub mod Tests
use openvcloud.Prelude.{
  ℕ, String, Bool, true, false, not, ◌&&◌, ◌||◌, Option, none, some, List, [], ◌∷◌, ◌++◌, str_eq,
  any, map, subset, same_set, ◌==◌, if◌then◌else◌,
}
use openvcloud.Result.{
  Error, Result, ok, err, bad_request, not_found, conflict, python_error, bind, Exec, ◌>>=◌, ◌>>◌,
  pure, raise, lift, or_raise, raise_if, gets, modify, continue,
}
use openvcloud.Models.{
  Rights, Ace, AceType, AceStatus, Account, AccountStatus, Cloudspace, CloudspaceStatus, VMachine,
  Models,
}
use openvcloud.Models.Table.{get, update}
use openvcloud.Accounts.{SystemUser, check_user, is_valid_role, is_for, is_user, pull_user}

-- The value of the access dictionaries, whose keys are user ids. A set of rights is a list.
pub record Entry : Type 0 where
  pub right : Rights
  pub account_right : Option Rights
  pub cloudspace_right : Option Rights
  pub can_be_deleted : Bool
  pub status : AceStatus

-- A dictionary is its lookup.
abbrev pub Acl : Type 0
Acl = String → Option Entry

abbrev pub own : String → Ace → Bool
own u ace = is_user ace && is_for u ace

-- `for ace in acl: if ace.type == 'U': result[ace.userGroupId] = …`: the last entry of a user stays.
pub user_entries : (Ace → Entry) → List Ace → Acl
user_entries f [] u = none
user_entries f (ace ∷ acl) u = elim (user_entries f acl u) [
  | some e ↦ some e
  | none ↦ if own u ace then some (f ace) else none
]

abbrev plain : Ace → Entry
plain ace = record {
  right = ace.right;
  account_right = none;
  cloudspace_right = none;
  can_be_deleted = true;
  status = ace.status;
}

abbrev inherits : Account → Bool
inherits a = elim a.status [
  | AccountStatus.destroyed ↦ false
  | AccountStatus.destroying ↦ false
  | _ ↦ true
]

abbrev pub lives : Cloudspace → Bool
lives cs = elim cs.status [
  | CloudspaceStatus.destroyed ↦ false
  | CloudspaceStatus.destroying ↦ false
  | _ ↦ true
]

-- `getAccountAcl`
pub get_account_acl : Models → ℕ → Result Acl
unfolding user_entries
get_account_acl models k = elim (get (λ (a : Account). a.id) k models.account) [
  | none ↦ err python_error
  | some a ↦ ok (
      if inherits a
      then user_entries (λ ace. record (plain ace) { account_right = some ace.right }) a.acl
      else λ u. none)
]

merge_account : Option Entry → Option Entry → Option Entry
merge_account none entry = entry
merge_account (some ace) none = some (record ace { can_be_deleted = false })
merge_account (some ace) (some e) = some (record e {
  can_be_deleted = false;
  right = e.right ++ ace.right;
  account_right = ace.account_right;
})

-- `getCloudspaceAcl`
pub get_cloudspace_acl : Models → ℕ → Result Acl
unfolding get_account_acl user_entries merge_account
get_cloudspace_acl models k = elim (get (λ (c : Cloudspace). c.id) k models.cloudspace) [
  | none ↦ err python_error
  | some cs ↦
      if lives cs
      then (bind (get_account_acl models cs.account_id) λ inherited. ok (λ u.
          merge_account (inherited u) (
            user_entries (λ ace. record (plain ace) { cloudspace_right = some ace.right }) cs.acl
              u)))
      else ok (λ u. none)
]

merge_cloudspace : Option Entry → Option Entry → Option Entry
merge_cloudspace none entry = entry
merge_cloudspace (some ace) none = some (record ace { can_be_deleted = false })
merge_cloudspace (some ace) (some e) =
    some (record e { can_be_deleted = false; right = e.right ++ ace.right })

-- `getVMachineAcl`
pub get_v_machine_acl : Models → ℕ → Result Acl
unfolding get_cloudspace_acl user_entries merge_cloudspace
get_v_machine_acl models k = elim (get (λ (m : VMachine). m.id) k models.vmachine) [
  | none ↦ err python_error
  | some vm ↦
      bind (get_cloudspace_acl models vm.cloudspace_id)
        λ inherited. ok (λ u. merge_cloudspace (inherited u) (user_entries plain vm.acl u))
]

abbrev pub has_entry : Option Entry → Bool
has_entry none = false
has_entry (some e) = true

abbrev pub id_of_cloudspace : Cloudspace → ℕ
id_of_cloudspace c = c.id

abbrev pub id_of_machine : VMachine → ℕ
id_of_machine m = m.id

pub update_cloudspace_acl : ℕ → (List Ace → List Ace) → Exec Models (Unit {0})
update_cloudspace_acl k f = modify λ models. record models {
  cloudspace = update id_of_cloudspace k (λ c. record c { acl = f c.acl }) models.cloudspace;
}

pub update_machine_acl : ℕ → (List Ace → List Ace) → Exec Models (Unit {0})
update_machine_acl k f = modify λ models. record models {
  vmachine = update id_of_machine k (λ m. record m { acl = f m.acl }) models.vmachine;
}

abbrev pub new_ace : String → Rights → AceStatus → Ace
new_ace u accesstype userstatus = record {
  user_group_id = u;
  type = AceType.user;
  right = accesstype;
  status = userstatus;
}

-- `_addACE` of the cloudspaces
pub add_cloudspace_ace : ℕ → String → Rights → AceStatus → Exec Models Bool
unfolding is_valid_role get_cloudspace_acl update_cloudspace_acl
add_cloudspace_ace k u accesstype userstatus = do
  lift (is_valid_role accesstype)
  cloudspaceacl ← λ models. lift (get_cloudspace_acl models k) models
  raise_if (has_entry (cloudspaceacl u)) bad_request
  update_cloudspace_acl k (λ acl. acl ++ new_ace u accesstype userstatus ∷ [])
  pure true

-- `set(accesstype) == set(useracl[…])` and `.issubset`, on a right that may be absent
abbrev pub equals_right : Rights → Option Rights → Bool
equals_right accesstype none = false
equals_right accesstype (some r) = same_set accesstype r

abbrev pub within_right : Rights → Option Rights → Bool
within_right accesstype none = false
within_right accesstype (some r) = subset accesstype r

grant_cloudspace : Bool → Bool → ℕ → String → Rights → AceStatus → Exec Models Bool
unfolding update_cloudspace_acl pull_user
grant_cloudspace true within k u accesstype userstatus = do
  update_cloudspace_acl k (pull_user u)
  pure false
grant_cloudspace false true k u accesstype userstatus = raise conflict
grant_cloudspace false false k u accesstype userstatus = do
  update_cloudspace_acl k (pull_user u)
  update_cloudspace_acl k (λ acl. acl ++ new_ace u accesstype userstatus ∷ [])
  pure true

-- `_updateACE` of the cloudspaces
pub update_cloudspace_ace : ℕ → String → Rights → AceStatus → Exec Models Bool
unfolding is_valid_role get_cloudspace_acl grant_cloudspace
update_cloudspace_ace k u accesstype userstatus = do
  lift (is_valid_role accesstype)
  cloudspace_acl ← λ models. lift (get_cloudspace_acl models k) models
  useracl ← or_raise (cloudspace_acl u) not_found
  grant_cloudspace (equals_right accesstype useracl.account_right)
      (within_right accesstype useracl.account_right) k u accesstype userstatus

-- The status of the user whom `updateUser` finds or not.
pub status_of : List SystemUser → String → AceStatus
status_of users u =
    if any (λ (s : SystemUser). str_eq s.id u) users then AceStatus.confirmed else AceStatus.invited

-- `updateUser` of the cloudspaces
pub update_cloudspace_user : List SystemUser → ℕ → String → Rights → Exec Models Bool
unfolding update_cloudspace_ace status_of
update_cloudspace_user users k u accesstype =
    update_cloudspace_ace k u accesstype (status_of users u)

abbrev pulled_cloudspace : ℕ → String → Models → Bool
pulled_cloudspace k u models = elim (get id_of_cloudspace k models.cloudspace) [
  | none ↦ false
  | some c ↦ any (own u) c.acl
]

-- `deleteUser` of the cloudspaces
pub delete_cloudspace_user : ℕ → String → Bool → Exec Models Bool
unfolding update_cloudspace_acl pull_user
delete_cloudspace_user k u recursivedelete = do
  found ← gets (pulled_cloudspace k u)
  update_cloudspace_acl k (pull_user u)
  raise_if (not found) not_found
  modify λ models. record models {
    vmachine =
        map
          (λ vm.
            if recursivedelete && vm.cloudspace_id == k
            then record vm { acl = pull_user u vm.acl }
            else vm)
          models.vmachine;
  }
  pure true

-- `try: sendShareResourceEmail(…) except: deleteUser(…); raise`
cloudspace_share_or_undo : Result (Unit {0}) → ℕ → String → Exec Models Bool
unfolding delete_cloudspace_user
cloudspace_share_or_undo (ok _) k u = pure true
cloudspace_share_or_undo (err e) k u = delete_cloudspace_user k u false >> raise e

-- `addUser` of the cloudspaces
pub add_cloudspace_user :
    List SystemUser
    → (SystemUser → ℕ → Rights → Result (Unit {0}))
    → ℕ
    → String
    → Rights
    → Exec Models Bool
unfolding check_user add_cloudspace_ace cloudspace_share_or_undo
add_cloudspace_user users send_email k u accesstype = do
  user ← or_raise (check_user users u false) not_found
  add_cloudspace_ace k user.id accesstype AceStatus.confirmed
  cloudspace_share_or_undo (send_email user k accesstype) k user.id
