-- ===== src/Sharing/Machines.antt =====
-- The users of a machine: apps/cloudbroker/base/cloudapi__machines. `bad_pull` is what the object
-- store answers to the `$pull` of `_updateACE` that names no list; no list changes there.
use openvcloud.Prelude.{
  ℕ, String, Bool, true, false, not, ◌&&◌, ◌||◌, Option, none, some, List, [], ◌∷◌, ◌++◌, any,
}
use openvcloud.Result.{
  Result, ok, err, bad_request, not_found, conflict, Exec, ◌>>=◌, ◌>>◌, pure, raise, lift, or_raise,
  raise_if, gets,
}
use openvcloud.Models.{Rights, AceStatus, Models}
use openvcloud.Models.Table.{get}
use openvcloud.Accounts.{SystemUser, check_user, is_valid_role, pull_user}
use openvcloud.Sharing.{
  own, has_entry, get_v_machine_acl, id_of_machine, update_machine_acl, new_ace, equals_right,
  within_right, status_of,
}

-- `_addACE`
pub add_machine_ace : ℕ → String → Rights → AceStatus → Exec Models Bool
unfolding is_valid_role get_v_machine_acl update_machine_acl
add_machine_ace k u accesstype userstatus = do
  lift (is_valid_role accesstype)
  vmachineacl ← λ models. lift (get_v_machine_acl models k) models
  raise_if (has_entry (vmachineacl u)) bad_request
  update_machine_acl k (λ acl. acl ++ new_ace u accesstype userstatus ∷ [])
  pure true

-- `_updateACE` refuses less than what the account or the cloudspace gives.
abbrev refused : Rights → Option Rights → Bool
refused accesstype r = not (equals_right accesstype r) && within_right accesstype r

module _ (bad_pull : Result (Unit {0})) where
  grant_machine : Bool → ℕ → String → Rights → AceStatus → Exec Models Bool
  unfolding update_machine_acl pull_user
  grant_machine true k u accesstype userstatus = do lift bad_pull; pure false
  grant_machine false k u accesstype userstatus = do
    update_machine_acl k (pull_user u)
    update_machine_acl k (λ acl. acl ++ new_ace u accesstype userstatus ∷ [])
    pure true

  -- `_updateACE`
  pub update_machine_ace : ℕ → String → Rights → AceStatus → Exec Models Bool
  unfolding is_valid_role get_v_machine_acl grant_machine
  update_machine_ace k u accesstype userstatus = do
    lift (is_valid_role accesstype)
    vmachine_acl ← λ models. lift (get_v_machine_acl models k) models
    useracl ← or_raise (vmachine_acl u) not_found
    raise_if (refused accesstype useracl.account_right) conflict
    raise_if (refused accesstype useracl.cloudspace_right) conflict
    grant_machine
        (equals_right accesstype useracl.account_right
          || equals_right accesstype useracl.cloudspace_right)
        k u accesstype userstatus

  -- `updateUser`
  pub update_machine_user : List SystemUser → ℕ → String → Rights → Exec Models Bool
  unfolding update_machine_ace status_of
  update_machine_user users k u accesstype = update_machine_ace k u accesstype (status_of users u)

abbrev pulled_machine : ℕ → String → Models → Bool
pulled_machine k u models = elim (get id_of_machine k models.vmachine) [
  | none ↦ false
  | some m ↦ any (own u) m.acl
]

-- `deleteUser`
pub delete_machine_user : ℕ → String → Exec Models Bool
unfolding update_machine_acl pull_user
delete_machine_user k u = do
  found ← gets (pulled_machine k u)
  update_machine_acl k (pull_user u)
  raise_if (not found) not_found
  pure true

machine_share_or_undo : Result (Unit {0}) → ℕ → String → Exec Models Bool
unfolding delete_machine_user
machine_share_or_undo (ok _) k u = pure true
machine_share_or_undo (err e) k u = delete_machine_user k u >> raise e

-- `addUser`
pub add_machine_user :
    List SystemUser
    → (SystemUser → ℕ → Rights → Result (Unit {0}))
    → ℕ
    → String
    → Rights
    → Exec Models Bool
unfolding check_user add_machine_ace machine_share_or_undo
add_machine_user users send_email k u accesstype = do
  user ← or_raise (check_user users u false) not_found
  add_machine_ace k user.id accesstype AceStatus.confirmed
  machine_share_or_undo (send_email user k accesstype) k user.id
