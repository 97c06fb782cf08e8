-- ===== src/Auth.antt =====
-- apps/cloudbroker/cloudbrokerlib/authenticator.py: the decorator `auth` that guards the actors'
-- methods. Sets of rights are lists of letters, read up to their members. The portal's user
-- database (`j.core.portal.active.auth.getUserInfo`) is the parameter `get_user_info`.
pub mod Grants
pub mod Expanded
pub mod Soundness
pub mod Inherited
pub mod Status
pub mod Tests
use openvcloud.Prelude.{
  ℕ, zero, suc, String, Bool, true, false, not, ◌&&◌, ◌||◌, Option, none, some, List, [], ◌∷◌, ◌++◌,
  str_eq, any, subset, same_set, find?, mem, if◌then◌else◌,
}
use openvcloud.Result.{
  Result, ok, err, not_found, forbidden, python_error, bind, Exec, raise, continue,
}
use openvcloud.Models.{
  Rights, Ace, AceType, Account, Cloudspace, VMachine, Disk, Models, AccountStatus,
  CloudspaceStatus, MachineStatus,
}
use openvcloud.Models.Table.{get}

pub data Level : Type 0 where
  account cloudspace machine : Level

-- The required rights for each type of resource, and the level of the decorator.
pub record Auth : Type 0 where
  pub account : Option Rights
  pub cloudspace : Option Rights
  pub machine : Option Rights
  pub level : Option Level

pub record UserInfo : Type 0 where
  pub active : Bool
  pub groups : List String

-- set('R')
abbrev pub read_only : Rights
read_only = b'R' ∷ []

abbrev pub in_groups : String → List String → Bool
in_groups g groups = any (λ h. str_eq g h) groups

-- `ace` speaks of the user or of one of the user's groups.
pub applies : String → List String → Ace → Bool
applies username groups ace = elim ace.type [
  | AceType.user ↦ str_eq ace.user_group_id username
  | AceType.group ↦ in_groups ace.user_group_id groups
]

pub expand_acl : String → List String → List Ace → Rights
expand_acl username groups [] = []
expand_acl username groups (ace ∷ acl) =
    let rest = expand_acl username groups acl in
    if applies username groups ace then ace.right ++ rest else rest

pub expand_acl_from_account : String → List String → Account → Rights
expand_acl_from_account username groups acc = expand_acl username groups acc.acl

abbrev at_level : Option Level → Level → Bool
at_level none l = true
at_level (some Level.account) Level.account = true
at_level (some Level.cloudspace) Level.cloudspace = true
at_level (some Level.machine) Level.machine = true
at_level _ _ = false

-- The store raises on an id that it does not hold.
abbrev pub found {ℓ} : {A : Type ℓ} → Option A → Result A
found none = err python_error
found (some a) = ok a

module _ (self : Auth) (models : Models) (username : String) (groups : List String) where
  pub expand_acl_from_cloudspace : Cloudspace → Result Rights
  expand_acl_from_cloudspace cs =
      let fullacl =
        if at_level self.level Level.cloudspace then expand_acl username groups cs.acl else [] in
      bind (found (get (λ (a : Account). a.id) cs.account_id models.account))
        λ acc. ok (fullacl ++ expand_acl username groups acc.acl)

  pub expand_acl_from_v_machine : VMachine → Result Rights
  unfolding expand_acl_from_cloudspace
  expand_acl_from_v_machine vm =
      let fullacl =
        if at_level self.level Level.machine then expand_acl username groups vm.acl else [] in
      bind (found (get (λ (c : Cloudspace). c.id) vm.cloudspace_id models.cloudspace))
        λ cs. bind (expand_acl_from_cloudspace cs) λ rights. ok (fullacl ++ rights)

pub check_account_status : Rights → Account → Result (Unit {0})
check_account_status required acc = elim acc.status [
  | AccountStatus.destroyed ↦ err not_found
  | AccountStatus.confirmed ↦ ok tt
  | _ ↦ if same_set required read_only then ok tt else err forbidden
]

pub check_cloudspace_status : Rights → Cloudspace → Result (Unit {0})
check_cloudspace_status required cs = elim cs.status [
  | CloudspaceStatus.destroyed ↦ err not_found
  | CloudspaceStatus.virtual ↦ ok tt
  | CloudspaceStatus.deploying ↦ ok tt
  | CloudspaceStatus.deployed ↦ ok tt
  | _ ↦ if same_set required read_only then ok tt else err forbidden
]

-- The status checks of a granted request. `None.status` is an AttributeError.
check_statuses : Rights → Option Account → Option Cloudspace → Result Bool
unfolding check_account_status check_cloudspace_status
check_statuses required none cs = err python_error
check_statuses required (some acc) none =
    bind (check_account_status required acc) λ _. err python_error
check_statuses required (some acc) (some cs) =
    bind (check_account_status required acc)
      λ _. bind (check_cloudspace_status required cs) λ _. ok true

-- One `if` of `isAuthorized`: `next` is what follows it.
try_level : Rights → Result Rights → Result Bool → Result Bool → Result Bool
try_level required granted on_grant next =
    bind granted λ rights. if subset required rights then on_grant else next

module _ (self : Auth) (models : Models) (username : String) (groups : List String) where
  -- `if 'account' in self.acl and account`; the first argument is the entry of `self.acl`
  account_level : Option Rights → Option Account → Result Bool → Result Bool
  unfolding try_level check_account_status expand_acl_from_account
  account_level none acc next = next
  account_level (some required) none next = next
  account_level (some required) (some a) next =
      try_level required (ok (expand_acl_from_account username groups a))
        (bind (check_account_status required a) λ _. ok true) next

  cloudspace_level : Option Rights → Option Account → Option Cloudspace → Result Bool → Result Bool
  unfolding try_level check_statuses expand_acl_from_cloudspace
  cloudspace_level none acc cs next = next
  cloudspace_level (some required) acc none next = next
  cloudspace_level (some required) acc (some c) next =
      try_level required (expand_acl_from_cloudspace self models username groups c)
        (check_statuses required acc (some c)) next

  machine_level :
      Option Rights
      → Option Account
      → Option Cloudspace
      → Option VMachine
      → Result Bool
      → Result Bool
  unfolding try_level check_statuses expand_acl_from_v_machine
  machine_level none acc cs vm next = next
  machine_level (some required) acc cs none next = next
  machine_level (some required) acc cs (some m) next =
      try_level required (expand_acl_from_v_machine self models username groups m)
        (check_statuses required acc cs) next

  authorize_groups : Option Account → Option Cloudspace → Option VMachine → Result Bool
  unfolding account_level cloudspace_level machine_level
  authorize_groups acc cs vm =
      if in_groups "admin" groups
      then ok true
      else account_level self.account acc (
          cloudspace_level self.cloudspace acc cs (machine_level self.machine acc cs vm (ok false)))

authorize_user :
    Auth
    → Models
    → String
    → Option UserInfo
    → Option Account
    → Option Cloudspace
    → Option VMachine
    → Result Bool
unfolding authorize_groups
authorize_user self models username none acc cs vm = err forbidden
authorize_user self models username (some u) acc cs vm =
    if u.active then authorize_groups self models username u.groups acc cs vm else err forbidden

pub is_authorized :
    (String → Option UserInfo)
    → Auth
    → Models
    → String
    → Option Account
    → Option Cloudspace
    → Option VMachine
    → Result Bool
unfolding authorize_user
is_authorized get_user_info self models username acc cs vm =
    authorize_user self models username (get_user_info username) acc cs vm

-- The resource ids among a call's keyword arguments; `none` is an absent or a false one.
pub record Kwargs : Type 0 where
  pub machine_id : Option ℕ
  pub disk_id : Option ℕ
  pub cloudspace_id : Option ℕ
  pub account_id : Option ℕ

-- The account, the cloudspace and the machine that a call is about.
abbrev pub Resources : Type 0
Resources = Option Account × Option Cloudspace × Option VMachine

abbrev is_destroyed_machine : VMachine → Bool
is_destroyed_machine vm = elim vm.status [ MachineStatus.destroyed ↦ true | _ ↦ false ]

module _ (models : Models) where
  get_account : ℕ → Result Account
  get_account k = found (get (λ (a : Account). a.id) k models.account)

  get_cloudspace : ℕ → Result Cloudspace
  get_cloudspace k = found (get (λ (c : Cloudspace). c.id) k models.cloudspace)

  get_vmachine : ℕ → Result VMachine
  get_vmachine k = found (get (λ (m : VMachine). m.id) k models.vmachine)

  get_disk : ℕ → Result Disk
  get_disk k = found (get (λ (d : Disk). d.id) k models.disk)

  resources_of_machine : ℕ → Result Resources
  unfolding get_account get_cloudspace get_vmachine
  resources_of_machine k = bind (get_vmachine k) λ vm.
      bind (get_cloudspace vm.cloudspace_id)
        λ cs. bind (get_account cs.account_id) λ acc. ok (some acc, some cs, some vm)

  -- The first machine that is not destroyed and has the disk, if there is one.
  resources_of_disk : ℕ → Result Resources
  unfolding get_account get_cloudspace get_disk
  resources_of_disk k = bind (get_disk k) λ disk.
      elim (find? (λ vm. mem disk.id vm.disks && not (is_destroyed_machine vm)) models.vmachine) [
        | none ↦ bind (get_account disk.account_id) λ acc. ok (some acc, none, none)
        | some vm ↦
            bind (get_cloudspace vm.cloudspace_id)
              λ cs. bind (get_account disk.account_id) λ acc. ok (some acc, some cs, some vm)
      ]

  resources_of_cloudspace : ℕ → Result Resources
  unfolding get_account get_cloudspace
  resources_of_cloudspace k =
      bind (get_cloudspace k)
        λ cs. bind (get_account cs.account_id) λ acc. ok (some acc, some cs, none)

  resources_of_account : ℕ → Result Resources
  unfolding get_account
  resources_of_account k = bind (get_account k) λ acc. ok (some acc, none, none)

  pub resolve : Kwargs → Result Resources
  unfolding resources_of_machine resources_of_disk resources_of_cloudspace resources_of_account
  resolve kwargs = elim kwargs.machine_id [
    | some k ↦ resources_of_machine k
    | none ↦ elim kwargs.disk_id [
      | some k ↦ resources_of_disk k
      | none ↦ elim kwargs.cloudspace_id [
        | some k ↦ resources_of_cloudspace k
        | none ↦ elim kwargs.account_id [
          | some k ↦ resources_of_account k
          | none ↦ ok (none, none, none)
        ]
      ]
    ]
  ]

-- `if self.acl`
abbrev has_acl : Auth → Bool
has_acl self = elim self.account [
  | some _ ↦ true
  | none ↦ elim self.cloudspace [
    | some _ ↦ true
    | none ↦ elim self.machine [ some _ ↦ true | none ↦ false ]
  ]
]

module _ (get_user_info : String → Option UserInfo) (self : Auth) where
  -- `isAuthorized` on the resources of a call by a user.
  pub decide : Models → String → Kwargs → Result Bool
  unfolding resolve is_authorized
  decide models username kwargs =
      bind (if has_acl self then resolve models kwargs else ok (none, none, none))
        λ r. is_authorized get_user_info self models username r.0 r.1 r.2

refuse_or_call : {A : Type 0} → Bool → Exec Models A → Exec Models A
refuse_or_call true func = func
refuse_or_call false func = raise forbidden

-- The wrapper around a method `func`. `ctx` is the user of the session where the call came over
-- REST, and `none` where `ctx` is not among the arguments.
pub guarded :
    {A : Type 0} (get_user_info : String → Option UserInfo) (self : Auth)
    → Option String
    → Kwargs
    → Exec Models A
    → Exec Models A
unfolding decide refuse_or_call
guarded get_user_info self none kwargs func models = func models
guarded get_user_info self (some username) kwargs func models =
    continue (decide get_user_info self models username kwargs)
      (λ allowed. refuse_or_call allowed func) models
