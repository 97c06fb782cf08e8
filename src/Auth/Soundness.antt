-- ===== src/Auth/Soundness.antt =====
-- `isAuthorized` of authenticator.py says yes only to administrators and to granted requests.
use openvcloud.Prelude.{
  String, ◌≡◌, ◌⊎◌, refl, Bool, true, false, Option, none, some, List, arith, subset, inl, inr, sym,
  subst, Bool-cases, if◌then◌else◌,
}
use openvcloud.Result.{Result, ok, err, bind}
use openvcloud.Models.{Rights, Account, Cloudspace, VMachine, Models}
use openvcloud.Auth.{
  Auth, UserInfo, in_groups, expand_acl_from_account, check_account_status, check_cloudspace_status,
  check_statuses, try_level, account_level, cloudspace_level, machine_level, authorize_groups,
  authorize_user, is_authorized,
}
use openvcloud.Auth.Grants.{Granted, by_account, by_cloudspace, by_machine}

try_level_ok :
    (required : Rights) (granted : Result Rights) (on_grant next : Result Bool)
    → try_level required granted on_grant next ≡ ok true
    → ((rights : Rights) × (granted ≡ ok rights)
        × (subset required rights ≡ true)
        × (on_grant ≡ ok true))
      ⊎ (next ≡ ok true)
unfolding try_level
try_level_ok required (err e) on_grant next h = cc
try_level_ok required (ok rights) on_grant next h = split (subset required rights) refl h
  where
    split :
        (b : Bool)
        → subset required rights ≡ b
        → (if b then on_grant else next) ≡ ok true
        → ((rs : Rights) × (ok rights ≡ ok rs) × (subset required rs ≡ true) × (on_grant ≡ ok true))
          ⊎ (next ≡ ok true)
    split true e k = inl (rights, refl, e, k)
    split false e k = inr k

check_statuses_ok :
    (required : Rights) (acc : Option Account) (c : Cloudspace)
    → check_statuses required acc (some c) ≡ ok true
    → (a : Account) × (acc ≡ some a)
      × (check_account_status required a ≡ ok tt)
      × (check_cloudspace_status required c ≡ ok tt)
unfolding check_statuses
check_statuses_ok required none c h = ground arith
check_statuses_ok required (some a) c h = (a, refl, ground arith, ground arith)

check_statuses-some :
    (required : Rights) (acc : Option Account) (cs : Option Cloudspace)
    → check_statuses required acc cs ≡ ok true
    → (c : Cloudspace) × (a : Account) × (cs ≡ some c)
      × (acc ≡ some a)
      × (check_account_status required a ≡ ok tt)
      × (check_cloudspace_status required c ≡ ok tt)
unfolding check_statuses
check_statuses-some required none none h = ground arith
check_statuses-some required (some a) none h = ground arith
check_statuses-some required acc (some c) h =
    let (a, p, q, w) = check_statuses_ok required acc c h in (c, a, refl, p, q, w)

ok-injective : {x y : Rights} → ok x ≡ ok y → x ≡ y
ok-injective e = cc

module _ (self : Auth) (models : Models) (username : String) (groups : List String) where
  account_level_ok :
      (r : Option Rights) (acc : Option Account) (cs : Option Cloudspace) (vm : Option VMachine)
      (next : Result Bool)
      → self.account ≡ r
      → account_level self models username groups r acc next ≡ ok true
      → Granted self models username groups acc cs vm ⊎ (next ≡ ok true)
  unfolding account_level
  account_level_ok none acc cs vm next e h = inr h
  account_level_ok (some r) none cs vm next e h = inr h
  account_level_ok (some r) (some a) cs vm next e h =
      elim (try_level_ok r (ok (expand_acl_from_account username groups a))
        (bind (check_account_status r a) (λ _. ok true)) next h) [
          | inl (rights, g, s, t) ↦ inl (
              by_account r a e refl (subst (λ x. subset r x ≡ true) (ok-injective (sym g)) s)
                (ground arith))
          | inr k ↦ inr k
        ]

  cloudspace_level_ok :
      (r : Option Rights) (acc : Option Account) (cs : Option Cloudspace) (vm : Option VMachine)
      (next : Result Bool)
      → self.cloudspace ≡ r
      → cloudspace_level self models username groups r acc cs next ≡ ok true
      → Granted self models username groups acc cs vm ⊎ (next ≡ ok true)
  unfolding cloudspace_level
  cloudspace_level_ok none acc cs vm next e h = inr h
  cloudspace_level_ok (some r) acc none vm next e h = inr h
  cloudspace_level_ok (some r) acc (some c) vm next e h = elim (try_level_ok r _ _ next h) [
    | inl (rights, g, s, t) ↦
        let (a, p, q, w) = check_statuses_ok r acc c t in
        inl (by_cloudspace r rights a c e p refl g s q w)
    | inr k ↦ inr k
  ]

  machine_level_ok :
      (r : Option Rights) (acc : Option Account) (cs : Option Cloudspace) (vm : Option VMachine)
      (next : Result Bool)
      → self.machine ≡ r
      → machine_level self models username groups r acc cs vm next ≡ ok true
      → Granted self models username groups acc cs vm ⊎ (next ≡ ok true)
  unfolding machine_level
  machine_level_ok none acc cs vm next e h = inr h
  machine_level_ok (some r) acc cs none next e h = inr h
  machine_level_ok (some r) acc cs (some m) next e h = elim (try_level_ok r _ _ next h) [
    | inl (rights, g, s, t) ↦
        let (c, a, k, p, q, w) = check_statuses-some r acc cs t in
        inl (by_machine r rights a c m e p k refl g s q w)
    | inr k ↦ inr k
  ]

  authorize_groups_ok :
      (acc : Option Account) (cs : Option Cloudspace) (vm : Option VMachine)
      → authorize_groups self models username groups acc cs vm ≡ ok true
      → (in_groups "admin" groups ≡ true) ⊎ Granted self models username groups acc cs vm
  unfolding authorize_groups
  authorize_groups_ok acc cs vm h = elim (Bool-cases (in_groups "admin" groups)) [
    | inl admin ↦ inl admin
    | inr other ↦ inr (levels (subst (λ b. (if b then ok true else first) ≡ ok true) other h))
  ]
    where
      last : Result Bool
      last = machine_level self models username groups self.machine acc cs vm (ok false)

      second : Result Bool
      second = cloudspace_level self models username groups self.cloudspace acc cs last

      first : Result Bool
      first = account_level self models username groups self.account acc second

      from_last : last ≡ ok true → Granted self models username groups acc cs vm
      from_last k = elim (machine_level_ok self.machine acc cs vm (ok false) refl k) [
        | inl g ↦ g
        | inr bad ↦ cc
      ]

      from_second : second ≡ ok true → Granted self models username groups acc cs vm
      from_second k = elim (cloudspace_level_ok self.cloudspace acc cs vm last refl k) [
        | inl g ↦ g
        | inr l ↦ from_last l
      ]

      levels : first ≡ ok true → Granted self models username groups acc cs vm
      levels k = elim (account_level_ok self.account acc cs vm second refl k) [
        | inl g ↦ g
        | inr l ↦ from_second l
      ]

-- A user whom `isAuthorized` lets pass is known and active, and is an administrator or has a grant:
-- at the account, cloudspace or machine level, every right that the decorator requires there stands
-- in the access lists that the level looks at, and the account (and the cloudspace) has a status
-- that allows the action.
pub is_authorized-Granted :
    (get_user_info : String → Option UserInfo) (self : Auth) (models : Models) (username : String)
    (acc : Option Account) (cs : Option Cloudspace) (vm : Option VMachine)
    → is_authorized get_user_info self models username acc cs vm ≡ ok true
    → (u : UserInfo) × (get_user_info username ≡ some u)
      × (u.active ≡ true)
      × ((in_groups "admin" u.groups ≡ true) ⊎ Granted self models username u.groups acc cs vm)
unfolding is_authorized
is_authorized-Granted get_user_info self models username acc cs vm h =
    known (get_user_info username) refl h
  where
    known :
        (o : Option UserInfo)
        → get_user_info username ≡ o
        → authorize_user self models username o acc cs vm ≡ ok true
        → (u : UserInfo) × (get_user_info username ≡ some u)
          × (u.active ≡ true)
          × ((in_groups "admin" u.groups ≡ true) ⊎ Granted self models username u.groups acc cs vm)
    known none e k = cc
    known (some u) e k = elim (Bool-cases u.active) [
      | inl on ↦
          (u, e, on, authorize_groups_ok self models username u.groups acc cs vm (rw on at k))
      | inr off ↦ cc (rw off at k)
    ]
