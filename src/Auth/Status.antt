-- ===== src/Auth/Status.antt =====
-- What the status checks of authenticator.py keep out.
use openvcloud.Prelude.{
  String, ◌≡◌, true, false, Option, some, arith, same_set, inl, inr, List, sym, subst, ◌∙◌,
}
use openvcloud.Result.{ok}
use openvcloud.Models.{Rights, Account, Cloudspace, VMachine, Models, AccountStatus}
use openvcloud.Auth.{Auth, UserInfo, read_only, in_groups, check_account_status, is_authorized}
use openvcloud.Auth.Grants.{Granted, by_account, by_cloudspace, by_machine}
use openvcloud.Auth.Soundness.{is_authorized-Granted}

-- The decorator guards an action that does more than read, at whatever level it grants it.
pub record Modifies (self : Auth) : Type 0 where
  pub at_account : (r : Rights) → self.account ≡ some r → same_set r read_only ≡ false
  pub at_cloudspace : (r : Rights) → self.cloudspace ≡ some r → same_set r read_only ≡ false
  pub at_machine : (r : Rights) → self.machine ≡ some r → same_set r read_only ≡ false

check_account_status-confirmed :
    (r : Rights) (a : Account)
    → check_account_status r a ≡ ok tt
    → same_set r read_only ≡ false
    → a.status ≡ AccountStatus.confirmed
unfolding check_account_status
check_account_status-confirmed r a h m = ground arith

some-injective : {a b : Account} → some a ≡ some b → a ≡ b
some-injective e = cc

user-injective : {u v : UserInfo} → some u ≡ some v → u ≡ v
user-injective e = cc

module _ {self : Auth} {models : Models} {username : String} {groups : List String} where
  Granted-confirmed :
      {a : Account} {cs : Option Cloudspace} {vm : Option VMachine}
      → Modifies self
      → Granted self models username groups (some a) cs vm
      → a.status ≡ AccountStatus.confirmed
  Granted-confirmed {a} w (by_account r b e p s t) =
      subst (λ x. x.status ≡ AccountStatus.confirmed) (some-injective (sym p))
        (check_account_status-confirmed r b t (w.at_account r e))
  Granted-confirmed {a} w (by_cloudspace r rs b c e p q g s t u) =
      subst (λ x. x.status ≡ AccountStatus.confirmed) (some-injective (sym p))
        (check_account_status-confirmed r b t (w.at_cloudspace r e))
  Granted-confirmed {a} w (by_machine r rs b c m e p q k g s t u) =
      subst (λ x. x.status ≡ AccountStatus.confirmed) (some-injective (sym p))
        (check_account_status-confirmed r b t (w.at_machine r e))

-- A user who is no administrator passes `isAuthorized` on an account, for an action that requires
-- more than R at each level it names, only if the account is CONFIRMED.
pub is_authorized_status :
    (get_user_info : String → Option UserInfo) (self : Auth) (models : Models) (username : String)
    (u : UserInfo) (a : Account) (cs : Option Cloudspace) (vm : Option VMachine)
    → get_user_info username ≡ some u
    → in_groups "admin" u.groups ≡ false
    → Modifies self
    → is_authorized get_user_info self models username (some a) cs vm ≡ ok true
    → a.status ≡ AccountStatus.confirmed
is_authorized_status gui self models username u a cs vm known plain w h =
    let (v, e, on, why) = is_authorized-Granted gui self models username (some a) cs vm h in
    let same : v ≡ u = user-injective (sym e ∙ known) in
    elim why [ inl admin ↦ cc | inr g ↦ Granted-confirmed w g ]
