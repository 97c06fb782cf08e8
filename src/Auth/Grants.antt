-- ===== src/Auth/Grants.antt =====
-- What `isAuthorized` of authenticator.py grants, and to whom.
use openvcloud.Prelude.{String, ◌≡◌, true, Option, some, List, subset}
use openvcloud.Result.{ok}
use openvcloud.Models.{Rights, Account, Cloudspace, VMachine, Models}
use openvcloud.Auth.{
  Auth, expand_acl_from_account, expand_acl_from_cloudspace, expand_acl_from_v_machine,
  check_account_status, check_cloudspace_status,
}

-- How a user who is no administrator may be granted a request: at one level, all the rights that
-- the level requires are in the access lists, and the status checks pass.
module _ (self : Auth) (models : Models) (username : String) (groups : List String) where
  pub data Granted (acc : Option Account) (cs : Option Cloudspace) (vm : Option VMachine)
      : Type 0 where
    by_account :
        (required : Rights) (a : Account)
        → self.account ≡ some required
        → acc ≡ some a
        → subset required (expand_acl_from_account username groups a) ≡ true
        → check_account_status required a ≡ ok tt
        → Granted acc cs vm
    by_cloudspace :
        (required rights : Rights) (a : Account) (c : Cloudspace)
        → self.cloudspace ≡ some required
        → acc ≡ some a
        → cs ≡ some c
        → expand_acl_from_cloudspace self models username groups c ≡ ok rights
        → subset required rights ≡ true
        → check_account_status required a ≡ ok tt
        → check_cloudspace_status required c ≡ ok tt
        → Granted acc cs vm
    by_machine :
        (required rights : Rights) (a : Account) (c : Cloudspace) (m : VMachine)
        → self.machine ≡ some required
        → acc ≡ some a
        → cs ≡ some c
        → vm ≡ some m
        → expand_acl_from_v_machine self models username groups m ≡ ok rights
        → subset required rights ≡ true
        → check_account_status required a ≡ ok tt
        → check_cloudspace_status required c ≡ ok tt
        → Granted acc cs vm
