-- ===== src/Auth/Inherited.antt =====
-- Rights flow down: what the access list of the account grants holds on its cloudspaces and on
-- their machines (authenticator.py, `expandAclFromCloudspace` and `expandAclFromVMachine`).
use openvcloud.Prelude.{
  ℕ, String, ◌≡◌, true, refl, some, List, [], ◌++◌, if◌then◌else◌, arith, mem, mem-append,
}
use openvcloud.Result.{ok}
use openvcloud.Models.{Rights, Account, Cloudspace, VMachine, Models}
use openvcloud.Models.Table.{get}
use openvcloud.Auth.{
  Auth, expand_acl, expand_acl_from_account, expand_acl_from_cloudspace, expand_acl_from_v_machine,
  at_level, Level,
}

mem-append_right : (r : ℕ) (xs ys : Rights) → mem r ys ≡ true → mem r (xs ++ ys) ≡ true
mem-append_right r xs ys h = ground (arith, mem-append r xs ys)

module _ (self : Auth) (models : Models) (username : String) (groups : List String) (r : ℕ) where
  -- Whatever the level of the decorator, a right that the account's access list grants a user is
  -- granted on each cloudspace of the account and on each machine of such a cloudspace.
  pub account_rights_flow_down :
      (a : Account) (c : Cloudspace) (m : VMachine)
      → get (λ (x : Account). x.id) c.account_id models.account ≡ some a
      → get (λ (x : Cloudspace). x.id) m.cloudspace_id models.cloudspace ≡ some c
      → mem r (expand_acl_from_account username groups a) ≡ true
      → (on_cloudspace on_machine : Rights) × (expand_acl_from_cloudspace self models username
            groups c
          ≡ ok on_cloudspace)
        × (expand_acl_from_v_machine self models username groups m ≡ ok on_machine)
        × (mem r on_cloudspace ≡ true)
        × (mem r on_machine ≡ true)
  unfolding expand_acl_from_account expand_acl_from_cloudspace expand_acl_from_v_machine
  account_rights_flow_down a c m ha hc h = (
    own_cs ++ inherited,
    own_vm ++ (own_cs ++ inherited),
    rw ha refl,
    rw (hc, ha) refl,
    mem-append_right r own_cs inherited h,
    mem-append_right r own_vm (own_cs ++ inherited) (mem-append_right r own_cs inherited h),
  )
    where
      inherited : Rights
      inherited = expand_acl username groups a.acl

      own_cs : Rights
      own_cs = if at_level self.level Level.cloudspace then expand_acl username groups c.acl else []

      own_vm : Rights
      own_vm = if at_level self.level Level.machine then expand_acl username groups m.acl else []
