-- ===== src/Accounts/Tests.antt =====
-- An account with one administrator, and requests on its users.
use openvcloud.Prelude.{◌≡◌, refl, true, false, some, List, [], ◌∷◌, none, ℕ}
use openvcloud.Result.{Result, ok, err, python_error}
use openvcloud.Models.{Rights, Ace, AceType, AceStatus, Account, AccountStatus, Models}
use openvcloud.Accounts.{
  SystemUser, Request, add, change, remove, serve, find_ace, can_be_deleted,
  is_account_user_deletable, admin_rights, write_rights,
}
use openvcloud.Accounts.Admins.{HasManaged}
use openvcloud.Accounts.Requests.{serve-HasManaged}
use openvcloud.Accounts.Flags.{flag-eq-deletable}

abbrev owner : Ace
owner = record {
  user_group_id = "owner";
  type = AceType.user;
  right = admin_rights;
  status = AceStatus.confirmed;
}

abbrev shop : Account
shop = record {
  id = 1;
  name = "shop";
  acl = owner ∷ [];
  status = AccountStatus.confirmed;
  resource_limits = λ _. none;
  send_access_emails = true;
}

abbrev shops : Models
shops = record {
  account = shop ∷ [];
  cloudspace = [];
  vmachine = [];
  disk = [];
  size = [];
  stack = [];
  externalnetwork = [];
  networkids = [];
}

abbrev clerk : SystemUser
clerk = record { id = "clerk"; emails = "clerk@shop" ∷ []; active = true }

-- The e-mail about an administrator fails.
abbrev no_mail : SystemUser → ℕ → Rights → Result (Unit {0})
no_mail user k (c ∷ d ∷ e ∷ f ∷ rights) = err python_error
no_mail user k rights = ok tt

-- An addition that is undone, one that stays, and the removal of the last administrator.
abbrev day : List Request
day =
    add 1 "clerk@shop" admin_rights
    ∷ add 1 "clerk" write_rights
    ∷ remove 1 "owner" false
    ∷ change 1 "owner" write_rights
    ∷ []

shop-HasManaged : HasManaged 1 shops
shop-HasManaged = (shop, refl, record { unique = (refl, tt); has_admin = refl })

serve-HasManaged_example : HasManaged 1 (serve (clerk ∷ []) no_mail day shops)
serve-HasManaged_example = serve-HasManaged (clerk ∷ []) no_mail 1 day shops shop-HasManaged

found_owner : find_ace "owner" (owner ∷ []) ≡ some (owner, [])
unfolding find_ace
found_owner = refl

flag-eq-deletable_example : can_be_deleted (owner ∷ []) owner ≡ is_account_user_deletable owner []
flag-eq-deletable_example = flag-eq-deletable "owner" (owner ∷ []) owner [] found_owner
