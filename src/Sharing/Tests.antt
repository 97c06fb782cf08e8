-- ===== src/Sharing/Tests.antt =====
-- A user with read access to the account, who is given more on one of its cloudspaces.
use openvcloud.Prelude.{filter, not, String, ◌≡◌, refl, true, Option, none, some, [], ◌∷◌}
use openvcloud.Result.{ok}
use openvcloud.Models.{
  Ace, AceType, AceStatus, Account, AccountStatus, Cloudspace, CloudspaceStatus, Models,
}
use openvcloud.Models.Table.{get}
use openvcloud.Accounts.{is_valid_role, is_r, write_rights}
use openvcloud.Sharing.{
  Entry, get_cloudspace_acl, get_account_acl, user_entries, merge_account, id_of_cloudspace,
  update_cloudspace_ace, grant_cloudspace, update_cloudspace_acl,
}
use openvcloud.Sharing.Levels.{Exceeds, is_own, update_cloudspace_ace-granted}

abbrev reader : Ace
reader = record {
  user_group_id = "reader";
  type = AceType.user;
  right = b'R' ∷ [];
  status = AceStatus.confirmed;
}

abbrev owner_account : Account
owner_account = record {
  id = 1;
  name = "owner";
  acl = reader ∷ [];
  status = AccountStatus.confirmed;
  resource_limits = λ _. none;
  send_access_emails = true;
}

abbrev shared : Cloudspace
shared = record {
  id = 2;
  name = "shared";
  account_id = 1;
  gid = 7;
  acl = [];
  status = CloudspaceStatus.deployed;
  resource_limits = λ _. none;
  network_id = none;
  externalnetwork_id = none;
  externalnetworkip = none;
  allowed_vm_sizes = [];
}

abbrev sharing : Models
sharing = record {
  account = owner_account ∷ [];
  cloudspace = shared ∷ [];
  vmachine = [];
  disk = [];
  size = [];
  stack = [];
  externalnetwork = [];
  networkids = [];
}

abbrev after_sharing : Models
after_sharing = (update_cloudspace_ace 2 "reader" write_rights AceStatus.confirmed sharing).1

granted_writes :
    update_cloudspace_ace 2 "reader" write_rights AceStatus.confirmed sharing
    ≡ (ok true, after_sharing)
unfolding update_cloudspace_ace grant_cloudspace update_cloudspace_acl is_valid_role is_r
    get_cloudspace_acl get_account_acl user_entries merge_account
granted_writes = refl

update_cloudspace_ace-granted_example :
    (entries : String → Option Entry) × (get_cloudspace_acl sharing 2 ≡ ok entries)
    × (e : Entry) × (entries "reader" ≡ some e)
    × Exceeds write_rights e.account_right
    × (after : Cloudspace) × (get id_of_cloudspace 2 after_sharing.cloudspace ≡ some after)
    × (filter (is_own "reader") after.acl
        ≡ record {
          user_group_id = "reader";
          type = AceType.user;
          right = write_rights;
          status = AceStatus.confirmed;
        }
          ∷ [])
    × (filter (λ x. not (is_own "reader" x)) after.acl
        ≡ filter (λ x. not (is_own "reader" x)) shared.acl)
update_cloudspace_ace-granted_example =
    update_cloudspace_ace-granted 2 "reader" write_rights AceStatus.confirmed sharing after_sharing
      shared refl granted_writes
