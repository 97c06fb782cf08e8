-- ===== src/Limits/Tests.antt =====
-- Limits at work on one account with one cloudspace.
use openvcloud.Prelude.{ℕ, ◌+◌, ◌≤◌, ◌*◌, ◌≡◌, refl, true, false, none, some, [], ◌∷◌, ◌⊎◌}
use openvcloud.Prelude.Int.{pos, ◌+ℤ◌, ◌-ℤ◌, ◌≤ℤ◌}
use openvcloud.Result.{ok}
use openvcloud.Models.{
  cu_m, cu_i, Limits, Account, AccountStatus, Cloudspace, CloudspaceStatus, Models,
}
use openvcloud.Limits.{
  fill_one, fill_resource_limits, validate_available, reserved, Request, account_of,
  consumed_memory, consumed_public_ips, sum_sizes,
}
use openvcloud.Limits.Change.{
  update_cloudspace, scale, list_active_cloudspaces, validate_if, change_cloudspace_limits,
  change_cloudspace_limit, consumed_in_cloudspace, consumed_in_account, change_account_limit,
}
use openvcloud.Limits.Available.{
  check_addresses, check_account_public_ips, check_cloudspace_public_ips, check_unit, check_units,
  check_account_resources, Needs,
}
use openvcloud.Limits.Reserve.{validate_available-fits}
use openvcloud.Limits.Room.{check_account_resources-fits}
use openvcloud.Limits.Addresses.{check_cloudspace_public_ips-fits}
use openvcloud.Limits.Kept.{update_cloudspace-fits}
use openvcloud.Limits.Floor.{update_account-fits}
use openvcloud.Limits.Change.{account_id_of, update_account, change_account_limits}
use openvcloud.Models.Table.{get}
use openvcloud.Prelude.{inl, inr}

-- Eight GB of memory, and no other limit.
abbrev eight_gb : Limits
eight_gb cu_m = some (pos 8)
eight_gb _ = none

abbrev three_gb : Request
three_gb cu_m = some (pos 3)
three_gb _ = none

abbrev customer : Account
customer = record {
  id = 1;
  name = "customer";
  acl = [];
  status = AccountStatus.confirmed;
  resource_limits = eight_gb;
  send_access_emails = true;
}

abbrev office : Cloudspace
office = record {
  id = 2;
  name = "office";
  account_id = 1;
  gid = 7;
  acl = [];
  status = CloudspaceStatus.deployed;
  resource_limits = eight_gb;
  network_id = none;
  externalnetwork_id = none;
  externalnetworkip = none;
  allowed_vm_sizes = [];
}

abbrev limited : Models
limited = record {
  account = customer ∷ [];
  cloudspace = office ∷ [];
  vmachine = [];
  disk = [];
  size = [];
  stack = [];
  externalnetwork = [];
  networkids = [];
}

abbrev after_update : Models
after_update = (update_cloudspace 2 none three_gb [] limited).1

three_gb_pass : update_cloudspace 2 none three_gb [] limited ≡ (ok true, after_update)
unfolding update_cloudspace list_active_cloudspaces validate_if validate_available account_of
    fill_resource_limits reserved change_cloudspace_limits change_cloudspace_limit
    consumed_in_cloudspace consumed_memory sum_sizes ◌-ℤ◌
three_gb_pass = refl

filled_customer :
    fill_resource_limits false customer.resource_limits ≡ ok (λ cu. fill_one false (eight_gb cu))
unfolding fill_resource_limits
filled_customer = refl

update_cloudspace-fits_example : reserved 1 none cu_m after_update.cloudspace ≤ℤ pos 8
update_cloudspace-fits_example =
    update_cloudspace-fits 2 none three_gb [] limited after_update cu_m 2 8 office customer
      (λ cu. fill_one false (eight_gb cu)) (refl, tt) refl refl filled_customer refl refl refl
      three_gb_pass

three_gb_valid : validate_available 1 (some 2) three_gb limited ≡ (ok tt, limited)
unfolding validate_available account_of fill_resource_limits reserved ◌-ℤ◌
three_gb_valid = refl

validate_available-fits_example : pos 3 +ℤ reserved 1 (some 2) cu_m limited.cloudspace ≤ℤ pos 8
validate_available-fits_example =
    validate_available-fits 1 (some 2) three_gb limited limited cu_m 2 8 customer
      (λ cu. fill_one false (eight_gb cu)) three_gb_valid refl filled_customer refl refl

abbrev nine_gb : Request
nine_gb cu_m = some (pos 9)
nine_gb _ = none

abbrev after_nine : Models
after_nine = (update_account 1 none nine_gb none limited).1

nine_gb_passes : update_account 1 none nine_gb none limited ≡ (ok true, after_nine)
unfolding update_account account_of change_account_limits change_account_limit consumed_in_account
    consumed_memory sum_sizes reserved ◌+ℤ◌
nine_gb_passes = refl

update_account-fits_example :
    (used : ℕ) × (consumed_in_account cu_m 1 limited ≡ ok used)
    × (used ≤ 9 * scale cu_m)
    × (reserved 1 none cu_m limited.cloudspace ≤ℤ pos 9)
    × (after : Account) × (get account_id_of 1 after_nine.account ≡ some after)
    × (after.resource_limits cu_m ≡ some (pos 9))
update_account-fits_example =
    update_account-fits 1 9 none nine_gb none limited after_nine cu_m customer refl refl
      nine_gb_passes

-- A machine of two GB.
abbrev two_gb : Needs
two_gb cu_m = 2048
two_gb _ = 0

two_gb_fit : check_account_resources 1 two_gb limited ≡ (ok tt, limited)
unfolding check_account_resources account_of check_units check_unit consumed_in_account
    consumed_memory sum_sizes ◌-ℤ◌
two_gb_fit = refl

check_account_resources-fits_example :
    (two_gb cu_m ≡ 0)
    ⊎ ((used : ℕ) × (consumed_in_account cu_m 1 limited ≡ ok used)
        × (used + two_gb cu_m ≤ 8 * scale cu_m))
check_account_resources-fits_example =
    check_account_resources-fits 1 two_gb limited limited customer cu_m 8 two_gb_fit refl
      (inr (inl refl)) refl

-- Four public addresses, for the account and for its cloudspace.
abbrev four_ips : Limits
four_ips cu_i = some (pos 4)
four_ips _ = none

abbrev ip_customer : Account
ip_customer = record customer { resource_limits = four_ips }

abbrev ip_office : Cloudspace
ip_office = record office { resource_limits = four_ips; externalnetworkip = some (9, 24) }

abbrev ip_limited : Models
ip_limited = record limited { account = ip_customer ∷ []; cloudspace = ip_office ∷ [] }

three_ips_pass : check_cloudspace_public_ips 2 3 ip_limited ≡ (ok tt, ip_limited)
unfolding check_cloudspace_public_ips check_account_public_ips account_of check_addresses
    consumed_in_cloudspace consumed_in_account consumed_public_ips ◌-ℤ◌
three_ips_pass = refl

check_cloudspace_public_ips-fits_example :
    (used total : ℕ) × (consumed_in_cloudspace cu_i 2 ip_limited ≡ ok used)
    × (used + 3 ≤ 4)
    × (consumed_in_account cu_i 1 ip_limited ≡ ok total)
    × (total + 3 ≤ 4)
check_cloudspace_public_ips-fits_example =
    check_cloudspace_public_ips-fits 2 3 4 4 ip_limited ip_limited ip_office ip_customer
      three_ips_pass refl refl refl refl
