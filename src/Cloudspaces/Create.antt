-- ===== src/Cloudspaces/Create.antt =====
-- `create` of apps/cloudbroker/base/cloudapi__cloudspaces. The location that a client names is the
-- parameter `location`, its grid where there is one; `fresh` is the id that the store gives a new object.
use openvcloud.Prelude.{
  ℕ, zero, suc, String, Bool, true, false, not, ◌&&◌, ◌||◌, Option, none, some, List, [], ◌∷◌, ◌++◌,
  ◌==◌, str_eq, any,
}
use openvcloud.Prelude.Int.{ℤ, pos, ltb_ℤ}
use openvcloud.Result.{
  ◌>>=◌, ◌>>◌, bad_request, not_found, conflict, service_unavailable, python_error, Exec, pure,
  raise, lift, or_raise, raise_if, gets, modify,
}
use openvcloud.Models.{
  Rights, AceType, AceStatus, cu_i, Limits, Account, AccountStatus, Cloudspace, CloudspaceStatus,
  ExternalNetwork, Models,
}
use openvcloud.Models.Table.{delete as remove}
use openvcloud.Limits.{Request, is_unlimited, account_of, fill_resource_limits, validate_available}
use openvcloud.Limits.Change.{list_active_cloudspaces}
use openvcloud.Pools.{get_external_ip_address, get_free_network_id}
use openvcloud.Cloudspaces.{id_of, set_cloudspace}

abbrev gone : Account → Bool
gone a = elim a.status [
  | AccountStatus.destroyed ↦ true
  | AccountStatus.destroying ↦ true
  | _ ↦ false
]

-- `if externalnetworkId: if count(…) == 0`, where 0 is as good as `None`
abbrev no_such_network : Option ℕ → ℕ → ℕ → List ExternalNetwork → Bool
no_such_network none gid account_id pools = false
no_such_network (some zero) gid account_id pools = false
no_such_network (some (suc n)) gid account_id pools = not (
    any (λ p. (p.id == suc n && p.gid == gid) && (p.account_id == account_id || p.account_id == 0))
      pools)

-- `cs.resourceLimits['CU_I'] != -1 and cs.resourceLimits['CU_I'] < 1`
abbrev too_few_ips : Option ℤ → Bool
too_few_ips none = false
too_few_ips (some z) = not (is_unlimited z) && ltb_ℤ z (pos 1)

-- `if not networkid`
abbrev pub usable : Option ℕ → Option ℕ
usable none = none
usable (some zero) = none
usable (some (suc n)) = some (suc n)

abbrev pub owner_rights : Rights
owner_rights = b'C' ∷ b'X' ∷ b'D' ∷ b'R' ∷ b'A' ∷ b'U' ∷ []

-- What the client gives for a new cloudspace.
pub record Order : Type 0 where
  pub account_id : ℕ
  pub name : String
  pub access : String
  pub maximum : Request
  pub externalnetwork_id : Option ℕ
  pub allowed_vm_sizes : List ℕ

-- The new object, before it has an address. Its `acl` gets the entry that `new_acl` adds.
abbrev pub new_cloudspace : Order → ℕ → Limits → ℕ → ℕ → Cloudspace
new_cloudspace order gid limits networkid id = record {
  id = id;
  name = order.name;
  account_id = order.account_id;
  gid = gid;
  acl =
      record {
        user_group_id = order.access;
        type = AceType.user;
        right = owner_rights;
        status = AceStatus.confirmed;
      }
      ∷ [];
  status = CloudspaceStatus.virtual;
  resource_limits = limits;
  network_id = some networkid;
  externalnetwork_id = order.externalnetwork_id;
  externalnetworkip = none;
  allowed_vm_sizes = order.allowed_vm_sizes;
}

-- The part of `create` that writes nothing.
unfoldable pub check_order : Option ℕ → Order → Exec Models (ℕ × Limits)
unfolding account_of list_active_cloudspaces fill_resource_limits
check_order location order = do
  account ← account_of order.account_id
  raise_if (gone account) not_found
  gid ← or_raise location bad_request
  pools ← gets (λ models. models.externalnetwork)
  raise_if (no_such_network order.externalnetwork_id gid order.account_id pools) bad_request
  active ← list_active_cloudspaces order.account_id
  raise_if (any (λ (s : Cloudspace). str_eq s.name order.name) active) conflict
  limits ← lift (fill_resource_limits false order.maximum)
  raise_if (too_few_ips (limits cu_i)) bad_request
  pure (gid, limits)

-- What follows once the new cloudspace is stored: without an address it is deleted again.
unfoldable pub give_address : Cloudspace → Option (ExternalNetwork × ℕ × ℕ) → Exec Models ℕ
give_address cs none = do
  modify λ models. record models { cloudspace = remove id_of cs.id models.cloudspace }
  raise service_unavailable
give_address cs (some (pool, ip, prefixlen)) = do
  set_cloudspace
      (record cs { externalnetwork_id = some pool.id; externalnetworkip = some (ip, prefixlen) })
  pure cs.id

unfoldable pub add_cloudspace : Cloudspace → Exec Models (Unit {0})
add_cloudspace cs = modify λ models. record models { cloudspace = models.cloudspace ++ cs ∷ [] }

module _ (fresh : Models → ℕ) where
  -- `create`, up to the start of `deploy` in the background
  unfoldable pub create : Option ℕ → Order → Exec Models ℕ
  unfolding check_order get_free_network_id validate_available add_cloudspace
      get_external_ip_address give_address
  create location order = do
    (gid, limits) ← check_order location order
    free ← get_free_network_id gid
    networkid ← or_raise (usable free) python_error
    validate_available order.account_id none order.maximum
    id ← gets fresh
    add_cloudspace (new_cloudspace order gid limits networkid id)
    netinfo ← get_external_ip_address gid order.externalnetwork_id
    give_address (new_cloudspace order gid limits networkid id) netinfo
