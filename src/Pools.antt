-- ===== src/Pools.antt =====
-- The pools of public addresses and of network ids: apps/cloudbroker/cloudbrokerlib/network.py and
-- apps/cloudbroker/base/libcloud__libvirt.
pub mod Balance
pub mod Ranges
pub mod Taken
pub mod Tests
use openvcloud.Prelude.{
  ℕ, zero, suc, ◌-◌, ◌+◌, ◌≤◌, Bool, true, false, not, ◌&&◌, ◌||◌, Option, none, some, List, [],
  ◌∷◌, ◌++◌, ◌==◌, leb, ltb, any, filter, mem, if◌then◌else◌,
}
use openvcloud.Result.{
  Result, ok, err, conflict, python_error, Exec, ◌>>=◌, ◌>>◌, pure, or_raise, raise_if, gets,
  modify,
}
use openvcloud.Models.{Cloudspace, CloudspaceStatus, ExternalNetwork, NetworkIds, Models}
use openvcloud.Models.Table.{get, exists, update}

abbrev pub pool_id : ExternalNetwork → ℕ
pool_id p = p.id

abbrev pub ids_id : NetworkIds → ℕ
ids_id n = n.id

-- {'$pull': {'ips': ip}}
unfoldable pub pull : ℕ → List ℕ → List ℕ
pull a xs = filter (λ x. not (x == a)) xs

-- {'$addToSet': {'ips': ip}}
unfoldable pub add_to_set : ℕ → List ℕ → List ℕ
add_to_set a xs = if mem a xs then xs else xs ++ a ∷ []

-- {'$addToSet': {'networkids': {'$each': …}}}
pub add_each : List ℕ → List ℕ → List ℕ
unfolding add_to_set
add_each [] xs = xs
add_each (a ∷ new) xs = add_each new (add_to_set a xs)

abbrev pub wanted : ℕ → Option ℕ → ExternalNetwork → Bool
wanted gid none p = p.gid == gid
wanted gid (some k) p = p.gid == gid && p.id == k

-- The pool and the address that the loops of `getExternalIpAddress` come to first: no other request
-- runs between its search and its `$pull`, so the first `$pull` modifies the pool.
unfoldable pub first_free : List ExternalNetwork → Option (ExternalNetwork × ℕ)
first_free [] = none
first_free (p ∷ pools) = elim p.ips [ [] ↦ first_free pools | ip ∷ _ ↦ some (p, ip) ]

unfoldable pub take_ip : ℕ → ℕ → Exec Models (Unit {0})
unfolding pull
take_ip k ip = modify λ models. record models {
  externalnetwork = update pool_id k (λ p. record p { ips = pull ip p.ips }) models.externalnetwork;
}

unfoldable pub take_first :
    Option (ExternalNetwork × ℕ) → Exec Models (Option (ExternalNetwork × ℕ × ℕ))
unfolding take_ip
take_first none = pure none
take_first (some (p, ip)) = do
  take_ip p.id ip
  pool ← λ models. or_raise (get pool_id p.id models.externalnetwork) python_error models
  pure (some (pool, ip, pool.subnetmask))

-- `getExternalIpAddress`: the pool, and the address with the prefix length of the pool.
unfoldable pub get_external_ip_address :
    ℕ → Option ℕ → Exec Models (Option (ExternalNetwork × ℕ × ℕ))
unfolding first_free take_first
get_external_ip_address gid externalnetwork_id = do
  found ← gets λ models. first_free (filter (wanted gid externalnetwork_id) models.externalnetwork)
  take_first found

-- `releaseExternalIpAddress`
unfoldable pub release_external_ip_address : ℕ → ℕ → Exec Models (Unit {0})
unfolding add_to_set
release_external_ip_address k ip = modify λ models. record models {
  externalnetwork =
      update pool_id k (λ p. record p { ips = add_to_set ip p.ips }) models.externalnetwork;
}

unfoldable pub set_networkids : ℕ → (List ℕ → List ℕ) → Exec Models (Unit {0})
set_networkids gid f = modify λ models. record models {
  networkids = update ids_id gid (λ n. record n { networkids = f n.networkids }) models.networkids;
}

unfoldable pub take_first_id : ℕ → List ℕ → Exec Models (Option ℕ)
unfolding set_networkids pull
take_first_id gid [] = pure none
take_first_id gid (netid ∷ rest) = do set_networkids gid (pull netid); pure (some netid)

-- `getFreeNetworkId`
unfoldable pub get_free_network_id : ℕ → Exec Models (Option ℕ)
unfolding take_first_id
get_free_network_id gid = do
  pool ← λ models. or_raise (get ids_id gid models.networkids) python_error models
  take_first_id gid pool.networkids

-- `releaseNetworkId`
unfoldable pub release_network_id : ℕ → ℕ → Exec Models Bool
unfolding set_networkids add_to_set
release_network_id gid networkid = do set_networkids gid (add_to_set networkid); pure true

-- So many numbers, from `start` on.
abbrev pub count_from : ℕ → ℕ → List ℕ
count_from start zero = []
count_from start (suc n) = start ∷ count_from (suc start) n

-- `range(start, stop)`
pub range : ℕ → ℕ → List ℕ
range start stop = count_from start (stop - start)

abbrev in_use : CloudspaceStatus → Bool
in_use CloudspaceStatus.deployed = true
in_use CloudspaceStatus.virtual = true
in_use _ = false

abbrev pub uses : ℕ → List ℕ → Cloudspace → Bool
uses gid newrange cs =
    (in_use cs.status && cs.gid == gid)
    && (elim cs.network_id [ none ↦ false | some k ↦ mem k newrange ])

add_range : Bool → ℕ → List ℕ → Exec Models Bool
unfolding set_networkids add_each
add_range true gid newrange = do
  spaces ← gets (λ models. models.cloudspace)
  raise_if (any (uses gid newrange) spaces) conflict
  set_networkids gid (add_each newrange)
  pure true
add_range false gid newrange = do
  modify λ models. record models {
    networkids = models.networkids ++ record { id = gid; networkids = newrange } ∷ [];
  }
  pure true

-- `registerNetworkIdRange`
pub register_network_id_range : ℕ → ℕ → ℕ → Exec Models Bool
unfolding range add_range
register_network_id_range gid start end = do
  known ← gets (λ models. exists ids_id gid models.networkids)
  add_range known gid (range start (end + 1))
