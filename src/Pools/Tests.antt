-- ===== src/Pools/Tests.antt =====
-- One pool of two addresses, and the network ids of one grid.
use openvcloud.Prelude.{
  ℕ, leb, ◌≡◌, refl, true, false, not, ◌&&◌, ◌||◌, some, none, [], ◌∷◌, any, mem, ◌==◌,
}
use openvcloud.Result.{ok}
use openvcloud.Models.{ExternalNetwork, NetworkIds, Models}
use openvcloud.Models.Table.{get}
use openvcloud.Pools.{
  pool_id, ids_id, wanted, pull, get_external_ip_address, first_free, take_first, take_ip,
  get_free_network_id, set_networkids, take_first_id, register_network_id_range, range, uses,
  add_range,
}
use openvcloud.Pools.Balance.{get_external_ip_address-taken}
use openvcloud.Pools.Ranges.{get_free_network_id-taken, register_network_id_range-free}

abbrev public_pool : ExternalNetwork
public_pool = record { id = 1; gid = 7; account_id = 0; subnetmask = 24; ips = 10 ∷ 11 ∷ [] }

abbrev vlans : NetworkIds
vlans = record { id = 7; networkids = 40 ∷ 41 ∷ [] }

abbrev pools : Models
pools = record {
  account = [];
  cloudspace = [];
  vmachine = [];
  disk = [];
  size = [];
  stack = [];
  externalnetwork = public_pool ∷ [];
  networkids = vlans ∷ [];
}

abbrev after_ip : Models
after_ip = (get_external_ip_address 7 none pools).1

abbrev left_pool : ExternalNetwork
left_pool = record public_pool { ips = 11 ∷ [] }

ip_taken : get_external_ip_address 7 none pools ≡ (ok (some (left_pool, 10, 24)), after_ip)
unfolding get_external_ip_address first_free take_first take_ip pull
ip_taken = refl

get_external_ip_address-taken_example :
    (p : ExternalNetwork) × (get pool_id p.id pools.externalnetwork ≡ some p)
    × (wanted 7 none p ≡ true)
    × (mem 10 p.ips ≡ true)
    × (get pool_id p.id after_ip.externalnetwork ≡ some left_pool)
    × (mem 10 left_pool.ips ≡ false)
get_external_ip_address-taken_example =
    get_external_ip_address-taken 7 none pools after_ip left_pool 10 24 (refl, tt) ip_taken

abbrev after_id : Models
after_id = (get_free_network_id 7 pools).1

id_taken : get_free_network_id 7 pools ≡ (ok (some 40), after_id)
unfolding get_free_network_id take_first_id set_networkids pull
id_taken = refl

get_free_network_id-taken_example :
    (n after : NetworkIds) × (get ids_id 7 pools.networkids ≡ some n)
    × (mem 40 n.networkids ≡ true)
    × (get ids_id 7 after_id.networkids ≡ some after)
    × ((j : ℕ) → mem j after.networkids ≡ (mem j n.networkids && not (j == 40)))
get_free_network_id-taken_example = get_free_network_id-taken 7 40 pools after_id id_taken

abbrev after_range : Models
after_range = (register_network_id_range 7 50 51 pools).1

range_registered : register_network_id_range 7 50 51 pools ≡ (ok true, after_range)
unfolding register_network_id_range range add_range set_networkids
range_registered = refl

register_network_id_range-free_example :
    (any (uses 7 (range 50 52)) pools.cloudspace ≡ false)
    × (after : NetworkIds) × (get ids_id 7 after_range.networkids ≡ some after)
    × ((j : ℕ) → mem j after.networkids ≡ (mem j vlans.networkids || (leb 50 j && leb j 51)))
register_network_id_range-free_example =
    register_network_id_range-free 7 50 51 pools after_range vlans refl range_registered
