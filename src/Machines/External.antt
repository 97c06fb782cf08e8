-- ===== src/Machines/External.antt =====
-- `attachExternalNetwork`, `detachExternalNetwork` and `_detachExternalNetworkFromModel` of
-- apps/cloudbroker/base/cloudapi__machines. The texts of addresses are netaddr's, a parameter; so is
-- what the driver answers on the interface of a node.
use openvcloud.Prelude.{ℕ, Bool, true, false, Option, none, some, List, [], ◌∷◌, ◌++◌, any}
use openvcloud.Result.{Result, err, python_error, Exec, ◌>>=◌, ◌>>◌, pure, lift, or_raise}
use openvcloud.Models.{VMachine, Nic, NicType, ExternalNetwork, Models}
use openvcloud.Limits.Available.{check_cloudspace_public_ips}
use openvcloud.Pools.{get_external_ip_address, release_external_ip_address}
use openvcloud.Machines.{Hypervisor, set_machine, get_provider_and_node}
use openvcloud.Machines.Create.{get_cloudspace}

-- netaddr.IPNetwork: the text of an address with its prefix length, and the address of a text
pub record Netaddr : Type 0 where
  pub text : ℕ → ℕ → ℕ
  pub host : ℕ → ℕ

-- The driver's calls on a node: the MAC address of a new public interface in the network of a pool
pub record NodePorts : Type 0 where
  pub attach_public : ℕ → ExternalNetwork → Result ℕ
  pub detach_public : ℕ → Result (Unit {0})
  pub destroy_node : ℕ → Result (Unit {0})

abbrev pub is_public : Nic → Bool
is_public nic = elim nic.type [ NicType.public ↦ true | NicType.bridge ↦ false ]

module _ (net : Netaddr) where
  -- An address 'Undefined' and a missing tag are refused by netaddr and by `int`.
  unfoldable pub release_nic : Nic → Exec Models (Unit {0})
  unfolding release_external_ip_address
  release_nic nic = do
    k ← or_raise nic.pool_id python_error
    ip ← or_raise nic.ip_address python_error
    release_external_ip_address k (net.host ip)

  -- The loop of `_detachExternalNetworkFromModel`, which removes from the list that it runs over: the
  -- interface behind one that is removed is passed over. It answers the interfaces that are left.
  unfoldable pub detach_loop : VMachine → List Nic → List Nic → Exec Models (List Nic)
  unfolding release_nic
  detach_loop vm kept [] = pure kept
  detach_loop vm kept (n ∷ []) = elim (is_public n) [
    | true ↦ set_machine (record vm { nics = kept }) >> release_nic n >> pure kept
    | false ↦ pure (kept ++ n ∷ [])
  ]
  detach_loop vm kept (n ∷ s ∷ rest) = elim (is_public n) [
    | true ↦
        set_machine (record vm { nics = kept ++ s ∷ rest })
        >> release_nic n
        >> detach_loop vm (kept ++ s ∷ []) rest
    | false ↦ detach_loop vm (kept ++ n ∷ []) (s ∷ rest)
  ]

  unfoldable pub detach_from_model : VMachine → Exec Models VMachine
  unfolding detach_loop
  detach_from_model vm = do nics ← detach_loop vm [] vm.nics; pure (record vm { nics = nics })

  module _ (hv : Hypervisor) (ports : NodePorts) where
    unfoldable pub detach_ports : Option Bool → VMachine → List Nic → Exec Models (Unit {0})
    detach_ports host vm [] = pure tt
    detach_ports host vm (n ∷ nics) = elim (is_public n) [
      | false ↦ detach_ports host vm nics
      | true ↦
          or_raise host python_error
          >> lift (ports.detach_public vm.reference_id)
          >> detach_ports host vm nics
    ]

    -- `detachExternalNetwork`
    unfoldable pub detach_external_network : ℕ → Exec Models Bool
    unfolding get_provider_and_node detach_ports detach_from_model
    detach_external_network k = do
      (host, vm) ← get_provider_and_node hv k
      detach_ports host vm vm.nics
      detach_from_model vm
      pure true

    abbrev pub with_nic : VMachine → ExternalNetwork → ℕ → ℕ → VMachine
    with_nic vm pool address mac = record vm {
      nics =
          vm.nics
          ++ record {
            ip_address = some address;
            mac_address = mac;
            type = NicType.public;
            pool_id = some pool.id;
          }
            ∷ [];
    }

    unfoldable pub add_nic :
        Option Bool → VMachine → Option (ExternalNetwork × ℕ × ℕ) → Exec Models Bool
    add_nic host vm none = λ models. (err python_error, models)
    add_nic host vm (some (pool, ip, prefixlen)) = do
      set_machine (with_nic vm pool (net.text ip prefixlen) 0)
      or_raise host python_error
      mac ← lift (ports.attach_public vm.reference_id pool)
      set_machine (with_nic vm pool (net.text ip prefixlen) mac)
      pure true

    unfoldable pub attach_if_missing : Bool → Option Bool → VMachine → Exec Models Bool
    unfolding check_cloudspace_public_ips get_external_ip_address add_nic
    attach_if_missing true host vm = pure true
    attach_if_missing false host vm = do
      cs ← get_cloudspace vm.cloudspace_id
      check_cloudspace_public_ips vm.cloudspace_id 1
      netinfo ← get_external_ip_address cs.gid cs.externalnetwork_id
      add_nic host vm netinfo

    -- `attachExternalNetwork`
    unfoldable pub attach_external_network : ℕ → Exec Models Bool
    unfolding get_provider_and_node attach_if_missing
    attach_external_network k = do
      (host, vm) ← get_provider_and_node hv k
      attach_if_missing (any is_public vm.nics) host vm
