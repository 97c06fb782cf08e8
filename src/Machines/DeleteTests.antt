-- ===== src/Machines/DeleteTests.antt =====
-- The removal of a machine with a private and a public interface and a disk, and of one that has a
-- clone; and a public interface that is attached and detached.
use openvcloud.Prelude.{
  ℕ, ◌≡◌, refl, Bool, true, false, Option, none, some, List, [], ◌∷◌, ◌+◌, ◌*◌,
}
use openvcloud.Result.{Result, ok, err, conflict}
use openvcloud.Models.{
  Account, AccountStatus, Cloudspace, CloudspaceStatus, VMachine, MachineStatus, NicType, Disk,
  DiskStatus, ExternalNetwork, Models,
}
use openvcloud.Firewall.{Cloud, VirtualFirewall}
use openvcloud.Models.Table.{get}
use openvcloud.Pools.Taken.{SameFree}
use openvcloud.Machines.{Hypervisor, vm_id}
use openvcloud.Machines.External.{
  Netaddr, NodePorts, attach_external_network, detach_external_network,
}
use openvcloud.Machines.Delete.{delete}
use openvcloud.Machines.Attached.{detach_external_network-attach_external_network}
use openvcloud.Machines.Deleted.{IsDeleted, delete_machine_lem}

abbrev quiet : Hypervisor
quiet = record {
  node_details = λ ref. ok (none, false);
  supports = λ a. true;
  act = λ a ref. ok true;
  attach_volume = λ ref k. ok tt;
  detach_volume = λ k. ok tt;
  create_volume = λ size k. ok tt;
  destroy_volume = λ k. ok tt;
}

abbrev ports : NodePorts
ports = record {
  attach_public = λ ref pool. ok 3;
  detach_public = λ ref. ok tt;
  destroy_node = λ ref. ok tt;
}

abbrev net : Netaddr
net = record { text = λ address prefixlen. address; host = λ text. text }

applies : VirtualFirewall → Option Bool
applies fw = some true

leases : VirtualFirewall → List ℕ → Result (Unit {0})
leases fw macs = ok tt

fw_guid : ℕ → Option ℕ → ℕ
fw_guid gid none = gid
fw_guid gid (some k) = 1000 * gid + k

abbrev team : Account
team = record {
  id = 1;
  name = "team";
  acl = [];
  status = AccountStatus.confirmed;
  resource_limits = λ cu. none;
  send_access_emails = false;
}

abbrev space : Cloudspace
space = record {
  id = 1;
  name = "space";
  account_id = 1;
  gid = 7;
  acl = [];
  status = CloudspaceStatus.deployed;
  resource_limits = λ cu. none;
  network_id = some 40;
  externalnetwork_id = none;
  externalnetworkip = none;
  allowed_vm_sizes = [];
}

-- Its public interface has the address 80 of the pool 6.
abbrev web : VMachine
web = record {
  id = 1;
  name = "web";
  cloudspace_id = 1;
  size_id = 1;
  image_id = 1;
  disks = 4 ∷ [];
  nics =
      record { ip_address = some 10; mac_address = 11; type = NicType.bridge; pool_id = none }
      ∷ record { ip_address = some 80; mac_address = 12; type = NicType.public; pool_id = some 6 }
      ∷ [];
  status = MachineStatus.running;
  stack_id = 2;
  reference_id = 9;
  acl = [];
  is_virtual = true;
  clone_reference = 0;
}

abbrev disk : ℕ → Disk
disk k = record { id = k; account_id = 1; gid = 7; size_max = 10; status = DiskStatus.created }

abbrev pool : List ℕ → ExternalNetwork
pool ips = record { id = 6; gid = 7; account_id = 0; subnetmask = 24; ips = ips }

abbrev store : List VMachine → List ℕ → Models
store machines ips = record {
  account = team ∷ [];
  cloudspace = space ∷ [];
  vmachine = machines;
  disk = disk 4 ∷ disk 5 ∷ [];
  size = [];
  stack = [];
  externalnetwork = pool ips ∷ [];
  networkids = [];
}

abbrev before : Cloud
before = record { models = store (web ∷ []) (81 ∷ []); vfw = [] }

abbrev after : Cloud
after = (delete leases fw_guid net quiet ports applies 1 before).1

-- The address goes back to its pool.
gives_back : after.models.externalnetwork ≡ pool (81 ∷ 80 ∷ []) ∷ []
unfolding delete applies leases fw_guid
gives_back = refl

has_clone :
    (delete leases fw_guid net quiet ports applies 1 (record {
      models = store (web ∷ record web { id = 2; name = "copy"; clone_reference = 1 } ∷ []) [];
      vfw = [];
    })).0
    ≡ err conflict
unfolding delete applies leases fw_guid
has_clone = refl

removes : delete leases fw_guid net quiet ports applies 1 before ≡ (ok true, after)
unfolding delete applies leases fw_guid
removes = refl

delete_machine_lem_example : IsDeleted 1 before.models after.models
delete_machine_lem_example =
    delete_machine_lem leases fw_guid net quiet ports applies 1 before after (refl, tt)
      (refl, (refl, tt)) removes

abbrev plain : VMachine
plain = record web {
  nics =
      record { ip_address = some 10; mac_address = 11; type = NicType.bridge; pool_id = none } ∷ [];
}

abbrev private : Models
private = store (plain ∷ []) (81 ∷ 82 ∷ [])

abbrev attached : Models
attached = (attach_external_network net quiet ports 1 private).1

abbrev detached : Models
detached = (detach_external_network net quiet ports 1 attached).1

takes_address : attached.externalnetwork ≡ pool (82 ∷ []) ∷ []
unfolding attach_external_network
takes_address = refl

attaches : attach_external_network net quiet ports 1 private ≡ (ok true, attached)
unfolding attach_external_network
attaches = refl

detaches : detach_external_network net quiet ports 1 attached ≡ (ok true, detached)
unfolding attach_external_network detach_external_network
detaches = refl

detach_external_network-attach_external_network_example :
    (now : VMachine) × (get vm_id 1 detached.vmachine ≡ some now)
    × (now.nics ≡ plain.nics)
    × SameFree detached.externalnetwork private.externalnetwork
detach_external_network-attach_external_network_example =
    detach_external_network-attach_external_network net quiet ports 1 private attached detached
      plain (refl, tt) (refl, tt) (λ address prefixlen. refl) refl refl attaches detaches
