-- ===== src/Lib.antt =====
-- The OpenvCloud broker: the actors of apps/cloudbroker that keep accounts, cloudspaces and
-- virtual machines, decide who may act on them, and hand out capacity, addresses and ports.
--
-- A call of an actor passes the decorator of cloudbrokerlib/authenticator.py (Auth). The actors
-- read and write objects of the store (Models, Models/Table), which is passed from step to step;
-- what was written before an exception stays written (Result). The users of an account are the
-- actor cloudapi__accounts (Accounts); those of a cloudspace and of a machine, with what they
-- inherit, are Sharing. The limits of accounts and cloudspaces, what is reserved and what is
-- consumed are Limits, Limits/Change and Limits/Available. The port forwarding actor
-- (PortForwarding) works on the rules of the virtual firewalls, which cloudbrokerlib/netmgr.py
-- keeps (Firewall). The stack on which a machine is put is chosen by cloudbrokerlib/cloudbroker.py
-- (Scheduling). Public addresses and network ids come from the pools of cloudbrokerlib/network.py
-- and base/libcloud__libvirt (Pools). The life of a cloudspace goes over all of these: it takes a
-- network id and an address, is deployed with a firewall on a stack, and gives them back when it
-- is deleted (Cloudspaces). The actions on machines (Machines) and the disks that are attached to
-- them (Disks) go through the hypervisor of the machine's stack. Users of the portal get and reset
-- their passwords, and register on the invitations that the actors left in the access lists
-- (Users).
--
-- Files. Auth: `auth`, its methods `expandAcl…`, `checkAccountStatus`, `checkCloudspaceStatus`,
-- `isAuthorized` and `__call__` (`guarded`). Accounts: `addUser`, `_addACE`, `updateUser`,
-- `deleteUser`, the flags of `get`, and `checkUser`, `isValidRole`, `isaccountuserdeletable` of
-- cloudbrokerlib/cloudbroker.py. Sharing and Sharing/Machines: `getAccountAcl`,
-- `getCloudspaceAcl`, `getVMachineAcl` and the operations on users of cloudapi__cloudspaces and
-- cloudapi__machines. Limits: `fillResourceLimits`, `getReservedCloudUnits`,
-- `_validateAvaliableAccountResources` and the consumption; Limits/Change: `update` of accounts
-- and of cloudspaces; Limits/Available: `checkAvailableMachineResources` and
-- `checkAvailablePublicIPs`. Firewall: `fw_forward_create`, `fw_forward_delete`,
-- `fw_forward_list`, `fw_list`, `_getVFWObject`, `_applyconfig`. PortForwarding: `create`,
-- `delete`, `deleteByPort`, `deleteByVM`, `update`, `_selfcheckduplicate`, `_process_list`;
-- PortForwarding/Listed: `list`. Scheduling: `getCapacityInfo`, `getBestProvider`, `markProvider`,
-- `clearProvider` of cloudbrokerlib/cloudbroker.py. Pools: `getExternalIpAddress`,
-- `releaseExternalIpAddress`, `getFreeNetworkId`, `releaseNetworkId`, `registerNetworkIdRange`.
-- Cloudspaces: `deploy`, `delete`, `enable`, `disable`, `addAllowedSize`, `removeAllowedSize` of
-- cloudapi__cloudspaces, and `create` in Cloudspaces/Create; Cloudspaces/Network: `fw_create`,
-- `fw_delete`, `fw_destroy`, `fw_start`, `fw_stop` of cloudbrokerlib/netmgr.py and
-- `release_resources` of cloudbrokerlib/cloudbroker.py. Machines: `_action`, `start`, `stop`,
-- `reboot`, `reset`, `pause`, `resume` of cloudapi__machines, `getProviderAndNode` and
-- `chooseProvider` of cloudbrokerlib/cloudbroker.py; Machines/Provision: `create`, `cleanup`,
-- `getSize` and `updateMachineFromNode` of the class Machine there, and `getSize` of the class
-- CloudProvider; Machines/Create: `create` and `update` of cloudapi__machines, `validateCreate`,
-- `assertName` and `createModel` of the class Machine, and `list` of cloudapi__sizes;
-- Machines/External: `attachExternalNetwork` and `detachExternalNetwork` of cloudapi__machines;
-- Machines/Delete: `delete` there, with `fw_remove_lease` of cloudbrokerlib/netmgr.py. Users:
-- `updatePassword`, `sendResetPasswordLink`, `getResetPasswordInformation`, `resetPassword` of
-- cloudapi__users; Users/Register: `sendInviteLink`, `isValidInviteUserToken`,
-- `registerInvitedUser` there, and `updateResourceInvitations` of cloudbrokerlib/cloudbroker.py.
-- Disks: `create`, `_create` and `delete` of cloudapi__disks, `addDisk`, `attachDisk` and
-- `detachDisk` of cloudapi__machines. The other files hold lemmas on the part that they stand
-- under; the files named Tests run the code on concrete objects.
--
-- Conventions. Ids, ports and addresses are natural numbers; limits are integers with -1 for no
-- limit, so the conversions of `fillResourceLimits` (float for the memory, int for the others)
-- change nothing here, and fractional limits are left out. Rights are lists of letters, read up to
-- their members where the source makes sets of them. Memory is counted in MB and compared with
-- limits in GB by multiplying the limit by 1024, as the division by 1024.0 of the source is exact.
-- Protocols other than tcp and udp, which `create` refuses first, have no value here. A query of
-- the store is a filter in the order of the store. The rules of a firewall are taken as objects
-- that are equal only to themselves, so `remove` in the loop of `fw_forward_delete` takes out the
-- rule that the loop is at. The locks of the store are left out: an operation runs without another
-- one in between. The start of `deploy` in the background by `create` is a step of its own.
--
-- Fuel. The loop of `fw_forward_delete` removes from the list that it runs over. Its model takes
-- as many rounds as there are rules; each round moves the index on, so no more are ever run. The
-- loop of `Machine.create` takes a stack in each round and rules it out when it yields no node;
-- its model takes as many rounds as are given, and one more than there are stacks is enough.
--
-- What lies outside the repository or ends in a call to it is a parameter: the portal's user
-- database (`get_user_info`), its user manager (`create_user`), the md5 of a password (`hash`),
-- the match of the pattern of addresses (`is_address`), the sending of an e-mail (`send_email`,
-- `mail`), the job that applies a firewall's rules (`run_job`), what `get` of cloudapi__machines
-- answers on the interfaces of a machine, with the addresses that the hypervisor reports
-- (`interfaces`), the nodes with a session at the agent controller (`active`), the jobs that
-- create, destroy, start and stop a firewall on a node with the texts of its id (`Jobs`), the
-- driver of the hypervisor (`Hypervisor`, `Driver` for the images, the sizes and the making of
-- nodes, and `NodePorts` for its public interfaces and its removal), the texts of addresses
-- (`Netaddr`) and of a firewall's id (`fw_guid`), the job that removes leases (`lease_job`), the
-- ids that the store gives new objects (`fresh`, `fresh_disk`, `fresh_machine`), the objects of
-- the images, which are only read (`images`), the grid of a location (`location`), and the store's
-- answer to a pull from fields that are no lists (`bad_pull`).
--
-- Not modelled: times and texts of objects, audit tags, e-mails; the interfaces that a new machine
-- gets from its node, and the stack and the reference of its disks; the logins of machines, their
-- clones, sizes that change, snapshots and images; the moving and restoring of firewalls, and
-- firewalls of another type than routeros; the operator actors, the portal and the scripts on the
-- nodes.
mod Prelude
pub mod Result
pub mod Models
pub mod Auth
pub mod Accounts
pub mod Sharing
pub mod Limits
pub mod Firewall
pub mod PortForwarding
pub mod Pools
pub mod Scheduling
pub mod Cloudspaces
pub mod Machines
pub mod Users
pub mod Disks
