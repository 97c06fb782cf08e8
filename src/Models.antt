-- ===== src/Models.antt =====
-- The objects of the `cloudbroker` namespace (apps/osis/logic/cloudbroker/model.spec), with the
-- fields that the actors read or write, and the collections that the actors share.
pub mod Table
pub mod Unique
use openvcloud.Prelude.{ℕ, String, Bool, Option, List}
use openvcloud.Prelude.Int.{ℤ}

-- A right string such as "RCX", by the codes of its letters.
abbrev pub Rights : Type 0
Rights = List ℕ

pub data AceType : Type 0 where
  user group : AceType

pub data AceStatus : Type 0 where
  confirmed invited : AceStatus

pub record Ace : Type 0 where
  pub user_group_id : String
  pub type : AceType
  pub right : Rights
  pub status : AceStatus

pub data AccountStatus : Type 0 where
  unconfirmed confirmed disabled destroying destroyed : AccountStatus

pub data CloudspaceStatus : Type 0 where
  virtual deploying deployed disabled destroying destroyed : CloudspaceStatus

pub data MachineStatus : Type 0 where
  -- `unset` is the empty text of an object that no one gave a status.
  running halted paused error destroying destroyed unset : MachineStatus

-- The keys of `resourceLimits`. A limit of -1 is no limit.
pub data CuType : Type 0 where
  cu_m cu_d cu_c cu_np cu_i : CuType

-- `resourceLimits`; `none` is a key that is absent.
abbrev pub Limits : Type 0
Limits = CuType → Option ℤ

pub record Account : Type 0 where
  pub id : ℕ
  pub name : String
  pub acl : List Ace
  pub status : AccountStatus
  pub resource_limits : Limits
  pub send_access_emails : Bool

pub record Cloudspace : Type 0 where
  pub id : ℕ
  pub name : String
  pub account_id : ℕ
  pub gid : ℕ
  pub acl : List Ace
  pub status : CloudspaceStatus
  pub resource_limits : Limits
  pub network_id : Option ℕ
  pub externalnetwork_id : Option ℕ
  -- the address and the prefix length of `externalnetworkip`
  pub externalnetworkip : Option (ℕ × ℕ)
  pub allowed_vm_sizes : List ℕ

pub data NicType : Type 0 where
  public bridge : NicType

pub record Nic : Type 0 where
  -- `none` is the text 'Undefined'
  pub ip_address : Option ℕ
  pub mac_address : ℕ
  pub type : NicType
  -- the tag `externalnetworkId` of an interface of type PUBLIC
  pub pool_id : Option ℕ

pub record VMachine : Type 0 where
  pub id : ℕ
  pub name : String
  pub cloudspace_id : ℕ
  pub size_id : ℕ
  pub image_id : ℕ
  pub disks : List ℕ
  pub nics : List Nic
  pub status : MachineStatus
  pub stack_id : ℕ
  -- the id at the hypervisor; 0 is the empty text
  pub reference_id : ℕ
  pub acl : List Ace
  -- `type == 'VIRTUAL'`
  pub is_virtual : Bool
  -- the machine that it is a clone of; 0 is none
  pub clone_reference : ℕ

pub data DiskStatus : Type 0 where
  created destroyed : DiskStatus

pub record Disk : Type 0 where
  pub id : ℕ
  pub account_id : ℕ
  pub gid : ℕ
  pub size_max : ℕ
  pub status : DiskStatus

pub record Size : Type 0 where
  pub id : ℕ
  pub memory : ℕ
  pub vcpus : ℕ
  pub disks : List ℕ
  pub gids : List ℕ

-- An image, by what a new machine needs of it.
pub record Image : Type 0 where
  pub id : ℕ
  pub size : ℕ
  -- `status == 'CREATED'`
  pub is_created : Bool

pub data StackStatus : Type 0 where
  enabled error decomissioned other : StackStatus

pub record Stack : Type 0 where
  pub id : ℕ
  pub gid : ℕ
  pub reference_id : ℕ
  pub status : StackStatus
  pub images : List ℕ
  pub error : ℕ

-- A pool of public addresses.
pub record ExternalNetwork : Type 0 where
  pub id : ℕ
  pub gid : ℕ
  pub account_id : ℕ
  pub subnetmask : ℕ
  pub ips : List ℕ

-- The free network ids of a grid.
pub record NetworkIds : Type 0 where
  pub id : ℕ
  pub networkids : List ℕ

pub record Models : Type 0 where
  pub account : List Account
  pub cloudspace : List Cloudspace
  pub vmachine : List VMachine
  pub disk : List Disk
  pub size : List Size
  pub stack : List Stack
  pub externalnetwork : List ExternalNetwork
  pub networkids : List NetworkIds
