-- ===== src/Topology/Types.antt =====
-- pkg/topology/topology.go: the data types of the topology discovery.
use unifabric.Common.{string_eq, String, List, Map, ℤ, Bool, false, get, get_or, value_or}

pub record Host : Type 0 where
  pub name : String

pub record Neighbor : Type 0 where
  pub local_device_name : String
  pub remote_system_name : String

pub record Switch : Type 0 where
  pub name : String
  pub neighbors : List Neighbor

-- `unset` is the empty string, the zero value of a device that is not there.
pub data DeviceType : Type 0 where
  host switch unset : DeviceType

pub record Device : Type 0 where
  pub name : String
  pub type : DeviceType
  pub tier : ℤ

pub record Link : Type 0 where
  pub src_device : String
  pub dst_device : String
  pub lldp : Neighbor

abbrev pub Adjacency : Type 0
Adjacency = Map String (Map String Bool)

pub record TopologyGraph : Type 0 where
  pub devices : Map String Device
  pub adj : Adjacency
  pub links : List Link

pub data TopologyNodeType : Type 0 where
  device group : TopologyNodeType

pub record TopologyNode : Type 0 where
  pub name : String
  pub type : TopologyNodeType
  pub tier : ℤ
  pub device_type : DeviceType
  pub members : List String

pub data EdgeKind : Type 0 where
  physical group_member : EdgeKind

pub record TopologyEdge : Type 0 where
  pub source : String
  pub target : String
  pub kind : EdgeKind

pub record TopologyGroup : Type 0 where
  pub name : String
  pub tier : ℤ
  pub members : List String
  pub lower_tier_nodes : List String
  pub upper_tier_nodes : List String

pub record Topology : Type 0 where
  pub nodes : Map String TopologyNode
  pub edges : List TopologyEdge
  pub nodes_by_tier : Map ℤ (List String)
  pub groups_by_tier : Map ℤ (List TopologyGroup)
  pub parent_index : Map String (List String)

pub data GroupNameMode : Type 0 where
  concat hash : GroupNameMode

pub record DiscoverOptions : Type 0 where
  pub group_name_mode : GroupNameMode
  pub hash_length : ℤ

-- what `g.Devices[name]` reads where no device has the name
abbrev pub no_device : Device
no_device = record { name = ""; type = unset; tier = ℤ.pos 0 }

abbrev pub device_of : Map String Device → String → Device
device_of devices name = value_or no_device (get devices name)

-- `adj[a][b]`; reading through a missing vertex gives false
unfoldable pub has_edge : Adjacency → String → String → Bool
has_edge adj a b = value_or false (get (get_or adj a List.[]) b)
