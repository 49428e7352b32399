-- ===== src/SwitchTopology/Objects.antt =====
-- The FabricNodes, Switches and Nodes of the cluster, as far as the controller reads them.
use unifabric.Common.{String, List, Map, string_eq, ◌==◌, if◌then◌else◌}

pub record LldpNeighbor : Type 0 where
  pub hostname : String
  pub port : String

pub record NicInfo : Type 0 where
  pub state : String
  pub lldp_neighbor : LldpNeighbor

pub record FabricNode : Type 0 where
  pub name : String
  pub node_role : String
  pub scale_out_nics : List NicInfo
  pub storage_nics : List NicInfo

pub record SwitchNeighbor : Type 0 where
  pub remote_system_type : String
  pub remote_system_name : String

-- v1beta1.Switch
pub record SwitchObject : Type 0 where
  pub name : String
  pub labels : Map String String
  pub annotations : Map String String
  pub role : String
  pub hostname : String
  pub lldp_neighbors : List SwitchNeighbor

-- corev1.Node
pub record NodeObject : Type 0 where
  pub name : String
  pub labels : Map String String

abbrev pub switch_role_scale_out : String
switch_role_scale_out = "ScaleOut"

abbrev pub switch_role_scale_up : String
switch_role_scale_up = "ScaleUp"

abbrev pub switch_role_storage : String
switch_role_storage = "Storage"

abbrev pub node_role_storage : String
node_role_storage = "Storage"

abbrev pub kubernetes_node_type : String
kubernetes_node_type = "KubernetesNode"

abbrev pub switch_neighbors_annotation : String
switch_neighbors_annotation = "unifabric.io/switch-neighbors"

unfoldable pub effective_switch_role : SwitchObject → String
effective_switch_role sw = if sw.role == "" then switch_role_scale_out else sw.role
