-- ===== src/SwitchTopology/Inputs.antt =====
-- `buildTopologyInputsForRole`: the hosts and the switches that the discovery gets. A switch builder
-- is a value of a map, and each change of it is a new value.
pub mod Builders
pub mod WellFormed
pub mod Returns
use unifabric.Common.{
  String, List, [], ◌∷◌, ◌++◌, Map, ℕ, Bool, true, false, not, ◌&&◌, ◌||◌, Option, none, some, get,
  get_or, put, keys, value_or, string_eq, ◌==◌, if◌then◌else◌, foldl, map, filter, any, sort_by,
  string_less, dedupe_sorted,
}
use unifabric.Topology.Types.{Host, Switch, Neighbor}
use unifabric.SwitchTopology.Types.{
  Attempt, done, fails, ◌>>=◌, fold_attempt, not_string_array, empty_neighbor_name,
  unknown_neighbor, self_reference, missing_builder,
}
use unifabric.SwitchTopology.Objects.{
  NicInfo, FabricNode, SwitchNeighbor, SwitchObject, switch_role_scale_out, switch_role_scale_up,
  switch_role_storage, node_role_storage, kubernetes_node_type, switch_neighbors_annotation,
  effective_switch_role,
}
use unifabric.SwitchTopology.ResourceNames.{trim_space, normalize_resource_name}

-- a set is a map to `true`
abbrev pub NameSet : Type 0
NameSet = Map String Bool

abbrev pub is_in : NameSet → String → Bool
is_in set name = get_or set name false

pub record TopologyInputs : Type 0 where
  pub hosts : List Host
  pub switches : List Switch
  pub node_only : Bool
  pub synthetic_switches : NameSet

pub record TopologySwitchBuilder : Type 0 where
  pub data_of : Switch
  pub seen : NameSet

abbrev pub Builders : Type 0
Builders = Map String TopologySwitchBuilder

abbrev pub new_builder : String → TopologySwitchBuilder
new_builder name = record { data_of = record { name = name; neighbors = [] }; seen = [] }

unfoldable pub add_neighbor : TopologySwitchBuilder → Neighbor → TopologySwitchBuilder
add_neighbor b neighbor =
    if neighbor.remote_system_name == "" || is_in b.seen neighbor.remote_system_name
    then b
    else record {
      data_of = record (b.data_of) { neighbors = b.data_of.neighbors ++ neighbor ∷ [] };
      seen = put b.seen neighbor.remote_system_name true;
    }

-- ensureSwitchBuilder, with the builders after it
unfoldable pub ensure_switch_builder : Builders → String → Builders × TopologySwitchBuilder
ensure_switch_builder builders name = elim (get builders name) [
  | some b ↦ (builders, b)
  | none ↦ (put builders name (new_builder name), new_builder name)
]

-- `ensureSwitchBuilder(name).addNeighbor(…)`
unfoldable pub add_link : Builders → String → String → Builders
add_link builders name remote =
    let (builders', b) = ensure_switch_builder builders name in
    put builders' name
      (add_neighbor b (record { local_device_name = name; remote_system_name = remote }))

unfoldable pub has_manual_switch_neighbors : SwitchObject → Bool
has_manual_switch_neighbors sw = elim (get sw.annotations switch_neighbors_annotation) [
  | none ↦ false
  | some raw ↦ true
]

unfoldable pub node_nics_for_role : FabricNode → String → List NicInfo
node_nics_for_role node role =
    if role == switch_role_scale_out
    then (if node.node_role == node_role_storage then [] else node.scale_out_nics)
    else if role == switch_role_scale_up
    then []
    else if role == switch_role_storage
    then node.storage_nics
    else []

unfoldable pub canonical_remote_system_name : String → NameSet → Map String String → String
canonical_remote_system_name raw host_names normalized =
    if is_in host_names raw
    then raw
    else value_or raw (get normalized (normalize_resource_name raw))

-- the name, and whether a builder has it
unfoldable pub resolve_switch_name : String → Map String String → Builders → String × Bool
resolve_switch_name raw normalized existing = elim (get existing raw) [
  | some b ↦ (raw, true)
  | none ↦ elim (get normalized (normalize_resource_name raw)) [
    | none ↦ ("", false)
    | some name ↦ elim (get existing name) [ none ↦ (name, false) | some b ↦ (name, true) ]
  ]
]

-- `dedupeStrings(neighbors)` after `sort.Strings(neighbors)`
unfoldable pub sorted_map_keys : NameSet → List String
sorted_map_keys set = sort_by string_less (keys set)

-- the loop that trims the names
unfoldable pub trim_names : List String → Attempt (List String)
trim_names [] = done []
trim_names (name ∷ names) =
    let trimmed = trim_space name in
    if trimmed == ""
    then fails empty_neighbor_name
    else (trim_names names >>= λ rest. done (trimmed ∷ rest))

-- `json.Unmarshal` into a slice of strings, with none for an error
module _ (unmarshal_strings : String → Option (List String)) where
  unfoldable pub parse_manual_switch_neighbors : SwitchObject → Attempt (List String)
  parse_manual_switch_neighbors sw =
      let raw = trim_space (get_or sw.annotations switch_neighbors_annotation "") in
      if raw == "" then done [] else elim (unmarshal_strings raw) [
        | none ↦ fails not_string_array
        | some names ↦
            trim_names names >>= λ trimmed. done (dedupe_sorted (sort_by string_less trimmed))
      ]

-- the maps that the loops over the nodes change
pub record Scan : Type 0 where
  pub builders : Builders
  pub synthetic : NameSet
  pub participating : NameSet

-- the names of the switches of the role, by their normalized forms
unfoldable pub add_switch_names : Map String String → SwitchObject → Map String String
add_switch_names normalized sw =
    let named = put normalized (normalize_resource_name sw.name) sw.name in
    if sw.hostname == "" then named else put named (normalize_resource_name sw.hostname) sw.name

unfoldable pub managed_hosts : List FabricNode → NameSet
managed_hosts fabric_nodes = foldl (λ set n. put set n.name true) [] fabric_nodes

module _ (normalized : Map String String) (synthesize : Bool) (node_name : String) where
  -- one NIC; the Boolean is `matchedHost`
  unfoldable pub scan_nic : Scan × Bool → NicInfo → Scan × Bool
  scan_nic (s, matched) nic =
      if not (nic.state == "up") || nic.lldp_neighbor.hostname == "" || nic.lldp_neighbor.port == ""
      then (s, matched)
      else (let resolved = resolve_switch_name nic.lldp_neighbor.hostname normalized s.builders in
          if resolved.1
          then (record s { builders = add_link s.builders (resolved.0) node_name }, true)
          else if synthesize
          then (let name = normalize_resource_name nic.lldp_neighbor.hostname in
              if name == "" then (s, matched) else (
                record s {
                  builders = add_link s.builders name node_name;
                  synthetic = put s.synthetic name true;
                },
                true,
              ))
          else (s, matched))

-- `synthesize` is `nodeOnly || semiAutomatic`
unfoldable pub scan_node : String → Map String String → Bool → Scan → FabricNode → Scan
scan_node role normalized synthesize s node =
    let (s', matched) =
      foldl (scan_nic normalized synthesize node.name) (s, false) (node_nics_for_role node role) in
    if matched then record s' { participating = put s'.participating node.name true } else s'

module _ (normalized : Map String String) (synthetic : NameSet) where
  -- one neighbor that the annotation of a switch names
  unfoldable pub add_manual_neighbor : SwitchObject → Builders → String → Attempt Builders
  add_manual_neighbor sw builders neighbor_name =
      let resolved = resolve_switch_name neighbor_name normalized builders in
      let name = if resolved.1 then resolved.0 else normalize_resource_name neighbor_name in
      if not (resolved.1) && not (is_in synthetic name)
      then fails unknown_neighbor
      else if name == sw.name
      then fails self_reference
      else done (add_link builders sw.name name)

module _ (hosts : NameSet) (normalized : Map String String) where
  -- one neighbor that a switch reports
  unfoldable pub add_reported_neighbor : SwitchObject → Builders → SwitchNeighbor → Builders
  add_reported_neighbor sw builders neighbor =
      let remote = canonical_remote_system_name neighbor.remote_system_name hosts normalized in
      if neighbor.remote_system_type == kubernetes_node_type || is_in hosts remote
      then builders
      else add_link builders sw.name remote

unfoldable pub sorted_switch : TopologySwitchBuilder → Switch
sorted_switch b = record (b.data_of) {
  neighbors =
      sort_by (λ m n. string_less m.remote_system_name n.remote_system_name) b.data_of.neighbors;
}

-- the loop over the sorted switch names
unfoldable pub topology_switches : Builders → List String → Attempt (List Switch)
topology_switches builders [] = done []
topology_switches builders (name ∷ names) = elim (get builders name) [
  | none ↦ fails missing_builder
  | some b ↦ topology_switches builders names >>= λ rest. done (sorted_switch b ∷ rest)
]

unfoldable pub host_of : String → Host
host_of name = record { name = name }

module _ (unmarshal_strings : String → Option (List String)) where
  -- the switch's turn in the last loop over the switches of the role
  unfoldable pub add_switch_neighbors :
      Bool → NameSet → Map String String → NameSet → Builders → SwitchObject → Attempt Builders
  add_switch_neighbors semi_automatic hosts normalized synthetic builders sw =
      let ensured = ensure_switch_builder builders sw.name in
      if semi_automatic
      then (parse_manual_switch_neighbors unmarshal_strings sw >>= λ names.
          fold_attempt (add_manual_neighbor normalized synthetic sw) (ensured.0) names)
      else done (foldl (add_reported_neighbor hosts normalized sw) (ensured.0) sw.lldp_neighbors)

  unfoldable pub build_topology_inputs_for_role :
      String → List FabricNode → List SwitchObject → Attempt TopologyInputs
  build_topology_inputs_for_role role fabric_nodes switches =
      let hosts = managed_hosts fabric_nodes in
      let role_switches = filter (λ sw. effective_switch_role sw == role) switches in
      let normalized = foldl add_switch_names [] role_switches in
      let node_only : Bool = elim role_switches [ [] ↦ true | sw ∷ rest ↦ false ] in
      let semi_automatic =
        not node_only && not (any (λ sw. not (has_manual_switch_neighbors sw)) role_switches) in
      let start : Scan = record {
        builders = foldl (λ bs sw. (ensure_switch_builder bs sw.name).0) [] role_switches;
        synthetic = [];
        participating = [];
      } in
      let s = foldl (scan_node role normalized (node_only || semi_automatic)) start fabric_nodes in
      fold_attempt (add_switch_neighbors semi_automatic hosts normalized s.synthetic) s.builders
        role_switches
      >>= λ builders.
          topology_switches builders (sort_by string_less (keys builders)) >>= λ topo_switches.
          done (record {
            hosts = map host_of (sorted_map_keys s.participating);
            switches = topo_switches;
            node_only = node_only;
            synthetic_switches = s.synthetic;
          })
