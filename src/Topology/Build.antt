-- ===== src/Topology/Build.antt =====
-- `BuildTopology` and `DiscoverTopology`.
use unifabric.Common.{
  String, List, [], ◌∷◌, ◌++◌, Bool, Map, Option, none, some, ℤ, pos, get_or, put, keys, foldl,
  sort_by, string_less, dedupe_sorted, ltb_ℤ, map, ◌==◌, if◌then◌else◌, string_eq, int_eq,
}
use unifabric.Topology.Types.{
  Host, Switch, Device, unset, TopologyGraph, Topology, device, group, physical, group_member,
  TopologyGroup, DiscoverOptions, concat, hash,
}
use unifabric.Topology.Graph.{build_topology_graph}
use unifabric.Topology.Tiers.{infer_tiers}
use unifabric.Topology.Normalize.{normalize_tier_edges}
use unifabric.Topology.Zones.{collect_connected_zones}
use unifabric.Topology.Groups.{ZoneDeviceView, build_zone_device_view, build_tier_groups}
use unifabric.Topology.Parents.{sorted_tier_keys, build_parent_index_for_zone}

unfoldable pub default_discover_options : DiscoverOptions
default_discover_options = record { group_name_mode = concat; hash_length = pos 7 }

-- A `DiscoverOption` is a function on the options.
pub with_concat_group_name : DiscoverOptions → DiscoverOptions
with_concat_group_name o = record o { group_name_mode = concat }

pub with_hash_group_name : DiscoverOptions → DiscoverOptions
with_hash_group_name o = record o { group_name_mode = hash }

pub with_hash_length : ℤ → DiscoverOptions → DiscoverOptions
with_hash_length n o = if ltb_ℤ (pos 0) n then record o { hash_length = n } else o

abbrev pub empty_topology : Topology
empty_topology = record {
  nodes = [];
  edges = [];
  nodes_by_tier = [];
  groups_by_tier = [];
  parent_index = [];
}

-- `m[tier] = append(m[tier], x)`
pub append_tier : {V : Type 0} → Map ℤ (List V) → ℤ → V → Map ℤ (List V)
append_tier m tier x = put m tier (get_or m tier [] ++ x ∷ [])

-- the body of the loop over the devices
pub add_node : Topology → String × Device → Topology
unfolding append_tier
add_node t (name, d) = if ltb_ℤ d.tier (pos 0) then t else record t {
  nodes =
      put t.nodes name
        (record { name = name; type = device; tier = d.tier; device_type = d.type; members = [] });
  nodes_by_tier = append_tier t.nodes_by_tier d.tier name;
}

-- `sortNodesByTier`
pub sort_nodes_by_tier : Topology → Topology
sort_nodes_by_tier t = record t {
  nodes_by_tier = map (λ e. (e.0, dedupe_sorted (sort_by string_less e.1))) t.nodes_by_tier;
}

-- `sortGroupsByTier`
pub sort_groups_by_tier : Topology → Topology
sort_groups_by_tier t = record t {
  groups_by_tier =
      map (λ e. (e.0, sort_by (λ (a b : TopologyGroup). string_less a.name b.name) e.1))
        t.groups_by_tier;
}

-- the edges of one vertex: each pair of names is listed from its lesser end
pub add_row_edges : Topology → String × Map String Bool → Topology
add_row_edges t (a, neighbors) =
    foldl
      (λ (t : Topology) b. if string_less b a then t else record t {
        edges = t.edges ++ (record { source = a; target = b; kind = physical }) ∷ [];
      })
      t (keys neighbors)

-- `len(group.Members) == 1 && group.Name == group.Members[0]`
pub is_single : TopologyGroup → List String → Bool
is_single gr (member ∷ []) = gr.name == member
is_single gr _ = Bool.false

-- the group's own node, its name in the tier and its edges to the members
pub add_group_node : Topology → ℤ → TopologyGroup → Topology
unfolding append_tier
add_group_node t tier gr = record t {
  nodes = put t.nodes gr.name (record {
    name = gr.name;
    type = group;
    tier = tier;
    device_type = unset;
    members = gr.members;
  });
  nodes_by_tier = append_tier t.nodes_by_tier tier gr.name;
  edges =
      t.edges
      ++ map (λ member. record { source = gr.name; target = member; kind = group_member })
          gr.members;
}

-- the body of the loop over the groups of a tier
pub add_group : ℤ → Topology × Map String String → TopologyGroup → Topology × Map String String
unfolding append_tier add_group_node is_single
add_group tier (t, device_to_group) gr =
    let t' = record t { groups_by_tier = append_tier t.groups_by_tier tier gr } in
    (
      if is_single gr gr.members then t' else add_group_node t' tier gr,
      foldl (λ m member. put m member gr.name) device_to_group gr.members,
    )

module _ (sha1_hex : String → String) (g : TopologyGraph) (opts : DiscoverOptions) where
  -- the body of the loop over the tiers of a zone
  pub add_tier : ZoneDeviceView → Topology × Map String String → ℤ → Topology × Map String String
  unfolding add_group
  add_tier zone (t, device_to_group) tier =
      if tier == pos 0
      then (t, device_to_group)
      else foldl (add_group tier) (t, device_to_group)
          (build_tier_groups sha1_hex g zone tier opts device_to_group)

  -- in tier 0 every device is its own group
  pub tier_zero_groups : ZoneDeviceView → Map String String
  tier_zero_groups zone =
      foldl
        (λ (m : Map String String) (e : String × Device).
          if e.1.tier == pos 0 then put m e.0 e.0 else m)
        [] zone.devices

  -- the body of the loop over the zones
  pub add_zone : Topology → List String → Topology
  unfolding add_tier tier_zero_groups
  add_zone t zone_device_names =
      let zone = build_zone_device_view g zone_device_names in
      build_parent_index_for_zone g zone
        (foldl (add_tier zone) (t, tier_zero_groups zone) (sorted_tier_keys zone.devices_by_tier)).0

  pub build_topology : Topology
  unfolding add_zone add_row_edges add_node sort_nodes_by_tier sort_groups_by_tier
  build_topology =
      let nodes = sort_nodes_by_tier (foldl add_node empty_topology g.devices) in
      let edges = foldl add_row_edges nodes g.adj in
      let zones = foldl add_zone edges (collect_connected_zones g) in
      sort_groups_by_tier (sort_nodes_by_tier zones)

-- `none` would be the panic of `NormalizeTierEdges`.
unfoldable pub discover_topology :
    (String → String)
    → List Host
    → List Switch
    → List (DiscoverOptions → DiscoverOptions)
    → Option Topology
discover_topology sha1_hex hosts switches options =
    let opts = foldl (λ o option. option o) default_discover_options options in
    elim (normalize_tier_edges (infer_tiers (build_topology_graph hosts switches))) [
      | none ↦ none
      | some g ↦ some (build_topology sha1_hex g opts)
    ]
