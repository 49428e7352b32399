-- ===== src/Topology/Examples.antt =====
-- A fabric of two leaf switches with a host each and one spine, run through the stages, and the
-- results applied to it.
use unifabric.Common.{
  String, List, [], ◌∷◌, true, some, ℕ, suc, pos, negsuc, foldl, elem, string_eq, get, ◌≤◌, ◌≡◌,
  ◌≢◌, refl, ◌↔◌, ◌⊎◌, inl, inr, Member, keys,
}
use unifabric.Topology.Parents.{query_parent_chain}
use unifabric.Topology.Parents.Chain.{IsWholeChain, query_parent_chain-IsWholeChain}
use unifabric.Topology.Types.{Topology, Host, Neighbor, Switch, device_of, TopologyGraph, has_edge}
use unifabric.Topology.Graph.{build_topology_graph, resolve, new_device_resolver}
use unifabric.Topology.Graph.Devices.{get-build_devices, resolve_iff, switch_device}
use unifabric.Topology.Graph.WellFormed.{IsGraph, build_topology_graph-IsGraph}
use unifabric.Topology.Graph.Reports.{Reports, has_edge-build_topology_graph}
use unifabric.Topology.Tiers.{infer_tiers, search_tiers}
use unifabric.Topology.Tiers.Search.{Near}
use unifabric.Topology.Tiers.Exact.{
  KeepsDevices, infer_tiers_exact, infer_tiers-KeepsDevices, search_tiers_ends,
}
use unifabric.Topology.Normalize.{normalize_tier_edges}
use unifabric.Topology.Normalize.Exact.{IsNormalizationOf, normalize_tier_edges_exact}
use unifabric.Topology.Zones.{collect_connected_zones}
use unifabric.Topology.Zones.Exact.{AreZones, collect_connected_zones_exact}
use unifabric.Topology.Build.{
  build_topology, default_discover_options, discover_topology, with_hash_group_name,
}
use unifabric.Topology.Pipeline.{
  IsDiscovered, built-IsGraph, built-IsSymmetric, built-IsUntiered, switch_at_build, tiered-IsGraph,
  tiered-IsSymmetric, discover_topology_returns,
}

abbrev hosts : List Host
hosts = (record { name = "h1" }) ∷ (record { name = "h2" }) ∷ []

abbrev to : String → Neighbor
to name = record { local_device_name = ""; remote_system_name = name }

abbrev switches : List Switch
switches =
    (record { name = "leaf1"; neighbors = to "h1" ∷ to "unknown" ∷ [] })
    ∷ (record { name = "leaf2"; neighbors = to "h2" ∷ [] })
    ∷ (record { name = "spine"; neighbors = to "leaf1" ∷ to "leaf2" ∷ [] })
    ∷ []

abbrev fabric : TopologyGraph
fabric = build_topology_graph hosts switches

get-build_devices_example :
    get (build_topology_graph hosts switches).devices "spine" ≡ some (switch_device "spine")
unfolding elem
get-build_devices_example = get-build_devices hosts switches "spine"

resolve_iff_example : (resolve (new_device_resolver fabric.devices) (to "h1") ≡ some "h1") ↔ (
    ((to "h1").remote_system_name ≢ "")
    × ((to "h1").remote_system_name ≡ "h1")
    × Member "h1" (keys fabric.devices))
resolve_iff_example = resolve_iff fabric.devices (to "h1") "h1"

build_topology_graph-IsGraph_example : IsGraph (build_topology_graph hosts switches)
build_topology_graph-IsGraph_example = build_topology_graph-IsGraph hosts switches

has_edge-build_topology_graph_example :
    (has_edge (build_topology_graph hosts switches).adj "spine" "leaf1" ≡ true)
    ↔ (Reports hosts switches "spine" "leaf1" ⊎ Reports hosts switches "leaf1" "spine")
has_edge-build_topology_graph_example = has_edge-build_topology_graph hosts switches "spine" "leaf1"

infer_tiers_exact_example :
    ((device_of (infer_tiers fabric).devices "spine").tier ≡ negsuc 0)
      × ((j : ℕ) → ¬ Near fabric.adj fabric.devices j "spine")
    ⊎ ((k : ℕ) × ((device_of (infer_tiers fabric).devices "spine").tier ≡ pos (suc k))
        × Near fabric.adj fabric.devices k "spine"
        × ((j : ℕ) → Near fabric.adj fabric.devices j "spine" → k ≤ j))
infer_tiers_exact_example =
    infer_tiers_exact fabric "spine" (built-IsGraph hosts switches)
      (built-IsUntiered hosts switches)
      (switch_at_build hosts switches "spine" (inr (inr (inl refl))))

search_tiers_ends_example : (search_tiers fabric).0 ≡ []
search_tiers_ends_example =
    search_tiers_ends fabric (built-IsGraph hosts switches) (built-IsUntiered hosts switches)

infer_tiers-KeepsDevices_example : KeepsDevices fabric (infer_tiers fabric)
infer_tiers-KeepsDevices_example =
    infer_tiers-KeepsDevices fabric (built-IsGraph hosts switches) (built-IsUntiered hosts switches)

normalize_tier_edges_exact_example :
    (h : TopologyGraph) × (normalize_tier_edges (infer_tiers fabric) ≡ some h)
    × IsNormalizationOf (infer_tiers fabric) h
normalize_tier_edges_exact_example =
    normalize_tier_edges_exact (infer_tiers fabric) (tiered-IsGraph hosts switches)
      (tiered-IsSymmetric hosts switches)

collect_connected_zones_exact_example : AreZones fabric (collect_connected_zones fabric)
collect_connected_zones_exact_example =
    collect_connected_zones_exact fabric (built-IsGraph hosts switches)
      (built-IsSymmetric hosts switches)

discover_topology_returns_example :
    (g : TopologyGraph) × (discover_topology (λ s. s) hosts switches (with_hash_group_name ∷ [])
      ≡ some (
          build_topology
            (λ s. s)
            g
            (foldl (λ o option. option o) default_discover_options (with_hash_group_name ∷ []))))
    × IsDiscovered hosts switches g
discover_topology_returns_example =
    discover_topology_returns (λ s. s) hosts switches (with_hash_group_name ∷ [])

-- `leaf` has the parent `spine`, whose first parent is `leaf` again.
abbrev looped : Topology
looped = record {
  nodes = [];
  edges = [];
  nodes_by_tier = [];
  groups_by_tier = [];
  parent_index = ("leaf", "spine" ∷ "top" ∷ []) ∷ ("spine", "leaf" ∷ []) ∷ [];
}

query_parent_chain-IsWholeChain_example :
    IsWholeChain looped "leaf" (query_parent_chain looped "leaf")
query_parent_chain-IsWholeChain_example = query_parent_chain-IsWholeChain looped "leaf"

chain_of_leaf : query_parent_chain looped "leaf" ≡ "spine" ∷ "leaf" ∷ []
unfolding query_parent_chain unifabric.Topology.Parents.parent_chain
    unifabric.Topology.Parents.query_parents get elem
chain_of_leaf = refl
