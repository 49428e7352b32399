-- ===== src/Topology/Pipeline.antt =====
-- The stages of `DiscoverTopology` fit: each returns what the next one needs.
use unifabric.Common.{
  String, List, true, some, ℕ, suc, pos, negsuc, keys, string_eq, foldl, ◌≡◌, refl, sym, ap, subst,
  Member, Distinct, elem_iff, ◌∙◌, ◌↔◌, ◌≤◌, ◌⊎◌, inl, inr, ⊎_elim, arith,
}
use mathlib.Core.Path.{subst₂}
use unifabric.Topology.Types.{
  Adjacency, Host, Switch, switch, device_of, TopologyGraph, has_edge, DiscoverOptions,
}
use unifabric.Topology.Graph.{build_topology_graph}
use unifabric.Topology.Graph.Devices.{host_device, get-build_devices, switch_names, host_names}
use unifabric.Topology.Graph.WellFormed.{IsGraph, IsAdjacency, build_topology_graph-IsGraph}
use unifabric.Topology.Graph.Reports.{Reports, has_edge-build_topology_graph}
use unifabric.Topology.Tiers.{infer_tiers}
use unifabric.Topology.Tiers.Search.{Near}
use unifabric.Topology.Tiers.Exact.{
  KeepsDevices, IsUntiered, infer_tiers-KeepsDevices, infer_tiers_exact,
}
use unifabric.Topology.Normalize.{normalize_tier_edges}
use unifabric.Topology.Normalize.Edges.{IsSymmetric, AreAdjacentTiers}
use unifabric.Topology.Normalize.Exact.{normalize_tier_edges_exact, IsNormalizationOf}
use unifabric.Topology.Build.{build_topology, default_discover_options, discover_topology}

module _ (hosts : List Host) (sws : List Switch) where
  abbrev pub built : TopologyGraph
  built = build_topology_graph hosts sws

  abbrev pub tiered : TopologyGraph
  tiered = infer_tiers built

  pub built-IsGraph : IsGraph built
  built-IsGraph = build_topology_graph-IsGraph hosts sws

  pub built-IsSymmetric : IsSymmetric built
  built-IsSymmetric a b h =
      (has_edge-build_topology_graph hosts sws b a).1
        (⊎_elim inr inl ((has_edge-build_topology_graph hosts sws a b).0 h))

  pub built-IsUntiered : IsUntiered built
  built-IsUntiered x sw = ground (arith, get-build_devices hosts sws x)

  kept : KeepsDevices built tiered
  kept = infer_tiers-KeepsDevices built built-IsGraph built-IsUntiered

  pub tiered-IsGraph : IsGraph tiered
  tiered-IsGraph = record {
    adjacency = subst IsAdjacency (sym kept.adj) built-IsGraph.adjacency;
    devices = subst Distinct (sym kept.keys_same) built-IsGraph.devices;
    vertices = λ v.
        subst₂ (λ (a : Adjacency) (ks : List String). Member v (keys a) ↔ Member v ks)
          (sym kept.adj) (sym kept.keys_same) (built-IsGraph.vertices v);
  }

  pub tiered-IsSymmetric : IsSymmetric tiered
  tiered-IsSymmetric =
      subst (λ (a : Adjacency). (x y : String) → has_edge a x y ≡ true → has_edge a y x ≡ true)
        (sym kept.adj) built-IsSymmetric

  has_edge-tiered : (x y : String) → has_edge tiered.adj x y ≡ has_edge built.adj x y
  has_edge-tiered x y = ap (λ (a : Adjacency). has_edge a x y) kept.adj

-- The graph from which `DiscoverTopology` builds its result: the edges are the reported links whose
-- ends are in tiers that differ by one, a host is in tier 0, and the tier of a switch is one more than
-- its distance in hops from the switches that have a link with a host, or -1 where there is none.
pub record IsDiscovered (hosts : List Host) (sws : List Switch) (h : TopologyGraph) : Type 0 where
  pub graph : IsGraph h
  pub edges :
      (a b : String)
      → (has_edge h.adj a b ≡ true) ↔ (
          AreAdjacentTiers (device_of h.devices a).tier (device_of h.devices b).tier
          × (Reports hosts sws a b ⊎ Reports hosts sws b a))
  pub host_tier :
      (a : String)
      → Member a (host_names hosts)
      → ¬ Member a (switch_names sws)
      → device_of h.devices a ≡ host_device a
  pub switch_tier :
      (a : String)
      → Member a (switch_names sws)
      → ((device_of h.devices a).tier ≡ negsuc 0)
          × ((j : ℕ) → ¬ Near (built hosts sws).adj (built hosts sws).devices j a)
        ⊎ ((k : ℕ) × ((device_of h.devices a).tier ≡ pos (suc k))
            × Near (built hosts sws).adj (built hosts sws).devices k a
            × ((j : ℕ) → Near (built hosts sws).adj (built hosts sws).devices j a → k ≤ j))

module _ (hosts : List Host) (sws : List Switch) where
  abbrev normal :
      (h : TopologyGraph) × (normalize_tier_edges (tiered hosts sws) ≡ some h)
      × IsNormalizationOf (tiered hosts sws) h
  normal =
      normalize_tier_edges_exact (tiered hosts sws) (tiered-IsGraph hosts sws)
        (tiered-IsSymmetric hosts sws)

  abbrev final : TopologyGraph
  final = normal.0

  device_at_build :
      (a : String)
      → ¬ Member a (switch_names sws)
      → Member a (host_names hosts)
      → device_of (built hosts sws).devices a ≡ host_device a
  device_at_build a n m = ground (
    arith,
    get-build_devices hosts sws a,
    elem_iff a (switch_names sws),
    elem_iff a (host_names hosts),
  )

  pub switch_at_build :
      (a : String)
      → Member a (switch_names sws)
      → (device_of (built hosts sws).devices a).type ≡ switch
  switch_at_build a m = ground (arith, get-build_devices hosts sws a, elem_iff a (switch_names sws))

  device_final : (a : String) → device_of final.devices a ≡ device_of (tiered hosts sws).devices a
  device_final a = ap (λ d. device_of d a) normal.2.devices

  final_edges :
      (a b : String)
      → (has_edge final.adj a b ≡ true) ↔ (
          AreAdjacentTiers (device_of final.devices a).tier (device_of final.devices b).tier
          × (Reports hosts sws a b ⊎ Reports hosts sws b a))
  final_edges a b =
      let e = normal.2.edges a b in
      let r = has_edge-build_topology_graph hosts sws a b in
      let q = has_edge-tiered hosts sws a b in
      rw (device_final a, device_final b)
        (λ h. let (t, x) = e.0 h in (t, r.0 (sym q ∙ x)), λ (t, x). e.1 (t, q ∙ r.1 x))

  final-IsDiscovered : IsDiscovered hosts sws final
  final-IsDiscovered = record {
    graph = normal.2.graph;
    edges = final_edges;
    host_tier = λ a m n.
        device_final a
        ∙ (kept hosts sws).others a (λ sw. ground (arith, device_at_build a n m))
        ∙ device_at_build a n m;
    switch_tier = λ a m. rw (device_final a) (
        infer_tiers_exact (built hosts sws) a (built-IsGraph hosts sws) (built-IsUntiered hosts sws)
          (switch_at_build a m));
  }

-- For every hosts, switches and options `DiscoverTopology` returns and does not panic, with the
-- topology built from a graph whose edges are the reported links between neighboring tiers, whose
-- hosts that are no switch are in tier 0, and whose switches have one more than their distance from
-- the switches with a host, or -1.
pub discover_topology_returns :
    (sha1_hex : String → String) (hosts : List Host) (sws : List Switch)
    (options : List (DiscoverOptions → DiscoverOptions))
    → (g : TopologyGraph) × (discover_topology sha1_hex hosts sws options
        ≡ some (
            build_topology sha1_hex g
              (foldl (λ o option. option o) default_discover_options options)))
      × IsDiscovered hosts sws g
unfolding discover_topology
discover_topology_returns sha1_hex hosts sws options = (
  final hosts sws,
  rw ((normal hosts sws).1, discover_topology) refl,
  final-IsDiscovered hosts sws,
)
