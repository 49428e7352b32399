-- ===== src/Topology/Graph/Reports.antt =====
-- Which neighbor entries become edges of the graph.
use unifabric.Common.{
  String, List, ◌≡◌, ◌≢◌, true, false, refl, sym, subst, ◌∙◌, ◌↔◌, ◌⊎◌, inl, inr, arith, Member,
  get, keys, Member-keys_iff, string_eq, foldl_keeps, elem_iff,
}
use unifabric.Topology.Types.{Host, Neighbor, Switch, TopologyGraph, has_edge}
use unifabric.Topology.Graph.{
  DeviceResolver, new_device_resolver, add_host, add_switch, add_devices, empty_graph,
  build_topology_graph,
}
use unifabric.Topology.Graph.Edges.{Accepts, has_edge-link_switches, has_edge-ensure_vertex}
use unifabric.Topology.Graph.Devices.{resolve_iff, host_names, switch_names, get-add_devices}

-- What a switch's neighbor entry must say to stand for a link from `a` to `b`.
pub record Reports (hosts : List Host) (sws : List Switch) (a b : String) : Type 0 where
  pub sw : Switch
  pub n : Neighbor
  pub listed : Member sw sws
  pub entry : Member n sw.neighbors
  pub source : sw.name ≡ a
  pub own : (n.local_device_name ≡ "") ⊎ (n.local_device_name ≡ sw.name)
  pub target : n.remote_system_name ≡ b
  pub named : b ≢ ""
  pub declared : Member b (host_names hosts) ⊎ Member b (switch_names sws)

device_declared :
    (hosts : List Host) (sws : List Switch) (b : String)
    → Member b (keys (add_devices hosts sws).devices)
      ↔ (Member b (host_names hosts) ⊎ Member b (switch_names sws))
device_declared hosts sws b = ground (
  arith,
  Member-keys_iff (add_devices hosts sws).devices b,
  get-add_devices hosts sws b,
  elem_iff b (host_names hosts),
  elem_iff b (switch_names sws),
)

abbrev HasNoEdge : TopologyGraph → Type 0
HasNoEdge g = (x y : String) → has_edge g.adj x y ≡ false

add_devices-HasNoEdge : (hosts : List Host) (sws : List Switch) → HasNoEdge (add_devices hosts sws)
unfolding add_devices add_host add_switch has_edge get
add_devices-HasNoEdge hosts sws =
    foldl_keeps HasNoEdge add_switch sws _
      (λ g s _ h x y. has_edge-ensure_vertex g.adj s.name x y ∙ h x y)
      (foldl_keeps HasNoEdge add_host hosts empty_graph
        (λ g k _ h x y. has_edge-ensure_vertex g.adj k.name x y ∙ h x y) (λ x y. refl))

module _ (hosts : List Host) (sws : List Switch) where
  abbrev resolver : DeviceResolver
  resolver = new_device_resolver (add_devices hosts sws).devices

  Reports-of_Accepts :
      (sw : Switch) (n : Neighbor) (b : String)
      → Member sw sws
      → Member n sw.neighbors
      → Accepts resolver sw n b
      → Reports hosts sws sw.name b
  Reports-of_Accepts sw n b m k a =
      let (named, target, known) = (resolve_iff (add_devices hosts sws).devices n b).0 a.resolved in
      record {
        sw = sw;
        n = n;
        listed = m;
        entry = k;
        source = refl;
        own = a.own;
        target = target;
        named = λ e. named (target ∙ e);
        declared = (device_declared hosts sws b).0 known;
      }

  Accepts-of_Reports : (a b : String) (p : Reports hosts sws a b) → Accepts resolver p.sw p.n b
  Accepts-of_Reports a b p = record {
    own = p.own;
    resolved =
        (resolve_iff (add_devices hosts sws).devices p.n b).1
          (λ e. p.named (sym p.target ∙ e), p.target, (device_declared hosts sws b).1 p.declared);
  }

-- Two devices are adjacent in the built graph exactly when a switch of one name has a neighbor
-- entry that is its own or names no local device, and whose remote system is the other name, not
-- empty, and the name of a host or a switch.
pub has_edge-build_topology_graph :
    (hosts : List Host) (sws : List Switch) (a b : String)
    → (has_edge (build_topology_graph hosts sws).adj a b ≡ true)
      ↔ (Reports hosts sws a b ⊎ Reports hosts sws b a)
unfolding build_topology_graph
has_edge-build_topology_graph hosts sws a b =
    let both = has_edge-link_switches (resolver hosts sws) (add_devices hosts sws) sws a b in
    (
      λ h. elim (both.0 h) [
        | inl e ↦ cc (add_devices-HasNoEdge hosts sws a b)
        | inr (sw, n, m, k, inl (t, e)) ↦
            inl (
              subst (λ x. Reports hosts sws x b) (sym e)
                (Reports-of_Accepts hosts sws sw n b m k t))
        | inr (sw, n, m, k, inr (t, e)) ↦
            inr (
              subst (λ x. Reports hosts sws x a) (sym e)
                (Reports-of_Accepts hosts sws sw n a m k t))
      ],
      λ h. elim h [
        | inl p ↦ both.1 (
            inr (
              p.sw,
              p.n,
              p.listed,
              p.entry,
              inl (Accepts-of_Reports hosts sws a b p, sym p.source),
            ))
        | inr p ↦ both.1 (
            inr (
              p.sw,
              p.n,
              p.listed,
              p.entry,
              inr (Accepts-of_Reports hosts sws b a p, sym p.source),
            ))
      ],
    )
