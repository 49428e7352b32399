-- ===== src/Topology/Graph.antt =====
-- `BuildTopologyGraph`, the device resolver and the writes to the adjacency maps.
pub mod Edges
pub mod Devices
pub mod WellFormed
pub mod Reports
use unifabric.Common.{
  String, List, [], ◌∷◌, ◌++◌, Bool, true, false, not, ◌&&◌, Option, none, some, Map, ℤ, pos,
  negsuc, get, get_or, put, keys, foldl, ◌==◌, if◌then◌else◌, string_eq,
}
use unifabric.Topology.Types.{
  Host, Neighbor, Switch, Device, host, switch, Link, Adjacency, TopologyGraph,
}

pub ensure_vertex : Adjacency → String → Adjacency
ensure_vertex adj name = elim (get adj name) [ none ↦ put adj name [] | some _ ↦ adj ]

-- `adj[a][b] = true`, where `a` is a vertex
unfoldable pub set_edge : Adjacency → String → String → Adjacency
set_edge adj a b = put adj a (put (get_or adj a []) b true)

-- Both writes come after `ensureVertex`, so neither is to a nil map.
pub add_undirected_edge : Adjacency → String → String → Adjacency
unfolding ensure_vertex set_edge
add_undirected_edge adj a b =
    let adj' = ensure_vertex (ensure_vertex adj a) b in set_edge (set_edge adj' a b) b a

pub record DeviceResolver : Type 0 where
  pub by_name : Map String String

pub new_device_resolver : Map String Device → DeviceResolver
new_device_resolver devices = record {
  by_name = foldl (λ m name. put m name name) [] (keys devices);
}

pub resolve : DeviceResolver → Neighbor → Option String
resolve r n = if n.remote_system_name == "" then none else get r.by_name n.remote_system_name

-- the body of the loop over `hosts`
pub add_host : TopologyGraph → Host → TopologyGraph
add_host g h = record g {
  devices = put g.devices h.name (record { name = h.name; type = host; tier = pos 0 });
  adj = ensure_vertex g.adj h.name;
}

-- the body of the first loop over `switches`
pub add_switch : TopologyGraph → Switch → TopologyGraph
add_switch g sw = record g {
  devices = put g.devices sw.name (record { name = sw.name; type = switch; tier = negsuc 0 });
  adj = ensure_vertex g.adj sw.name;
}

pub link_resolved : Switch → TopologyGraph → Neighbor → Option String → TopologyGraph
link_resolved sw g n none = g
link_resolved sw g n (some dst) = record g {
  links = g.links ++ (record { src_device = sw.name; dst_device = dst; lldp = n }) ∷ [];
  adj = add_undirected_edge g.adj sw.name dst;
}

-- the body of the loop over a switch's neighbors
pub link_neighbor : DeviceResolver → Switch → TopologyGraph → Neighbor → TopologyGraph
unfolding link_resolved
link_neighbor r sw g n =
    if not (n.local_device_name == "") && not (n.local_device_name == sw.name)
    then g
    else link_resolved sw g n (resolve r n)

pub link_switch : DeviceResolver → TopologyGraph → Switch → TopologyGraph
link_switch r g sw = foldl (link_neighbor r sw) g sw.neighbors

abbrev pub empty_graph : TopologyGraph
empty_graph = record { devices = []; adj = []; links = [] }

-- the graph before the links: a switch takes the place of a host of its name
pub add_devices : List Host → List Switch → TopologyGraph
add_devices hosts switches = foldl add_switch (foldl add_host empty_graph hosts) switches

pub build_topology_graph : List Host → List Switch → TopologyGraph
build_topology_graph hosts switches =
    let g = add_devices hosts switches in
    foldl (link_switch (new_device_resolver g.devices)) g switches
