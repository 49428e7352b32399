-- ===== src/Topology/Zones.antt =====
-- `CollectConnectedZones`: the connected components that hold a host, in the order of their least host.
pub mod Exact
use unifabric.Common.{
  String, List, [], ◌∷◌, ◌++◌, Bool, Map, get_or, keys, map, filter, foldl, sort_by, string_less,
  explore, append_name, is_marked, if◌then◌else◌, string_eq,
}
use unifabric.Topology.Types.{Device, Adjacency, TopologyGraph}
use unifabric.Topology.Tiers.{is_host, sorted_bool_keys}

-- `sortedBoolKeys(g.Adj[current])`
pub neighbors_of : Adjacency → String → List String
neighbors_of adj current = sorted_bool_keys (get_or adj current [])

pub collect_host_starts : TopologyGraph → List String
collect_host_starts g =
    sort_by string_less
      (map (λ e. e.0) (filter (λ (e : String × Device). is_host e.1.type) g.devices))

-- The marks after the search and the sorted names of the zone. A name is marked when it leaves the
-- queue, so it may stand in the queue more than once.
pub collect_zone_device_names :
    TopologyGraph → String → Map String Bool → Map String Bool × List String
collect_zone_device_names g start visited =
    let (queue, (visited', result)) =
      explore (neighbors_of g.adj) append_name (keys g.adj) start visited [] in
    (visited', sort_by string_less result)

-- the body of the loop over the starts
pub collect_zone :
    TopologyGraph
    → Map String Bool × List (List String)
    → String
    → Map String Bool × List (List String)
collect_zone g (visited, zones) start =
    if is_marked visited start
    then (visited, zones)
    else let (visited', device_names) = collect_zone_device_names g start visited in
      (visited', zones ++ device_names ∷ [])

pub collect_connected_zones : TopologyGraph → List (List String)
collect_connected_zones g = (foldl (collect_zone g) ([], []) (collect_host_starts g)).1
