-- ===== src/Topology/Tiers.antt =====
-- `InferTiers`: a switch with a host at one of its ports has tier 1, and a breadth-first search from
-- those switches gives every other switch that it meets the next tier.
pub mod Steps
pub mod Start
pub mod Round
pub mod Search
pub mod Exact
use unifabric.Common.{
  String, List, [], ◌∷◌, ◌++◌, Bool, true, false, not, Map, ℤ, pos, negsuc, ◌+ℤ◌, get, get_or, put,
  keys, value_or, foldl, any, filter, sort_by, string_less, drain, length, ◌+◌, ◌==◌, if◌then◌else◌,
  string_eq, int_eq, ℕ,
}
use unifabric.Topology.Types.{
  Device, DeviceType, host, switch, unset, device_of, Adjacency, TopologyGraph,
}

abbrev pub is_switch : DeviceType → Bool
is_switch switch = true
is_switch _ = false

abbrev pub is_host : DeviceType → Bool
is_host host = true
is_host _ = false

-- The names that stand for true in the map, in increasing order.
pub sorted_bool_keys : Map String Bool → List String
sorted_bool_keys m = sort_by string_less (filter (λ name. value_or false (get m name)) (keys m))

pub has_host_neighbor : Adjacency → Map String Device → String → Bool
has_host_neighbor adj devices name =
    any (λ neighbor. is_host (device_of devices neighbor).type) (keys (get_or adj name []))

-- `device.Tier = tier; g.Devices[name] = device`
pub set_tier : Map String Device → String → ℤ → Map String Device
set_tier devices name tier = put devices name (record (device_of devices name) { tier = tier })

-- the body of the loop that collects the tier 1 switches
pub start_switch :
    Adjacency → Map String Device × List String → String → Map String Device × List String
unfolding has_host_neighbor set_tier
start_switch adj (devices, queue) name =
    if not (is_switch (device_of devices name).type)
    then (devices, queue)
    else if has_host_neighbor adj devices name
    then (set_tier devices name (pos 1), queue ++ name ∷ [])
    else (devices, queue)

-- the body of the loop over the neighbors of a switch in tier `current_tier`
pub visit_neighbor : ℤ → Map String Device × List String → String → Map String Device × List String
unfolding set_tier
visit_neighbor current_tier (devices, new) neighbor =
    if not (is_switch (device_of devices neighbor).type)
    then (devices, new)
    else if not ((device_of devices neighbor).tier == negsuc 0)
    then (devices, new)
    else (set_tier devices neighbor (current_tier +ℤ pos 1), new ++ neighbor ∷ [])

-- one round of the loop over the queue
pub expand : Adjacency → String → Map String Device → Map String Device × List String
expand adj current devices =
    foldl (visit_neighbor (device_of devices current).tier) (devices, [])
      (sorted_bool_keys (get_or adj current []))

-- The switches with a host neighbor, and the devices after they were given tier 1.
pub start_switches : TopologyGraph → Map String Device × List String
start_switches g = foldl (start_switch g.adj) (g.devices, []) (keys g.devices)

-- The queue that is left, and the devices. Every round takes one name
-- from the queue, and every name that is appended gets its tier in the same step.
pub search_tiers : TopologyGraph → List String × Map String Device
search_tiers g =
    let (devices, queue) = start_switches g in
    drain (expand g.adj) (length queue + length devices) (sort_by string_less queue) devices

pub infer_tiers : TopologyGraph → TopologyGraph
infer_tiers g = record g { devices = (search_tiers g).1 }
