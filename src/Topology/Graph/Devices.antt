-- ===== src/Topology/Graph/Devices.antt =====
-- Which devices the graph has, and which names the resolver knows.
use unifabric.Common.{
  String, List, [], ◌∷◌, ◌≡◌, ◌≢◌, refl, ◌↔◌, ◌⊎◌, none, some, arith, Member, Map, map, get, put,
  elem, ◌∙◌, keys, get-put, ==_iff, if◌then◌else◌, string_eq, foldl, pos, negsuc,
}
use unifabric.Topology.Types.{Host, Neighbor, Switch, Device, host, switch, TopologyGraph}
use unifabric.Topology.Graph.{
  DeviceResolver, new_device_resolver, resolve, add_host, add_switch, add_devices, link_neighbor,
  link_switch, build_topology_graph,
}

abbrev IsSelfMap : Map String String → Type 0
IsSelfMap m = (x y : String) → get m x ≡ some y → x ≡ y

put-IsSelfMap : (m : Map String String) (k : String) → IsSelfMap m → IsSelfMap (put m k k)
put-IsSelfMap m k h x y = ground (arith, get-put m k x k, ==_iff k x, h x y)

get-self_map :
    (m : Map String String) (ks : List String) (x y : String)
    → IsSelfMap m
    → (get (foldl (λ m name. put m name name) m ks) x ≡ some y)
      ↔ ((x ≡ y) × (Member x ks ⊎ (get m x ≡ some x)))
get-self_map m [] x y h = ground (arith, h x y)
get-self_map m (k ∷ ks) x y h =
    ground
      (arith, get-self_map (put m k k) ks x y (put-IsSelfMap m k h), get-put m k x k, ==_iff k x)

-- The resolver of some devices returns a name for a neighbor exactly when that name is the neighbor's
-- remote system name, is not empty, and is the name of a device.
pub resolve_iff :
    (devices : Map String Device) (n : Neighbor) (d : String)
    → (resolve (new_device_resolver devices) n ≡ some d)
      ↔ ((n.remote_system_name ≢ "") × (n.remote_system_name ≡ d) × Member d (keys devices))
unfolding resolve new_device_resolver get
resolve_iff devices n d = ground (
  arith,
  get-self_map [] (keys devices) n.remote_system_name d (λ x y e. cc),
  ==_iff n.remote_system_name "",
)

abbrev pub host_device : String → Device
host_device x = record { name = x; type = host; tier = pos 0 }

abbrev pub switch_device : String → Device
switch_device x = record { name = x; type = switch; tier = negsuc 0 }

abbrev pub host_names : List Host → List String
host_names = map (λ h. h.name)

abbrev pub switch_names : List Switch → List String
switch_names = map (λ s. s.name)

get-add_hosts :
    (g : TopologyGraph) (hosts : List Host) (x : String)
    → get (foldl add_host g hosts).devices x
      ≡ (if elem x (host_names hosts) then some (host_device x) else get g.devices x)
unfolding add_host elem
get-add_hosts g [] x = refl
get-add_hosts g (h ∷ hosts) x = ground (
  arith,
  get-add_hosts (add_host g h) hosts x,
  get-put g.devices h.name x (host_device h.name),
  ==_iff h.name x,
)

get-add_switches :
    (g : TopologyGraph) (sws : List Switch) (x : String)
    → get (foldl add_switch g sws).devices x
      ≡ (if elem x (switch_names sws) then some (switch_device x) else get g.devices x)
unfolding add_switch elem
get-add_switches g [] x = refl
get-add_switches g (s ∷ sws) x = ground (
  arith,
  get-add_switches (add_switch g s) sws x,
  get-put g.devices s.name x (switch_device s.name),
  ==_iff s.name x,
)

-- Before the links: a switch name is a switch, any other host name is a host, and nothing else is
-- a device.
pub get-add_devices :
    (hosts : List Host) (sws : List Switch) (x : String)
    → get (add_devices hosts sws).devices x ≡ (
        if elem x (switch_names sws)
        then some (switch_device x)
        else if elem x (host_names hosts)
        then some (host_device x)
        else none)
unfolding add_devices get
get-add_devices hosts sws x = rw (get-add_switches, get-add_hosts) refl

devices-link_neighbor :
    (r : DeviceResolver) (sw : Switch) (g : TopologyGraph) (n : Neighbor)
    → (link_neighbor r sw g n).devices ≡ g.devices
unfolding link_neighbor
devices-link_neighbor r sw g n = ground arith

devices-link_neighbors :
    (r : DeviceResolver) (sw : Switch) (g : TopologyGraph) (ns : List Neighbor)
    → (foldl (link_neighbor r sw) g ns).devices ≡ g.devices
devices-link_neighbors r sw g [] = refl
devices-link_neighbors r sw g (n ∷ ns) =
    devices-link_neighbors r sw (link_neighbor r sw g n) ns ∙ devices-link_neighbor r sw g n

pub devices-link_switches :
    (r : DeviceResolver) (g : TopologyGraph) (sws : List Switch)
    → (foldl (link_switch r) g sws).devices ≡ g.devices
unfolding link_switch
devices-link_switches r g [] = refl
devices-link_switches r g (s ∷ sws) =
    devices-link_switches r (link_switch r g s) sws ∙ devices-link_neighbors r s g s.neighbors

pub devices-build_topology_graph :
    (hosts : List Host) (sws : List Switch)
    → (build_topology_graph hosts sws).devices ≡ (add_devices hosts sws).devices
unfolding build_topology_graph
devices-build_topology_graph hosts sws = devices-link_switches _ (add_devices hosts sws) sws

-- In the built graph a switch name is a switch without a tier (-1), any other host name is a host in
-- tier 0, and nothing else is a device.
pub get-build_devices :
    (hosts : List Host) (sws : List Switch) (x : String)
    → get (build_topology_graph hosts sws).devices x ≡ (
        if elem x (switch_names sws)
        then some (switch_device x)
        else if elem x (host_names hosts)
        then some (host_device x)
        else none)
get-build_devices hosts sws x =
    rw (devices-build_topology_graph hosts sws) (get-add_devices hosts sws x)
