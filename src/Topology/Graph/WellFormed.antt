-- ===== src/Topology/Graph/WellFormed.antt =====
-- What `BuildTopologyGraph` guarantees to the stages after it.
use unifabric.Common.{
  String, List, [], ◌≡◌, Bool, true, refl, sym, subst, ap, ◌∙◌, ◌↔◌, ◌⊎◌, inl, inr, ⊎_elim, none,
  some, arith, Member, Map, get, put, get_or, keys, get-put, Member-keys-put, Member_of_get,
  Distinct, Distinct-keys-put, ◌==◌, string_eq, foldl, foldl_keeps, if_keeps, Member-map, Option,
  Option-cases, elem_iff, Bool-cases,
}
use unifabric.Topology.Types.{Host, Neighbor, Switch, Device, Adjacency, TopologyGraph}
use unifabric.Topology.Graph.{
  ensure_vertex, set_edge, add_undirected_edge, DeviceResolver, new_device_resolver, resolve,
  add_host, add_switch, add_devices, empty_graph, link_neighbor, link_resolved, link_switch,
  build_topology_graph,
}
use unifabric.Topology.Graph.Devices.{
  resolve_iff, devices-build_topology_graph, get-build_devices, switch_names, host_device,
  switch_device,
}

-- A row of the adjacency maps: no key twice, and every value true.
pub record IsRow (row : Map String Bool) : Type 0 where
  pub distinct : Distinct (keys row)
  pub all_true : (b : String) (v : Bool) → get row b ≡ some v → v ≡ true

pub record IsAdjacency (adj : Adjacency) : Type 0 where
  pub distinct : Distinct (keys adj)
  pub rows : (a : String) (row : Map String Bool) → get adj a ≡ some row → IsRow row

pub IsRow-nil : IsRow []
unfolding get
IsRow-nil = record { distinct = tt; all_true = λ b v h. cc }

pub IsRow-put : (row : Map String Bool) (b : String) → IsRow row → IsRow (put row b true)
IsRow-put row b h = record {
  distinct = Distinct-keys-put row b true h.distinct;
  all_true = λ c v e. ground (arith, get-put row b c true, h.all_true c v);
}

pub IsRow-get_or : (adj : Adjacency) (a : String) → IsAdjacency adj → IsRow (get_or adj a [])
IsRow-get_or adj a h = elim (Option-cases (get adj a)) [
  | inl miss ↦ rw miss IsRow-nil
  | inr (row, hit) ↦ rw hit (h.rows a row hit)
]

pub put-IsAdjacency :
    (adj : Adjacency) (a : String) (row : Map String Bool)
    → IsAdjacency adj
    → IsRow row
    → IsAdjacency (put adj a row)
put-IsAdjacency adj a row h r = record {
  distinct = Distinct-keys-put adj a row h.distinct;
  rows = λ c q e. elim (Bool-cases (a == c)) [
    | inl same ↦ subst IsRow (ground (arith, get-put adj a c row)) r
    | inr other ↦ h.rows c q (ground (arith, get-put adj a c row))
  ];
}

pub ensure_vertex-IsAdjacency :
    (adj : Adjacency) (a : String) → IsAdjacency adj → IsAdjacency (ensure_vertex adj a)
unfolding ensure_vertex
ensure_vertex-IsAdjacency adj a h = elim (Option-cases (get adj a)) [
  | inl miss ↦ rw (miss, ensure_vertex) (put-IsAdjacency adj a [] h IsRow-nil)
  | inr (row, hit) ↦ rw (hit, ensure_vertex) h
]

pub set_edge-IsAdjacency :
    (adj : Adjacency) (a b : String) → IsAdjacency adj → IsAdjacency (set_edge adj a b)
unfolding set_edge
set_edge-IsAdjacency adj a b h = put-IsAdjacency adj a _ h (IsRow-put _ b (IsRow-get_or adj a h))

add_undirected_edge-IsAdjacency :
    (adj : Adjacency) (a b : String) → IsAdjacency adj → IsAdjacency (add_undirected_edge adj a b)
unfolding add_undirected_edge
add_undirected_edge-IsAdjacency adj a b h = search (set_edge-IsAdjacency, ensure_vertex-IsAdjacency)

-- the vertices
Member-ensure_vertex :
    (adj : Adjacency) (a v : String)
    → Member v (keys (ensure_vertex adj a)) ↔ (Member v (keys adj) ⊎ (v ≡ a))
unfolding ensure_vertex
Member-ensure_vertex adj a v = elim (Option-cases (get adj a)) [
  | inl miss ↦ rw (miss, ensure_vertex) (Member-keys-put adj a v [])
  | inr (row, hit) ↦
      rw (hit, ensure_vertex)
        (
          inl,
          ⊎_elim (λ m. m)
              (λ e.
                subst (λ (x : String). Member x (keys adj)) (sym e) (Member_of_get adj a row hit)),
        )
]

pub Member-set_edge :
    (adj : Adjacency) (a b v : String)
    → Member v (keys (set_edge adj a b)) ↔ (Member v (keys adj) ⊎ (v ≡ a))
unfolding set_edge
Member-set_edge adj a b v = Member-keys-put adj a v _

Member-add_undirected_edge :
    (adj : Adjacency) (a b v : String)
    → Member v (keys (add_undirected_edge adj a b)) ↔ (Member v (keys adj) ⊎ (v ≡ a) ⊎ (v ≡ b))
unfolding add_undirected_edge
Member-add_undirected_edge adj a b v = ground (
  arith,
  Member-ensure_vertex adj a v,
  Member-ensure_vertex (ensure_vertex adj a) b v,
  Member-set_edge (ensure_vertex (ensure_vertex adj a) b) a b v,
  Member-set_edge (set_edge (ensure_vertex (ensure_vertex adj a) b) a b) b a v,
)

-- The vertices are the devices.
abbrev pub SameKeys : TopologyGraph → Type 0
SameKeys g = (v : String) → Member v (keys g.adj) ↔ Member v (keys g.devices)

pub record IsGraph (g : TopologyGraph) : Type 0 where
  pub adjacency : IsAdjacency g.adj
  pub devices : Distinct (keys g.devices)
  pub vertices : SameKeys g

add_host-IsGraph : (g : TopologyGraph) (h : Host) → IsGraph g → IsGraph (add_host g h)
unfolding add_host
add_host-IsGraph g h i = record {
  adjacency = ensure_vertex-IsAdjacency g.adj h.name i.adjacency;
  devices = Distinct-keys-put g.devices h.name _ i.devices;
  vertices = λ v. ground (
    arith,
    i.vertices v,
    Member-ensure_vertex g.adj h.name v,
    Member-keys-put g.devices h.name v (host_device h.name),
  );
}

add_switch-IsGraph : (g : TopologyGraph) (s : Switch) → IsGraph g → IsGraph (add_switch g s)
unfolding add_switch
add_switch-IsGraph g s i = record {
  adjacency = ensure_vertex-IsAdjacency g.adj s.name i.adjacency;
  devices = Distinct-keys-put g.devices s.name _ i.devices;
  vertices = λ v. ground (
    arith,
    i.vertices v,
    Member-ensure_vertex g.adj s.name v,
    Member-keys-put g.devices s.name v (switch_device s.name),
  );
}

add_devices-IsGraph : (hosts : List Host) (sws : List Switch) → IsGraph (add_devices hosts sws)
unfolding add_devices get
add_devices-IsGraph hosts sws =
    foldl_keeps IsGraph add_switch sws _ (λ g s _. add_switch-IsGraph g s)
      (foldl_keeps IsGraph add_host hosts empty_graph (λ g h _. add_host-IsGraph g h)
        (record {
          adjacency = record { distinct = tt; rows = λ a row e. cc };
          devices = tt;
          vertices = λ v. (λ m. m, λ m. m);
        }))

link_resolved-IsGraph :
    (sw : Switch) (g : TopologyGraph) (n : Neighbor) (dst : String)
    → IsGraph g
    → Member sw.name (keys g.devices)
    → Member dst (keys g.devices)
    → IsGraph (link_resolved sw g n (some dst))
unfolding link_resolved
link_resolved-IsGraph sw g n dst i m k = record {
  adjacency = add_undirected_edge-IsAdjacency g.adj sw.name dst i.adjacency;
  devices = i.devices;
  vertices = λ v. (
    λ h. elim ((Member-add_undirected_edge g.adj sw.name dst v).0 h) [
      | inl old ↦ (i.vertices v).0 old
      | inr (inl e) ↦ rw e m
      | inr (inr e) ↦ rw e k
    ],
    λ h. (Member-add_undirected_edge g.adj sw.name dst v).1 (inl ((i.vertices v).1 h)),
  );
}

module _ (r : DeviceResolver) (known : Map String Device) where
  -- the resolver answers with devices only
  abbrev Resolves : Type 0
  Resolves = (n : Neighbor) (d : String) → resolve r n ≡ some d → Member d (keys known)

  abbrev IsGraphOver : TopologyGraph → Type 0
  IsGraphOver g = (g.devices ≡ known) × IsGraph g

  link_neighbor-IsGraphOver :
      Resolves
      → (sw : Switch) (g : TopologyGraph) (n : Neighbor) → Member sw.name (keys known)
      → IsGraphOver g
      → IsGraphOver (link_neighbor r sw g n)
  unfolding link_neighbor
  link_neighbor-IsGraphOver res sw g n m i = if_keeps IsGraphOver _ i (resolved (resolve r n) refl)
    where
      resolved : (o : Option String) → resolve r n ≡ o → IsGraphOver (link_resolved sw g n o)
      resolved none e = i
      resolved (some dst) e =
          (i.0, link_resolved-IsGraph sw g n dst i.1 (rw (i.0) m) (rw (i.0) (res n dst e)))

  link_switch-IsGraphOver :
      Resolves
      → (sws : List Switch) (g : TopologyGraph)
      → ((sw : Switch) → Member sw sws → Member sw.name (keys known))
      → IsGraphOver g
      → IsGraphOver (foldl (link_switch r) g sws)
  unfolding link_switch
  link_switch-IsGraphOver res sws g declared i =
      foldl_keeps IsGraphOver (link_switch r) sws g
        (λ h sw m j.
          foldl_keeps IsGraphOver (link_neighbor r sw) sw.neighbors h
            (λ t n _ k. link_neighbor-IsGraphOver res sw t n (declared sw m) k) j)
        i

-- Every switch is a device.
switch_declared :
    (hosts : List Host) (sws : List Switch) (sw : Switch)
    → Member sw sws
    → Member sw.name (keys (add_devices hosts sws).devices)
switch_declared hosts sws sw m = Member_of_get _ sw.name (switch_device sw.name) (
    sym (devices_at (devices-build_topology_graph hosts sws))
    ∙ get-build_devices hosts sws sw.name
    ∙ rw ((elem_iff sw.name (switch_names sws)).1 (Member-map (λ s. s.name) sw sws m)))
  where
    devices_at : {a b : Map String Device} → a ≡ b → get a sw.name ≡ get b sw.name
    devices_at e = ap (λ (d : Map String Device). get d sw.name) e

-- The graph that `BuildTopologyGraph` returns: its vertices are its devices, and its maps hold no
-- key twice and no false entry.
pub build_topology_graph-IsGraph :
    (hosts : List Host) (sws : List Switch) → IsGraph (build_topology_graph hosts sws)
unfolding build_topology_graph
build_topology_graph-IsGraph hosts sws =
    let g = add_devices hosts sws in
    (link_switch-IsGraphOver (new_device_resolver g.devices) g.devices
      (λ n d e. ((resolve_iff g.devices n d).0 e).2) sws g (switch_declared hosts sws)
      (refl, add_devices-IsGraph hosts sws)).1
