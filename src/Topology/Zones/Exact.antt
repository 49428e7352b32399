-- ===== src/Topology/Zones/Exact.antt =====
-- The zones are the connected components with a host, each once.
use unifabric.Common.{
  String, List, [], ◌∷◌, ◌++◌, Bool, true, false, Map, get, get_or, keys, foldl, string_less,
  string_order, explore_exact, is_marked, Reaches, here, onward, string_eq, Increasing,
  Increasing-sort_by, Member-sort_by, Member, Member-append, Member-keys_iff, Member-filter,
  Member-map, Member-map_inv, get_of_entry, entry_of_get, ◌≡◌, refl, sym, subst, ◌↔◌, ◌⊎◌, inl, inr,
  ⊎_elim, arith, Bool-cases, Option-cases,
}
use unifabric.Topology.Types.{Device, host, device_of, Adjacency, TopologyGraph, has_edge}
use unifabric.Topology.Graph.WellFormed.{IsGraph}
use unifabric.Topology.Normalize.Edges.{IsSymmetric}
use unifabric.Topology.Normalize.Exact.{vertex_of_edge}
use unifabric.Topology.Tiers.{is_host}
use unifabric.Topology.Tiers.Steps.{Member-sorted_bool_keys}
use unifabric.Topology.Zones.{
  neighbors_of, collect_host_starts, collect_zone_device_names, collect_zone,
  collect_connected_zones,
}

pub Member-neighbors_of :
    (adj : Adjacency) (x y : String) → Member y (neighbors_of adj x) ↔ (has_edge adj x y ≡ true)
unfolding neighbors_of has_edge
Member-neighbors_of adj x y = Member-sorted_bool_keys (get_or adj x []) y

-- A chain of edges, in any number of hops.
abbrev pub Connected : TopologyGraph → String → String → Type 0
Connected g = Reaches (neighbors_of g.adj)

module _ (g : TopologyGraph) where
  pub Connected-trans : {x y z : String} → Connected g x y → Connected g y z → Connected g x z
  Connected-trans p here = p
  Connected-trans p (onward q m) = onward (Connected-trans p q) m

  pub Connected-sym : {x y : String} → IsSymmetric g → Connected g x y → Connected g y x
  Connected-sym s here = here
  Connected-sym s (onward {y} {z} q m) =
      Connected-trans
        (onward here
          ((Member-neighbors_of g.adj z y).1 (s y z ((Member-neighbors_of g.adj y z).0 m))))
        (Connected-sym s q)

pub Member-host_starts :
    (g : TopologyGraph) (x : String)
    → IsGraph g
    → Member x (collect_host_starts g) ↔ ((device_of g.devices x).type ≡ host)
unfolding collect_host_starts
Member-host_starts g x graph = (
  λ m.
      let (e, k, p) = Member-map_inv (λ e. e.0) x _ ((Member-sort_by string_less x _).0 m) in
      let (member, h) =
        (Member-filter (λ (e : String × Device). is_host e.1.type) e g.devices).0 k in
      rw (p, get_of_entry g.devices e.0 e.1 graph.devices member) (ground arith),
  λ h. elim (Option-cases (get g.devices x)) [
    | inl e ↦ cc (rw e at h)
    | inr (d, e) ↦ (Member-sort_by string_less x _).1 (
        Member-map (λ e. e.0) (x, d) _
          ((Member-filter (λ (e : String × Device). is_host e.1.type) (x, d) g.devices).1
            (entry_of_get g.devices x d e, rw (rw e at h) refl)))
  ],
)

-- One zone: strictly increasing, and the whole connected component of one of its hosts.
pub record IsZone (g : TopologyGraph) (zone : List String) : Type 0 where
  pub start : String
  pub is_host : (device_of g.devices start).type ≡ host
  pub members : (y : String) → Member y zone ↔ Connected g start y
  pub sorted : Increasing string_less zone

-- No name is in two of the zones.
abbrev pub Disjoint : List (List String) → Type 0
Disjoint [] = Unit
Disjoint (z ∷ zs) =
    ((w : List String) (y : String) → Member w zs → Member y z → Member y w → ⊥) × Disjoint zs

Disjoint-append_one :
    (zs : List (List String)) (w : List String)
    → Disjoint zs
    → ((z : List String) (y : String) → Member z zs → Member y z → Member y w → ⊥)
    → Disjoint (zs ++ w ∷ [])
Disjoint-append_one [] w d apart = (λ v y m. absurd m, tt)
Disjoint-append_one (z ∷ zs) w d apart = (
  λ v y m a b. elim ((Member-append v zs (w ∷ [])).0 m) [
    | inl k ↦ d.0 v y k a b
    | inr (inl e) ↦ apart z y (inl refl) a (subst (Member y) e b)
    | inr (inr k) ↦ k
  ],
  Disjoint-append_one zs w d.1 (λ v y m. apart v y (inr m)),
)

module _ (g : TopologyGraph) (graph : IsGraph g) (symmetric : IsSymmetric g) where
  covers : (x y : String) → Member y (neighbors_of g.adj x) → Member x (keys g.adj)
  covers x y m =
      (Member-keys_iff g.adj x).1 (vertex_of_edge g.adj x y ((Member-neighbors_of g.adj x y).0 m))

  abbrev IsClosed : Map String Bool → Type 0
  IsClosed v =
      (a b : String) → is_marked v a ≡ true → Member b (neighbors_of g.adj a) → is_marked v b ≡ true

  -- a closed set of marks holds all of a component or nothing of it
  closed_Connected :
      (v : Map String Bool) {x y : String}
      → IsClosed v
      → Connected g x y
      → is_marked v x ≡ true
      → is_marked v y ≡ true
  closed_Connected v c here h = h
  closed_Connected v c (onward {y} {z} r m) h = c y z (closed_Connected v c r h) m

  record Inv (s : Map String Bool × List (List String)) : Type 0 where
    closed : IsClosed s.0
    marked :
        (y : String) → (is_marked s.0 y ≡ true) ↔ ((z : List String) × Member z s.1 × Member y z)
    zones : (z : List String) → Member z s.1 → IsZone g z
    disjoint : Disjoint s.1

  module _ (v : Map String Bool) (zs : List (List String)) (u : String)
      (fresh : is_marked v u ≡ false) (i : Inv (v, zs)) where
    abbrev marks : Map String Bool
    marks = (collect_zone_device_names g u v).0

    abbrev zone : List String
    zone = (collect_zone_device_names g u v).1

    unmarked : (y : String) → Connected g u y → is_marked v y ≡ false
    unmarked y r = elim (Bool-cases (is_marked v y)) [
      | inr h ↦ h
      | inl h ↦ cc (closed_Connected v i.closed (Connected-sym g symmetric r) h)
    ]

    marks_iff :
        (y : String) → (is_marked marks y ≡ true) ↔ ((is_marked v y ≡ true) ⊎ Connected g u y)
    unfolding collect_zone_device_names
    marks_iff = (explore_exact (neighbors_of g.adj) (keys g.adj) covers u v i.closed).1

    zone_iff : (y : String) → Member y zone ↔ Connected g u y
    unfolding collect_zone_device_names
    zone_iff y =
        let found = (explore_exact (neighbors_of g.adj) (keys g.adj) covers u v i.closed).2 y in
        (
          λ m. (found.0 ((Member-sort_by string_less y _).0 m)).0,
          λ r. (Member-sort_by string_less y _).1 (found.1 (r, unmarked y r)),
        )

    zone-Increasing : Increasing string_less zone
    unfolding collect_zone_device_names
    zone-Increasing =
        Increasing-sort_by string_order _
          (explore_exact (neighbors_of g.adj) (keys g.adj) covers u v i.closed).3

    Inv-zone : (device_of g.devices u).type ≡ host → Inv (marks, zs ++ zone ∷ [])
    Inv-zone h = record {
      closed = λ a b k m. elim ((marks_iff a).0 k) [
        | inl old ↦ (marks_iff b).1 (inl (i.closed a b old m))
        | inr r ↦ (marks_iff b).1 (inr (onward r m))
      ];
      marked = λ y. (
        λ k. elim ((marks_iff y).0 k) [
          | inl old ↦
              let (z, m, n) = (i.marked y).0 old in
              (z, (Member-append z zs (zone ∷ [])).1 (inl m), n)
          | inr r ↦ (zone, (Member-append zone zs (zone ∷ [])).1 (inr (inl refl)), (zone_iff y).1 r)
        ],
        λ (z, m, n). elim ((Member-append z zs (zone ∷ [])).0 m) [
          | inl k ↦ (marks_iff y).1 (inl ((i.marked y).1 (z, k, n)))
          | inr (inl e) ↦ (marks_iff y).1 (inr ((zone_iff y).0 (subst (Member y) e n)))
          | inr (inr k) ↦ absurd k
        ],
      );
      zones = λ z m. elim ((Member-append z zs (zone ∷ [])).0 m) [
        | inl k ↦ i.zones z k
        | inr (inl e) ↦ subst (IsZone g) (sym e) this_zone
        | inr (inr k) ↦ absurd k
      ];
      disjoint =
          Disjoint-append_one zs zone i.disjoint
            (λ z y m a b. cc (unmarked y ((zone_iff y).0 b), (i.marked y).1 (z, m, a)));
    }
      where
        this_zone : IsZone g zone
        this_zone = record { start = u; is_host = h; members = zone_iff; sorted = zone-Increasing }

  collect_zone_keeps :
      (s : Map String Bool × List (List String)) (u : String)
      → (device_of g.devices u).type ≡ host
      → Inv s
      → Inv (collect_zone g s u)
        × ((y : String) → is_marked s.0 y ≡ true → is_marked (collect_zone g s u).0 y ≡ true)
        × (is_marked (collect_zone g s u).0 u ≡ true)
  unfolding collect_zone
  collect_zone_keeps (v, zs) u h i = elim (Bool-cases (is_marked v u)) [
    | inl k ↦ rw k (i, (λ y m. m), k)
    | inr k ↦ rw k (
      Inv-zone v zs u k i h,
      λ y m. (marks_iff v zs u k i y).1 (inl m),
      (marks_iff v zs u k i u).1 (inr here),
    )
  ]

  collect_zones_keep :
      (s : Map String Bool × List (List String)) (us : List String)
      → ((u : String) → Member u us → (device_of g.devices u).type ≡ host)
      → Inv s
      → Inv (foldl (collect_zone g) s us)
        × ((y : String)
            → is_marked s.0 y ≡ true
            → is_marked (foldl (collect_zone g) s us).0 y ≡ true)
        × ((u : String) → Member u us → is_marked (foldl (collect_zone g) s us).0 u ≡ true)
  collect_zones_keep s [] hosts i = (i, (λ y m. m), λ u m. absurd m)
  collect_zones_keep s (u ∷ us) hosts i =
      let (i', grows, own) = collect_zone_keeps s u (hosts u (inl refl)) i in
      let (i'', grows', all) =
        collect_zones_keep (collect_zone g s u) us (λ w m. hosts w (inr m)) i' in
      (i'', λ y m. grows' y (grows y m), λ w m. ⊎_elim (λ e. rw e (grows' u own)) (all w) m)

  Inv-empty : Inv ([], [])
  unfolding is_marked get
  Inv-empty = record {
    closed = λ a b h m. cc;
    marked = λ y. (λ h. cc, λ (z, m, n). absurd m);
    zones = λ z m. absurd m;
    disjoint = tt;
  }

-- The zones of a graph: each is one whole component with a host, in increasing order; no name is in
-- two of them; and every host is in one.
pub record AreZones (g : TopologyGraph) (zones : List (List String)) : Type 0 where
  pub each : (z : List String) → Member z zones → IsZone g z
  pub disjoint : Disjoint zones
  pub hosts :
      (h : String)
      → (device_of g.devices h).type ≡ host
      → (z : List String) × Member z zones × Member h z

-- On a well-formed symmetric graph `CollectConnectedZones` returns the connected components that hold
-- a host: each zone is one whole component in increasing order, no name is in two zones, and every
-- host is in one.
pub collect_connected_zones_exact :
    (g : TopologyGraph) → IsGraph g → IsSymmetric g → AreZones g (collect_connected_zones g)
unfolding collect_connected_zones
collect_connected_zones_exact g graph symmetric =
    let starts = collect_host_starts g in
    let (i, _, all) =
      collect_zones_keep g graph symmetric ([], []) starts (λ u. (Member-host_starts g u graph).0)
        (Inv-empty g graph symmetric) in
    record {
      each = i.zones;
      disjoint = i.disjoint;
      hosts = λ h k. (i.marked h).0 (all h ((Member-host_starts g h graph).1 k));
    }
