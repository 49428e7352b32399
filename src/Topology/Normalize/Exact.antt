-- ===== src/Topology/Normalize/Exact.antt =====
-- What `NormalizeTierEdges` returns on a well-formed graph.
use unifabric.Common.{
  String, Bool, true, false, none, some, Map, ℤ, get, keys, fold_option, fold_option-eq-foldl,
  foldl, string_eq, value_or, ◌≡◌, ◌≢◌, refl, ◌↔◌, inl, inr, ⊎_elim, arith, Member, Member-keys_iff,
  Option-cases, entry_of_get, get_of_entry, Member-map,
}
use unifabric.Topology.Types.{Device, device_of, Adjacency, TopologyGraph, has_edge}
use unifabric.Topology.Graph.WellFormed.{IsGraph, IsAdjacency, IsRow}
use unifabric.Topology.Normalize.{normalize_row, empty_rows, normalize_tier_edges}
use unifabric.Topology.Normalize.Edges.{
  IsSymmetric, AreAdjacentTiers, HasRows, keep_row, normalize_row_kept, empty_rows-HasRows,
  has_edge-keep_rows, has_edge-empty_rows, IsRowOf,
}

-- An edge starts at a vertex.
pub vertex_of_edge : (adj : Adjacency) (a b : String) → has_edge adj a b ≡ true → get adj a ≢ none
unfolding has_edge get
vertex_of_edge adj a b h e = ground arith

-- In a well-formed adjacency the rows list exactly the edges.
IsRowOf-iff :
    (d : Map String Device) (adj : Adjacency) (a b : String)
    → IsAdjacency adj
    → IsRowOf d adj a b ↔ (has_edge adj a b ≡ true)
unfolding has_edge
IsRowOf-iff d adj a b i = (
  λ (row, m, k).
      let e = get_of_entry adj a row i.distinct m in
      rw e (present row (i.rows a row e) ((Member-keys_iff row b).0 k)),
  λ h. elim (Option-cases (get adj a)) [
    | inl e ↦ absurd (vertex_of_edge adj a b h e)
    | inr (row, e) ↦ (
      row,
      entry_of_get adj a row e,
      (Member-keys_iff row b).1 (λ miss. missing row miss (rw e at h)),
    )
  ],
)
  where
    present :
        (row : Map String Bool)
        → IsRow row
        → ¬ (get row b ≡ none)
        → value_or false (get row b) ≡ true
    present row r ne = elim (Option-cases (get row b)) [
      | inl e ↦ absurd (ne e)
      | inr (v, e) ↦ rw e (r.all_true b v e)
    ]

    missing : (row : Map String Bool) → get row b ≡ none → value_or false (get row b) ≡ true → ⊥
    missing row e h = cc (rw e at h)

swap_tiers : (s t : ℤ) → AreAdjacentTiers s t → AreAdjacentTiers t s
swap_tiers s t h = record { known = (h.known.1, h.known.0); apart = ⊎_elim inr inl h.apart }

module _ (g : TopologyGraph) (graph : IsGraph g) (symmetric : IsSymmetric g) where
  abbrev d : Map String Device
  d = g.devices

  abbrev tier : String → ℤ
  tier x = (device_of d x).tier

  abbrev kept : Adjacency
  kept = foldl (keep_row d) (empty_rows d) g.adj

  -- the ends of an edge are devices
  end_declared : (a b : String) → has_edge g.adj a b ≡ true → Member a (keys d)
  end_declared a b h =
      (graph.vertices a).0 ((Member-keys_iff g.adj a).1 (vertex_of_edge g.adj a b h))

  rows_kept : (fold_option (normalize_row d) (empty_rows d) g.adj ≡ some kept) × HasRows d kept
  rows_kept =
      fold_option-eq-foldl (HasRows d) (normalize_row d) (keep_row d) g.adj (empty_rows d)
        (λ t (a, row) m i.
          normalize_row_kept d t a row
            ((graph.vertices a).0 (Member-map (λ p. p.0) (a, row) g.adj m))
            (λ b k.
              end_declared b a
                (symmetric a b ((IsRowOf-iff d g.adj a b graph.adjacency).0 (row, m, k))))
            i)
        (empty_rows-HasRows d)

  has_edge-kept :
      (x y : String)
      → (has_edge kept x y ≡ true)
        ↔ (AreAdjacentTiers (tier x) (tier y) × (has_edge g.adj x y ≡ true))
  has_edge-kept x y =
      let both = has_edge-keep_rows d (empty_rows d) g.adj x y in
      (
        λ h. elim (both.0 h) [
          | inl e ↦ cc (has_edge-empty_rows d x y)
          | inr (a, b, r, (t, inl (p, q))) ↦
              rw (p, q) (t, (IsRowOf-iff d g.adj a b graph.adjacency).0 r)
          | inr (a, b, r, (t, inr (p, q))) ↦
              rw (p, q)
                (
                  swap_tiers (tier a) (tier b) t,
                  symmetric a b ((IsRowOf-iff d g.adj a b graph.adjacency).0 r),
                )
        ],
        λ (t, e).
            both.1
              (inr (x, y, (IsRowOf-iff d g.adj x y graph.adjacency).1 e, (t, inl (refl, refl)))),
      )

  abbrev result : TopologyGraph
  result = record g { adj = kept }

  normalized : normalize_tier_edges g ≡ some result
  unfolding normalize_tier_edges
  normalized = rw (rows_kept.0, normalize_tier_edges) refl

-- What `NormalizeTierEdges` returns: the devices as they were, and exactly those edges whose ends have
-- known tiers that differ by one.
pub record IsNormalizationOf (g h : TopologyGraph) : Type 0 where
  pub devices : h.devices ≡ g.devices
  pub graph : IsGraph h
  pub edges :
      (x y : String)
      → (has_edge h.adj x y ≡ true) ↔ (
          AreAdjacentTiers (device_of g.devices x).tier (device_of g.devices y).tier
          × (has_edge g.adj x y ≡ true))

-- On a well-formed symmetric graph `NormalizeTierEdges` does not panic, and returns a well-formed graph
-- with the same devices whose edges are exactly the old edges between known tiers that differ by one.
pub normalize_tier_edges_exact :
    (g : TopologyGraph)
    → IsGraph g
    → IsSymmetric g
    → (h : TopologyGraph) × (normalize_tier_edges g ≡ some h) × IsNormalizationOf g h
normalize_tier_edges_exact g graph symmetric = (
  result g graph symmetric,
  normalized g graph symmetric,
  record {
    devices = refl;
    graph = record {
      adjacency = (rows_kept g graph symmetric).1.0;
      devices = graph.devices;
      vertices = (rows_kept g graph symmetric).1.1;
    };
    edges = has_edge-kept g graph symmetric;
  },
)
