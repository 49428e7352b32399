-- ===== src/Topology/Graph/Edges.antt =====
-- Which edges the graph has.
use unifabric.Common.{
  String, List, [], ◌∷◌, true, ◌||◌, ◌&&◌, ◌≡◌, refl, ap, sym, subst, ◌↔◌, ◌⊎◌, inl, inr, ⊎_elim,
  some, arith, Member, get, get_or, put, get-put, ◌==◌, ==_iff, ==_cases, Option-cases, if_same,
  string_eq, foldl,
}
use unifabric.Topology.Types.{Neighbor, Switch, Adjacency, TopologyGraph, has_edge}
use unifabric.Topology.Graph.{
  ensure_vertex, set_edge, add_undirected_edge, DeviceResolver, resolve, link_neighbor,
  link_resolved, link_switch,
}

pub has_edge-ensure_vertex :
    (adj : Adjacency) (v x y : String) → has_edge (ensure_vertex adj v) x y ≡ has_edge adj x y
unfolding ensure_vertex get has_edge
has_edge-ensure_vertex adj v x y = ground (arith, get-put adj v x [], ==_iff v x)

pub has_edge-set_edge :
    (adj : Adjacency) (a b x y : String)
    → has_edge (set_edge adj a b) x y ≡ (a == x && b == y || has_edge adj x y)
unfolding set_edge has_edge
has_edge-set_edge adj a b x y = ground (
  arith,
  get-put adj a x (put (get_or adj a []) b true),
  get-put (get_or adj a []) b y true,
  ==_iff a x,
  ==_iff b y,
)

pub has_edge-add_undirected_edge :
    (adj : Adjacency) (a b x y : String)
    → (has_edge (add_undirected_edge adj a b) x y ≡ true)
      ↔ ((has_edge adj x y ≡ true) ⊎ (x ≡ a) × (y ≡ b) ⊎ (x ≡ b) × (y ≡ a))
unfolding add_undirected_edge
has_edge-add_undirected_edge adj a b x y =
    rw (has_edge-set_edge, has_edge-set_edge, has_edge-ensure_vertex, has_edge-ensure_vertex)
      (ground (arith, ==_iff a x, ==_iff b y, ==_iff b x, ==_iff a y))

-- A switch accepts a neighbor entry that is its own, or names no local device, and whose remote
-- system resolves to `dst`.
pub record Accepts (r : DeviceResolver) (sw : Switch) (n : Neighbor) (dst : String) : Type 0 where
  pub own : (n.local_device_name ≡ "") ⊎ (n.local_device_name ≡ sw.name)
  pub resolved : resolve r n ≡ some dst

-- `x` and `y` are the two ends of the link that the entry stands for.
abbrev pub Joins : DeviceResolver → Switch → Neighbor → String → String → Type 0
Joins r sw n x y = Accepts r sw n y × (x ≡ sw.name) ⊎ Accepts r sw n x × (y ≡ sw.name)

link_neighbor_accepted :
    (r : DeviceResolver) (sw : Switch) (g : TopologyGraph) (n : Neighbor) (dst : String)
    → Accepts r sw n dst
    → (link_neighbor r sw g n).adj ≡ add_undirected_edge g.adj sw.name dst
unfolding link_neighbor
link_neighbor_accepted r sw g n dst h =
    rw h.resolved
      (ground (arith, h.own, ==_iff n.local_device_name "", ==_iff n.local_device_name sw.name))

link_neighbor_cases :
    (r : DeviceResolver) (sw : Switch) (g : TopologyGraph) (n : Neighbor)
    → ((dst : String) × Accepts r sw n dst)
      ⊎ ((link_neighbor r sw g n).adj ≡ g.adj) × ((dst : String) → ¬ Accepts r sw n dst)
unfolding link_neighbor
link_neighbor_cases r sw g n = elim (Option-cases (resolve r n)) [
  | inl miss ↦ inr (
    rw (miss, link_resolved) (ap (λ (q : TopologyGraph). q.adj) (if_same _ g)),
    λ dst a. cc (a.resolved),
  )
  | inr (dst, hit) ↦ elim (==_cases n.local_device_name "") [
    | inl (e, b) ↦ inl (dst, record { own = inl e; resolved = hit })
    | inr (ne, b) ↦ elim (==_cases n.local_device_name sw.name) [
      | inl (e, b') ↦ inl (dst, record { own = inr e; resolved = hit })
      | inr (ne', b') ↦ inr (rw (b, b') refl, λ d a. ⊎_elim ne ne' a.own)
    ]
  ]
]

has_edge-link_neighbor :
    (r : DeviceResolver) (sw : Switch) (g : TopologyGraph) (n : Neighbor) (x y : String)
    → (has_edge (link_neighbor r sw g n).adj x y ≡ true)
      ↔ ((has_edge g.adj x y ≡ true) ⊎ Joins r sw n x y)
has_edge-link_neighbor r sw g n x y = elim (link_neighbor_cases r sw g n) [
  | inl (dst, a) ↦ rw (link_neighbor_accepted r sw g n dst a) (
      let both = has_edge-add_undirected_edge g.adj sw.name dst x y in
      (
        λ h. elim (both.0 h) [
          | inl e ↦ inl e
          | inr (inl (p, q)) ↦ inr (inl (subst (Accepts r sw n) (sym q) a, p))
          | inr (inr (p, q)) ↦ inr (inr (subst (Accepts r sw n) (sym p) a, q))
        ],
        λ h. elim h [
          | inl e ↦ both.1 (inl e)
          | inr (inl (b, p)) ↦ both.1 (inr (inl (p, cc (a.resolved, b.resolved))))
          | inr (inr (b, p)) ↦ both.1 (inr (inr (cc (a.resolved, b.resolved), p)))
        ],
      ))
  | inr (same, none_accepted) ↦ rw same (ground (arith, none_accepted x, none_accepted y))
]

has_edge-link_neighbors :
    (r : DeviceResolver) (sw : Switch) (g : TopologyGraph) (ns : List Neighbor) (x y : String)
    → (has_edge (foldl (link_neighbor r sw) g ns).adj x y ≡ true)
      ↔ ((has_edge g.adj x y ≡ true) ⊎ ((n : Neighbor) × Member n ns × Joins r sw n x y))
has_edge-link_neighbors r sw g [] x y = (inl, ⊎_elim (λ h. h) (λ (n, m, j). absurd m))
has_edge-link_neighbors r sw g (n ∷ ns) x y =
    let ih = has_edge-link_neighbors r sw (link_neighbor r sw g n) ns x y in
    let first = has_edge-link_neighbor r sw g n x y in
    (
      λ h.
          ⊎_elim (λ e. ⊎_elim inl (λ j. inr (n, inl refl, j)) (first.0 e))
            (λ (k, m, j). inr (k, inr m, j)) (ih.0 h),
      λ h. elim h [
        | inl e ↦ ih.1 (inl (first.1 (inl e)))
        | inr (k, inl e, j) ↦
            ih.1 (inl (first.1 (inr (subst (λ (q : Neighbor). Joins r sw q x y) e j))))
        | inr (k, inr m, j) ↦ ih.1 (inr (k, m, j))
      ],
    )

pub has_edge-link_switches :
    (r : DeviceResolver) (g : TopologyGraph) (sws : List Switch) (x y : String)
    → (has_edge (foldl (link_switch r) g sws).adj x y ≡ true) ↔ (
        (has_edge g.adj x y ≡ true)
        ⊎ ((sw : Switch) × (n : Neighbor) × Member sw sws
            × Member n sw.neighbors
            × Joins r sw n x y))
unfolding link_switch
has_edge-link_switches r g [] x y = (inl, ⊎_elim (λ h. h) (λ (sw, n, m, k, j). absurd m))
has_edge-link_switches r g (sw ∷ sws) x y =
    let ih = has_edge-link_switches r (link_switch r g sw) sws x y in
    let first = has_edge-link_neighbors r sw g sw.neighbors x y in
    (
      λ h.
          ⊎_elim (λ e. ⊎_elim inl (λ (n, m, j). inr (sw, n, inl refl, m, j)) (first.0 e))
            (λ (s, n, m, k, j). inr (s, n, inr m, k, j)) (ih.0 h),
      λ h. elim h [
        | inl e ↦ ih.1 (inl (first.1 (inl e)))
        | inr (s, n, inl e, k, j) ↦ ih.1 (
            inl (
              first.1 (
                inr (
                  n,
                  subst (λ (q : Switch). Member n q.neighbors) e k,
                  subst (λ (q : Switch). Joins r q n x y) e j,
                ))))
        | inr (s, n, inr m, k, j) ↦ ih.1 (inr (s, n, m, k, j))
      ],
    )
