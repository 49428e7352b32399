-- ===== src/Topology/Normalize/Edges.antt =====
-- `NormalizeTierEdges` does not panic on the graphs that it gets, and keeps exactly the edges
-- between adjacent tiers.
use unifabric.Common.{
  String, List, [], ◌∷◌, Bool, true, false, some, Map, ℤ, pos, ◌-ℤ◌, get, put, keys,
  fold_option-eq-foldl, foldl, if◌then◌else◌, string_eq, int_eq, pos_part, suc, int_beq, ◌≡◌, refl,
  ◌↔◌, ◌⊎◌, inl, inr, ⊎_elim, arith, Member, Member-keys_iff, Member-keys-put, Bool-cases,
  Option-cases, ==_iff, get-put, subst,
}
use unifabric.Topology.Types.{Device, device_of, Adjacency, TopologyGraph, has_edge}
use unifabric.Topology.Graph.{set_edge}
use unifabric.Topology.Graph.Edges.{has_edge-set_edge}
use unifabric.Topology.Graph.WellFormed.{
  IsAdjacency, set_edge-IsAdjacency, put-IsAdjacency, IsRow-nil, Member-set_edge,
}
use unifabric.Topology.Normalize.{write_edge, skips, normalize_pair, normalize_row, empty_rows}

-- Both tiers are known, and they are neighbors.
pub record AreAdjacentTiers (s t : ℤ) : Type 0 where
  pub known : (s ≡ pos (pos_part s)) × (t ≡ pos (pos_part t))
  pub apart : (pos_part s ≡ suc (pos_part t)) ⊎ (pos_part t ≡ suc (pos_part s))

skips_iff : (a b : Device) → (skips a b ≡ false) ↔ AreAdjacentTiers a.tier b.tier
unfolding skips ◌-ℤ◌ int_beq
skips_iff a b = (
  λ h. record { known = ground arith; apart = ground arith },
  λ h. ground (arith, h.known, h.apart),
)

abbrev pub IsSymmetric : TopologyGraph → Type 0
IsSymmetric g = (a b : String) → has_edge g.adj a b ≡ true → has_edge g.adj b a ≡ true

-- a write to a row that is there
write_edge_present :
    (adj : Adjacency) (a b : String)
    → Member a (keys adj)
    → write_edge adj a b ≡ some (set_edge adj a b)
unfolding write_edge set_edge
write_edge_present adj a b m = elim (Option-cases (get adj a)) [
  | inl e ↦ absurd ((Member-keys_iff adj a).0 m e)
  | inr (row, e) ↦ rw (e, write_edge) refl
]

module _ (devices : Map String Device) where
  -- the body of the loop where both rows are there
  keep_pair : String → Adjacency → String → Adjacency
  keep_pair a adj b =
      if skips (device_of devices a) (device_of devices b)
      then adj
      else set_edge (set_edge adj a b) b a

  -- The rows are those of the devices.
  abbrev pub HasRows : Adjacency → Type 0
  HasRows adj = IsAdjacency adj × ((v : String) → Member v (keys adj) ↔ Member v (keys devices))

  set_edge-HasRows :
      (adj : Adjacency) (a b : String)
      → Member a (keys devices)
      → HasRows adj
      → HasRows (set_edge adj a b)
  set_edge-HasRows adj a b m (i, h) = (
    set_edge-IsAdjacency adj a b i,
    λ v. (
      λ k. ⊎_elim ((h v).0) (λ e. rw e m) ((Member-set_edge adj a b v).0 k),
      λ k. (Member-set_edge adj a b v).1 (inl ((h v).1 k)),
    ),
  )

  normalize_pair_kept :
      (a : String) (adj : Adjacency) (b : String)
      → Member a (keys devices)
      → Member b (keys devices)
      → HasRows adj
      → (normalize_pair devices a adj b ≡ some (keep_pair a adj b)) × HasRows (keep_pair a adj b)
  unfolding normalize_pair keep_pair
  normalize_pair_kept a adj b ma mb h =
      elim (Bool-cases (skips (device_of devices a) (device_of devices b))) [
        | inl s ↦ rw s (refl, h)
        | inr s ↦
            let h' = set_edge-HasRows adj a b ma h in
            rw (s, write_edge_present adj a b ((h.1 a).1 ma), normalize_pair)
              (
                write_edge_present (set_edge adj a b) b a ((h'.1 b).1 mb),
                set_edge-HasRows (set_edge adj a b) b a mb h',
              )
      ]

  -- the body of the outer loop where all rows are there
  pub keep_row : Adjacency → String × Map String Bool → Adjacency
  keep_row adj (a, neighbors) = foldl (keep_pair a) adj (keys neighbors)

  pub normalize_row_kept :
      (adj : Adjacency) (a : String) (row : Map String Bool)
      → Member a (keys devices)
      → ((b : String) → Member b (keys row) → Member b (keys devices))
      → HasRows adj
      → (normalize_row devices adj (a, row) ≡ some (keep_row adj (a, row)))
        × HasRows (keep_row adj (a, row))
  unfolding normalize_row keep_row
  normalize_row_kept adj a row ma mbs h =
      fold_option-eq-foldl HasRows (normalize_pair devices a) (keep_pair a) (keys row) adj
        (λ t b m i. normalize_pair_kept a t b ma (mbs b m) i) h

  -- `x` and `y` are the ends of a pair that is kept.
  abbrev pub IsKept : String → String → String → String → Type 0
  IsKept a b x y =
      AreAdjacentTiers (device_of devices a).tier (device_of devices b).tier
      × ((x ≡ a) × (y ≡ b) ⊎ (x ≡ b) × (y ≡ a))

  has_edge-keep_pair :
      (a : String) (adj : Adjacency) (b x y : String)
      → (has_edge (keep_pair a adj b) x y ≡ true) ↔ ((has_edge adj x y ≡ true) ⊎ IsKept a b x y)
  unfolding keep_pair
  has_edge-keep_pair a adj b x y = ground (
    arith,
    skips_iff (device_of devices a) (device_of devices b),
    has_edge-set_edge (set_edge adj a b) b a x y,
    has_edge-set_edge adj a b x y,
    ==_iff a x,
    ==_iff b y,
    ==_iff b x,
    ==_iff a y,
  )

  has_edge-keep_pairs :
      (a : String) (adj : Adjacency) (bs : List String) (x y : String)
      → (has_edge (foldl (keep_pair a) adj bs) x y ≡ true)
        ↔ ((has_edge adj x y ≡ true) ⊎ ((b : String) × Member b bs × IsKept a b x y))
  has_edge-keep_pairs a adj [] x y = (inl, ⊎_elim (λ h. h) (λ (b, m, k). absurd m))
  has_edge-keep_pairs a adj (b ∷ bs) x y =
      let ih = has_edge-keep_pairs a (keep_pair a adj b) bs x y in
      let one = has_edge-keep_pair a adj b x y in
      (
        λ h.
            ⊎_elim (λ e. ⊎_elim inl (λ k. inr (b, inl refl, k)) (one.0 e))
              (λ (c, m, k). inr (c, inr m, k)) (ih.0 h),
        λ h. elim h [
          | inl e ↦ ih.1 (inl (one.1 (inl e)))
          | inr (c, inl e, k) ↦ ih.1 (inl (one.1 (inr (subst (λ z. IsKept a z x y) e k))))
          | inr (c, inr m, k) ↦ ih.1 (inr (c, m, k))
        ],
      )

  abbrev pub IsRowOf : List (String × Map String Bool) → String → String → Type 0
  IsRowOf es a b = (row : Map String Bool) × Member (a, row) es × Member b (keys row)

  pub has_edge-keep_rows :
      (adj : Adjacency) (es : List (String × Map String Bool)) (x y : String)
      → (has_edge (foldl keep_row adj es) x y ≡ true) ↔ (
          (has_edge adj x y ≡ true)
          ⊎ ((a : String) × (b : String) × IsRowOf es a b × IsKept a b x y))
  unfolding keep_row
  has_edge-keep_rows adj [] x y = (inl, ⊎_elim (λ h. h) (λ (a, b, (r, m, n), k). absurd m))
  has_edge-keep_rows adj ((a, row) ∷ es) x y =
      let ih = has_edge-keep_rows (keep_row adj (a, row)) es x y in
      let one = has_edge-keep_pairs a adj (keys row) x y in
      (
        λ h.
            ⊎_elim (λ e. ⊎_elim inl (λ (b, m, k). inr (a, b, (row, inl refl, m), k)) (one.0 e))
              (λ (c, d, (r, m, n), k). inr (c, d, (r, inr m, n), k)) (ih.0 h),
        λ h. elim h [
          | inl e ↦ ih.1 (inl (one.1 (inl e)))
          | inr (c, d, (r, inl e, n), k) ↦ ih.1 (
              inl (
                one.1 (
                  inr (
                    d,
                    subst (λ (p : String × Map String Bool). Member d (keys p.1)) e n,
                    subst (λ (p : String × Map String Bool). IsKept p.0 d x y) e k,
                  ))))
          | inr (c, d, (r, inr m, n), k) ↦ ih.1 (inr (c, d, (r, m, n), k))
        ],
      )

  HasRows-put :
      (ks : List String) (adj : Adjacency)
      → IsAdjacency adj
      → IsAdjacency (foldl (λ m name. put m name []) adj ks)
        × ((v : String)
            → Member v (keys (foldl (λ (m : Adjacency) name. put m name []) adj ks))
              ↔ (Member v (keys adj) ⊎ Member v ks))
  HasRows-put [] adj i = (i, λ v. (inl, ⊎_elim (λ m. m) (λ m. absurd m)))
  HasRows-put (k ∷ ks) adj i =
      let (i', h) = HasRows-put ks (put adj k []) (put-IsAdjacency adj k [] i IsRow-nil) in
      (i', λ v. ground (arith, h v, Member-keys-put adj k v []))

  pub empty_rows-HasRows : HasRows (empty_rows devices)
  unfolding empty_rows get
  empty_rows-HasRows =
      let (i, h) = HasRows-put (keys devices) [] (record { distinct = tt; rows = λ a row e. cc }) in
      (i, λ v. ground (arith, h v))

  has_edge-put_rows :
      (ks : List String) (adj : Adjacency) (x y : String)
      → has_edge (foldl (λ (m : Adjacency) name. put m name []) adj ks) x y ≡ true
      → has_edge adj x y ≡ true
  unfolding has_edge get
  has_edge-put_rows [] adj x y h = h
  has_edge-put_rows (k ∷ ks) adj x y h =
      ground (arith, has_edge-put_rows ks (put adj k []) x y h, get-put adj k x [], ==_iff k x)

  pub has_edge-empty_rows : (x y : String) → has_edge (empty_rows devices) x y ≡ false
  unfolding empty_rows has_edge get
  has_edge-empty_rows x y = ground (arith, has_edge-put_rows (keys devices) [] x y)
