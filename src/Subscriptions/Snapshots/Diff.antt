-- ===== src/Subscriptions/Snapshots/Diff.antt =====
-- `diffNeighborKeys`, by the sets of the keys.
use unifabric.Common.{
  List, [], ◌∷◌, map, foldl, Map, ℕ, Bool, true, false, not, get, get_or, value_or, put, keys,
  filter, length, get-put_self, get-put_ne, Member-filter, Member, Distinct, Distinct-keys-put,
  Member-keys-put, ==_cases, ◌≡◌, ◌↔◌, refl, sym, subst, ap, ◌∙◌, arith, ◌⊎◌, inl, inr,
}
use unifabric.Subscriptions.Snapshots.Keys.{NeighborKey, key_eq}
use unifabric.Subscriptions.Snapshots.{
  CountedNeighbor, key_of, neighbor_keys, count_missing, diff_neighbor_keys,
}

get_or-put :
    (m : Map NeighborKey Bool) (key other : NeighborKey)
    → (get_or (put m key true) other false ≡ true) ↔ ((get_or m other false ≡ true) ⊎ (other ≡ key))
get_or-put m key other = elim (==_cases key other) [
  | inl (e, b) ↦ (
    (λ i. inr (sym e)),
    λ i.
        subst (λ x. get_or (put m key true) x false ≡ true) e
          (ap (value_or false) (get-put_self m key true)),
  )
  | inr (ne, b) ↦
      let same : get_or (put m key true) other false ≡ get_or m other false =
        ap (value_or false) (get-put_ne m key other true ne) in
      ((λ i. inl (sym same ∙ i)), λ i. elim i [ inl j ↦ same ∙ j | inr q ↦ absurd (ne (sym q)) ])
]

Distinct-filter :
    (p : NeighborKey → Bool) (ks : List NeighborKey) → Distinct ks → Distinct (filter p ks)
unfolding filter
Distinct-filter p [] d = tt
Distinct-filter p (k ∷ ks) d = ground (arith, Member-filter p k ks, Distinct-filter p ks, d)

-- a set as a map to booleans: its keys are those that it gives true
abbrev IsKeySet : Map NeighborKey Bool → Type 0
IsKeySet m =
    Distinct (keys m) × ((key : NeighborKey) → (get_or m key false ≡ true) ↔ Member key (keys m))

put-IsKeySet :
    (m : Map NeighborKey Bool) (key : NeighborKey) → IsKeySet m → IsKeySet (put m key true)
put-IsKeySet m key (d, same) = (
  Distinct-keys-put m key true d,
  λ other. ground (arith, get_or-put m key other, Member-keys-put m key other true, same other),
)

-- the keys of the neighbors, after those of a set
keys_lem :
    (neighbors : List CountedNeighbor) (m : Map NeighborKey Bool)
    → IsKeySet m
    → let r = foldl (λ m n. put m (key_of n) true) m neighbors in
      IsKeySet r
      × ((key : NeighborKey)
          → Member key (keys r) ↔ (Member key (keys m) ⊎ Member key (map key_of neighbors)))
keys_lem [] m h = (h, λ key. (inl, λ i. elim i [ inl j ↦ j | inr j ↦ absurd j ]))
keys_lem (n ∷ neighbors) m h =
    let (h', members) = keys_lem neighbors (put m (key_of n) true) (put-IsKeySet m (key_of n) h) in
    (h', λ key. ground (arith, members key, Member-keys-put m (key_of n) key true))

neighbor_keys_lem :
    (neighbors : List CountedNeighbor)
    → IsKeySet (neighbor_keys neighbors)
      × ((key : NeighborKey)
          → Member key (keys (neighbor_keys neighbors)) ↔ Member key (map key_of neighbors))
unfolding neighbor_keys get
neighbor_keys_lem neighbors =
    let (h, members) = keys_lem neighbors [] (tt, λ key. ((λ i. absurd cc), λ i. absurd i)) in
    (h, λ key. ground (arith, members key))

-- The number is that of the keys with the property.
abbrev pub IsNumberOf : (NeighborKey → Type 0) → ℕ → Type 0
IsNumberOf P n =
    (ks : List NeighborKey) × Distinct ks
    × ((key : NeighborKey) → Member key ks ↔ P key)
    × (length ks ≡ n)

-- a neighbor of the second list only
abbrev pub IsOnlyIn : List CountedNeighbor → List CountedNeighbor → NeighborKey → Type 0
IsOnlyIn others neighbors key = Member key (map key_of neighbors) × ¬ Member key (map key_of others)

count_missing_lem :
    (others neighbors : List CountedNeighbor)
    → IsNumberOf
        (IsOnlyIn others neighbors)
        (count_missing (neighbor_keys others) (neighbor_keys neighbors))
unfolding count_missing
count_missing_lem others neighbors =
    let there = neighbor_keys others in
    let here = neighbor_keys neighbors in
    let p : NeighborKey → Bool = λ key. not (get_or there key false) in
    let ((d, same), members) = neighbor_keys_lem neighbors in
    let ((d', same'), members') = neighbor_keys_lem others in
    (
      filter p (keys here),
      Distinct-filter p (keys here) d,
      (λ key.
          ground (arith, Member-filter p key (keys here), members key, members' key, same' key)),
      refl,
    )

-- `diffNeighborKeys` returns the number of pairs of a type and a name that only the current list has, and
-- of those that only the previous list has, each counted once.
pub diff_neighbor_keys_exact :
    (previous current : List CountedNeighbor)
    → let changes = diff_neighbor_keys previous current in
      IsNumberOf (IsOnlyIn previous current) (changes.0)
      × IsNumberOf (IsOnlyIn current previous) (changes.1)
unfolding diff_neighbor_keys
diff_neighbor_keys_exact previous current =
    (count_missing_lem previous current, count_missing_lem current previous)
