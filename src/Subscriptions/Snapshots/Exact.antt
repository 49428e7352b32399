-- ===== src/Subscriptions/Snapshots/Exact.antt =====
-- `normalizeSnapshotNeighbors`: the counts of the loop in their order.
use unifabric.Common.{
  String, List, [], ◌∷◌, map, Map, ℕ, ◌<◌, Bool, Option, none, some, get, get_or, length, Member,
  string_eq, nat_eq, Increasing, sort_by, insert_sorted, Member-sort_by, Bool-cases, ◌≡◌, ◌↔◌, refl,
  sym, subst, ap, ◌∙◌, arith, inl, inr,
}
use unifabric.Subscriptions.Snapshots.Keys.{NeighborKey, key_eq, key_less, Increasing-keys}
use unifabric.Subscriptions.Snapshots.{
  ReportedNeighbor, CountedNeighbor, Counts, count_neighbors, key_of, neighbors_of, neighbor_less,
  sorted_neighbors, normalize_snapshot_neighbors, should_ignore_switch_port,
  classify_remote_system_type,
}
use unifabric.Subscriptions.Snapshots.Counting.{
  occurrences, Member-occurrences, kept_keys, AreNamed, IsCountedTo, count_neighbors_lem,
}

keys-neighbors_of :
    (order : List NeighborKey) (link_counts : Map NeighborKey ℕ)
    → map key_of (neighbors_of (order, link_counts)) ≡ order
unfolding neighbors_of
keys-neighbors_of [] link_counts = refl
keys-neighbors_of (key ∷ order) link_counts = let rest = keys-neighbors_of order link_counts in cc

-- sorting the neighbors sorts their keys
keys-insert_sorted :
    (n : CountedNeighbor) (ns : List CountedNeighbor)
    → map key_of (insert_sorted neighbor_less n ns)
      ≡ insert_sorted key_less (key_of n) (map key_of ns)
unfolding insert_sorted neighbor_less key_less
keys-insert_sorted n [] = refl
keys-insert_sorted n (m ∷ ns) = elim (Bool-cases (neighbor_less m n)) [
  | inl b ↦ rw b (let rest = keys-insert_sorted n ns in cc)
  | inr b ↦ rw b refl
]

keys-sort_by :
    (ns : List CountedNeighbor)
    → map key_of (sort_by neighbor_less ns) ≡ sort_by key_less (map key_of ns)
unfolding sort_by
keys-sort_by [] = refl
keys-sort_by (n ∷ ns) =
    keys-insert_sorted n (sort_by neighbor_less ns)
    ∙ ap (insert_sorted key_less (key_of n)) (keys-sort_by ns)

-- what is stored for the keys of the kept entries
abbrev pub AreLinks : List NeighborKey → List CountedNeighbor → Type 0
AreLinks kept out =
    Increasing key_less (map key_of out)
    × ((key : NeighborKey) → Member key (map key_of out) ↔ Member key kept)
    × ((n : CountedNeighbor) → Member n out → n.link_count ≡ occurrences (key_of n) kept)

abbrev pub IsNormalized :
    (String → Bool)
    → (String → String)
    → List ReportedNeighbor
    → Option (List CountedNeighbor)
    → Type 0
IsNormalized ignores classify ns none = ¬ AreNamed ignores classify ns
IsNormalized ignores classify ns (some out) =
    AreNamed ignores classify ns × AreLinks (kept_keys ignores classify ns) out

link_count-neighbors_of :
    (order : List NeighborKey) (link_counts : Map NeighborKey ℕ) (n : CountedNeighbor)
    → Member n (neighbors_of (order, link_counts))
    → n.link_count ≡ get_or link_counts (key_of n) 0
unfolding neighbors_of
link_count-neighbors_of [] link_counts n i = absurd i
link_count-neighbors_of (key ∷ order) link_counts n (inl e) =
    subst (λ (x : CountedNeighbor). x.link_count ≡ get_or link_counts (key_of x) 0) (sym e) refl
link_count-neighbors_of (key ∷ order) link_counts n (inr i) =
    link_count-neighbors_of order link_counts n i

sorted_neighbors_lem :
    (ignores : String → Bool) (classify : String → String) (ns : List ReportedNeighbor)
    (r : Option Counts)
    → IsCountedTo ignores classify ([], []) ns r
    → IsNormalized ignores classify ns (sorted_neighbors r)
unfolding sorted_neighbors get
sorted_neighbors_lem ignores classify ns none h = h
sorted_neighbors_lem ignores classify ns (some (order, link_counts)) (named, (d, listed), total) =
    let found = neighbors_of (order, link_counts) in
    let sorted : map key_of (sort_by neighbor_less found) ≡ sort_by key_less order =
      keys-sort_by found ∙ ap (sort_by key_less) (keys-neighbors_of order link_counts) in
    (
      named,
      (
        subst (Increasing key_less) (sym sorted) (Increasing-keys order d),
        (λ key.
            let kept = kept_keys ignores classify ns in
            rw sorted (
              ground (
                arith,
                Member-sort_by key_less key order,
                listed key,
                Member-occurrences key kept,
                total key,
              ))),
        (λ n i.
            let stored =
              link_count-neighbors_of order link_counts n
                ((Member-sort_by neighbor_less n found).0 i) in
            omega (arith, stored, total (key_of n))),
      ),
    )

-- For fewer than 2 ^ 31 entries, `normalizeSnapshotNeighbors` fails just where an entry whose port is
-- not ignored has no name. Otherwise it returns each pair of a type and a name of these entries once, in
-- strictly increasing order, with the number of the entries that have it, an int32 without overflow.
pub normalize_snapshot_neighbors_exact :
    (path_match : String → String → Option Bool) (ignored : List String)
    (node_names normalized_node_names : Map String Bool) (neighbors : List ReportedNeighbor)
    → length neighbors < 2147483648
    → IsNormalized
        (λ port. should_ignore_switch_port path_match port ignored)
        (classify_remote_system_type node_names normalized_node_names)
        neighbors
        (normalize_snapshot_neighbors path_match ignored node_names normalized_node_names neighbors)
unfolding normalize_snapshot_neighbors get
normalize_snapshot_neighbors_exact path_match ignored node_names normalized_node_names neighbors
      fits =
    let ignores : String → Bool = λ port. should_ignore_switch_port path_match port ignored in
    let classify = classify_remote_system_type node_names normalized_node_names in
    sorted_neighbors_lem ignores classify neighbors
      (count_neighbors ignores classify ([], []) neighbors)
      (count_neighbors_lem ignores classify ([], []) neighbors
        (tt, λ key. ((λ i. absurd i), λ i. omega (arith, i))) (λ key. omega (arith, fits)))
