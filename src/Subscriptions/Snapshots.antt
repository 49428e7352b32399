-- ===== src/Subscriptions/Snapshots.antt =====
-- `normalizeSnapshotNeighbors` with the functions it uses, and `diffNeighborKeys`. An int32 count is
-- the number modulo 2 ^ 32 that has its bits.
pub mod Keys
pub mod Counting
pub mod Exact
pub mod Diff
use unifabric.Common.{
  String, List, [], ◌∷◌, ◌++◌, map, foldl, Map, ℕ, ◌+◌, ◌%◌, Bool, true, false, not, ◌||◌, Option,
  none, some, get, get_or, value_or, put, keys, filter, length, string_eq, nat_eq, ◌==◌,
  if◌then◌else◌, sort_by, string_less,
}
use unifabric.Subscriptions.Snapshots.Keys.{NeighborKey, key_eq, key_less}
use unifabric.SwitchTopology.Objects.{kubernetes_node_type}
use unifabric.SwitchTopology.ResourceNames.{normalize_resource_name}

-- an entry of the snapshot, as the switch agent reports it
pub record ReportedNeighbor : Type 0 where
  pub local_port : String
  pub remote_system_name : String

-- v1beta1.SwitchNeighbor
pub record CountedNeighbor : Type 0 where
  pub remote_system_type : String
  pub remote_system_name : String
  pub link_count : ℕ

abbrev pub switch_type : String
switch_type = "Switch"

-- A map to booleans is a list of its keys that are true; `filepath.Match` is an argument, none is an
-- error.
unfoldable pub should_ignore_switch_port :
    (String → String → Option Bool) → String → List String → Bool
should_ignore_switch_port path_match port [] = false
should_ignore_switch_port path_match port (pattern ∷ patterns) =
    let rest = should_ignore_switch_port path_match port patterns in
    elim (path_match pattern port) [ none ↦ rest | some matched ↦ if matched then true else rest ]

unfoldable pub classify_remote_system_type : Map String Bool → Map String Bool → String → String
classify_remote_system_type node_names normalized_node_names name =
    if get_or node_names name false
      || get_or normalized_node_names (normalize_resource_name name) false
    then kubernetes_node_type
    else switch_type

unfoldable pub kubernetes_node_names : List String → Map String Bool × Map String Bool
kubernetes_node_names names = (
  foldl (λ m name. put m name true) [] names,
  foldl (λ m name. put m (normalize_resource_name name) true) [] names,
)

abbrev pub int32_size : ℕ
int32_size = 4294967296

abbrev pub Counts : Type 0
Counts = List NeighborKey × Map NeighborKey ℕ

unfoldable pub count_neighbor : Counts → NeighborKey → Counts
count_neighbor (order, link_counts) key =
    let count = get_or link_counts key 0 in
    (
      if count == 0 then order ++ key ∷ [] else order,
      put link_counts key ((count + 1) % int32_size),
    )

-- the loop over the snapshot: none is the error for an entry without a name
module _ (ignores : String → Bool) (classify : String → String) where
  abbrev pub reported_key : ReportedNeighbor → NeighborKey
  reported_key n = record {
    remote_system_type = classify n.remote_system_name;
    remote_system_name = n.remote_system_name;
  }

  unfoldable pub count_neighbors : Counts → List ReportedNeighbor → Option Counts
  count_neighbors counts [] = some counts
  count_neighbors counts (n ∷ neighbors) =
      let skipped = count_neighbors counts neighbors in
      let counted = count_neighbors (count_neighbor counts (reported_key n)) neighbors in
      if ignores n.local_port then skipped else if n.remote_system_name == "" then none else counted

abbrev pub key_of : CountedNeighbor → NeighborKey
key_of n = record {
  remote_system_type = n.remote_system_type;
  remote_system_name = n.remote_system_name;
}

unfoldable pub neighbors_of : Counts → List CountedNeighbor
neighbors_of (order, link_counts) =
    map
      (λ (key : NeighborKey). record {
        remote_system_type = key.remote_system_type;
        remote_system_name = key.remote_system_name;
        link_count = get_or link_counts key 0;
      })
      order

unfoldable pub neighbor_less : CountedNeighbor → CountedNeighbor → Bool
neighbor_less a b =
    if not (a.remote_system_type == b.remote_system_type)
    then string_less a.remote_system_type b.remote_system_type
    else string_less a.remote_system_name b.remote_system_name

unfoldable pub sorted_neighbors : Option Counts → Option (List CountedNeighbor)
sorted_neighbors none = none
sorted_neighbors (some counts) = some (sort_by neighbor_less (neighbors_of counts))

unfoldable pub normalize_snapshot_neighbors :
    (String → String → Option Bool)
    → List String
    → Map String Bool
    → Map String Bool
    → List ReportedNeighbor
    → Option (List CountedNeighbor)
normalize_snapshot_neighbors path_match ignored node_names normalized_node_names neighbors =
    sorted_neighbors (
      count_neighbors (λ port. should_ignore_switch_port path_match port ignored)
        (classify_remote_system_type node_names normalized_node_names) ([], []) neighbors)

-- the set of the keys of a list of neighbors, each once
unfoldable pub neighbor_keys : List CountedNeighbor → Map NeighborKey Bool
neighbor_keys neighbors = foldl (λ m n. put m (key_of n) true) [] neighbors

unfoldable pub count_missing : Map NeighborKey Bool → Map NeighborKey Bool → ℕ
count_missing there here = length (filter (λ key. not (get_or there key false)) (keys here))

-- the numbers of the added and of the removed neighbors
unfoldable pub diff_neighbor_keys : List CountedNeighbor → List CountedNeighbor → ℕ × ℕ
diff_neighbor_keys previous current =
    let previous_keys = neighbor_keys previous in
    let current_keys = neighbor_keys current in
    (count_missing previous_keys current_keys, count_missing current_keys previous_keys)
