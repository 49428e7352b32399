-- ===== src/Status/Labels.antt =====
-- `labelsByTier`: the value of each tier among a resource's labels.
pub mod Exact
use unifabric.Common.{
  String, List, [], ◌∷◌, Map, ℕ, Option, none, some, get, get_or, put, keys, sort_by, string_less,
  value_or, ◌==◌, if◌then◌else◌, string_eq, nat_eq,
}
use unifabric.Status.Types.{TierMatcher, Result, ok, err, conflicting_labels, fold_result}

-- the body of the loop over the sorted keys
unfoldable pub add_label :
    TierMatcher → Map String String → Map ℕ String → String → Result (Map ℕ String)
add_label match_tier labels result key = elim (match_tier key) [
  | none ↦ ok result
  | some tier ↦
      let value = get_or labels key "" in
      if value == ""
      then ok result
      else if value_or value (get result tier) == value
      then ok (put result tier value)
      else err conflicting_labels
]

unfoldable pub labels_by_tier : TierMatcher → Map String String → Result (Map ℕ String)
labels_by_tier match_tier labels =
    fold_result (add_label match_tier labels) [] (sort_by string_less (keys labels))
