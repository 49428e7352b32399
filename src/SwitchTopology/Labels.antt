-- ===== src/SwitchTopology/Labels.antt =====
-- `reconcileLabelMap`: the labels of an object after a plan, which never replaces a label.
pub mod Kept
pub mod Loop
pub mod Exact
use unifabric.Common.{
  String, List, [], ◌∷◌, Map, ℕ, Bool, true, false, not, ◌&&◌, ◌||◌, Option, none, some, get, put,
  value_or, string_eq, ◌==◌, if◌then◌else◌, foldl, any, filter,
}
use unifabric.SwitchTopology.Types.{Attempt, done, fails, ◌>>=◌, fold_attempt, locked_label}

abbrev pub Labels : Type 0
Labels = Map String String

-- the first loop
unfoldable pub copy_labels : Labels → Labels
copy_labels existing = foldl (λ result e. put result (e.0) (e.1)) [] existing

-- `if current, exists := result[key]; exists && current != ""`: the label that cannot be replaced
unfoldable pub locked_value : Labels → String → Option String
locked_value labels key = elim (get labels key) [
  | none ↦ none
  | some current ↦ if current == "" then none else some current
]

-- the result and `changed`
pub record Reconciled : Type 0 where
  pub labels : Labels
  pub changed : Bool

unfoldable pub set_desired : Reconciled → String × String → Attempt Reconciled
set_desired s (key, value) = elim (locked_value s.labels key) [
  | some current ↦ if current == value then done s else fails locked_label
  | none ↦ done (record { labels = put s.labels key value; changed = true })
]

-- the loop that removes labels; a nil function is none
unfoldable pub remove_labels : Option (String → Bool) → Labels → Reconciled
remove_labels none labels = record { labels = labels; changed = false }
remove_labels (some remove_label) labels = record {
  labels = filter (λ e. not (remove_label (e.0))) labels;
  changed = any (λ e. remove_label (e.0)) labels;
}

-- A nil result, for no labels, is the empty map.
unfoldable pub reconcile_label_map : Labels → Labels → Option (String → Bool) → Attempt Reconciled
reconcile_label_map existing desired remove_label =
    fold_attempt set_desired (remove_labels remove_label (copy_labels existing)) desired
