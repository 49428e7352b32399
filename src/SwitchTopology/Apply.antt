-- ===== src/SwitchTopology/Apply.antt =====
-- `applyPlan`: the labels of a plan are reconciled into the objects. Whether a patch is accepted is a
-- parameter.
pub mod Sets
use unifabric.Common.{
  String, List, [], ◌∷◌, Map, Bool, true, false, Option, none, some, get, get_or, put, keys,
  string_eq, if◌then◌else◌, sort_by, string_less,
}
use unifabric.SwitchTopology.Types.{
  Attempt, done, fails, ◌>>=◌, fold_attempt, missing_node, missing_switch, write_failed,
}
use unifabric.SwitchTopology.Labels.{Labels, Reconciled, reconcile_label_map}
use unifabric.SwitchTopology.Plan.{LabelsByName, AutoLabelPlan}

unfoldable pub sorted_nested_map_keys : LabelsByName → List String
sorted_nested_map_keys desired = sort_by string_less (keys desired)

-- the labels of the Nodes or of the Switches by name
module _ (accepts : String → Labels → Bool) where
  -- patchNodeLabels and patchSwitchLabels
  unfoldable pub patch_labels :
      LabelsByName → String → Labels → Labels → Option (String → Bool) → Attempt LabelsByName
  patch_labels objects name labels desired remove_label =
      reconcile_label_map labels desired remove_label >>= λ r.
      if r.changed
      then (if accepts name r.labels then done (put objects name r.labels) else fails write_failed)
      else done objects

  -- one of the two loops of applyPlan; `missing` is the error of an object that disappeared
  unfoldable pub apply_labels :
      Attempt LabelsByName → LabelsByName → LabelsByName → String → Attempt LabelsByName
  apply_labels missing desired objects name = elim (get objects name) [
    | none ↦ missing
    | some labels ↦ patch_labels objects name labels (get_or desired name []) none
  ]

  unfoldable pub apply_plan :
      AutoLabelPlan → LabelsByName → LabelsByName → Attempt (LabelsByName × LabelsByName)
  apply_plan plan nodes switches =
      fold_attempt (apply_labels (fails missing_node) plan.nodes) nodes
        (sorted_nested_map_keys plan.nodes)
      >>= λ nodes'.
          fold_attempt (apply_labels (fails missing_switch) plan.switches) switches
            (sorted_nested_map_keys plan.switches)
          >>= λ switches'. done (nodes', switches')
