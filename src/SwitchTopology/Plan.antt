-- ===== src/SwitchTopology/Plan.antt =====
-- `autoLabelPlan`: the labels that the controller wants to set, by object and key.
pub mod Fits
pub mod Puts
pub mod Loops
pub mod Merge
use unifabric.Common.{
  String, List, [], ◌∷◌, Map, ℕ, Bool, true, false, ◌&&◌, Option, none, some, get, get_or, put,
  string_eq, ◌==◌, if◌then◌else◌,
}
use unifabric.SwitchTopology.Types.{
  AutoLabelError, Attempt, done, fails, ◌>>=◌, fold_attempt, conflicting_node_values,
  conflicting_switch_values,
}
use unifabric.SwitchTopology.Labels.{Labels}

abbrev pub LabelsByName : Type 0
LabelsByName = Map String Labels

pub record AutoLabelPlan : Type 0 where
  pub nodes : LabelsByName
  pub switches : LabelsByName

abbrev pub new_auto_label_plan : AutoLabelPlan
new_auto_label_plan = record { nodes = []; switches = [] }

-- the common body of addNode and addSwitch, which differ in the map and the error
unfoldable pub add_desired :
    AutoLabelError → LabelsByName → String → String → String → Attempt LabelsByName
add_desired conflict desired name key value =
    let labels = get_or desired name [] in
    let next = done (put desired name (put labels key value)) in
    elim (get labels key) [
      | none ↦ next
      | some existing ↦ if existing == value then next else fails conflict
    ]

unfoldable pub add_node : AutoLabelPlan → String → String → String → Attempt AutoLabelPlan
add_node plan name key value =
    add_desired conflicting_node_values plan.nodes name key value >>= λ nodes.
    done (record plan { nodes = nodes })

unfoldable pub add_switch : AutoLabelPlan → String → String → String → Attempt AutoLabelPlan
add_switch plan name key value =
    add_desired conflicting_switch_values plan.switches name key value >>= λ switches.
    done (record plan { switches = switches })

-- one of the two loops of merge over the labels of an object
unfoldable pub merge_labels :
    (AutoLabelPlan → String → String → String → Attempt AutoLabelPlan)
    → AutoLabelPlan
    → String × Labels
    → Attempt AutoLabelPlan
merge_labels add plan (name, labels) =
    fold_attempt (λ p (e : String × String). add p name (e.0) (e.1)) plan labels

unfoldable pub merge : AutoLabelPlan → AutoLabelPlan → Attempt AutoLabelPlan
merge plan other = fold_attempt (merge_labels add_node) plan other.nodes >>= λ p.
    fold_attempt (merge_labels add_switch) p other.switches

abbrev no_labels : LabelsByName → Bool
no_labels [] = true
no_labels (e ∷ rest) = false

unfoldable pub is_plan_empty : AutoLabelPlan → Bool
is_plan_empty plan = no_labels plan.nodes && no_labels plan.switches
