-- ===== src/SwitchTopology/Plan/Merge.antt =====
-- `merge` of two plans that fit the objects.
use unifabric.Common.{
  String, List, [], ◌∷◌, Option, some, get_or, get_of_entry, string_eq, Member, Distinct, keys, ◌≡◌,
  ◌⊎◌, refl, sym, subst, inl, inr,
}
use unifabric.SwitchTopology.Types.{
  AutoLabelError, Attempt, fold_attempt, Gives, Gives-imp, Gives->>=, Gives-both,
  conflicting_node_values, conflicting_switch_values,
}
use unifabric.SwitchTopology.Labels.{Labels}
use unifabric.SwitchTopology.Plan.Puts.{label_of, only, one, Puts, Clashes, add_desired-Puts}
use unifabric.SwitchTopology.Plan.Loops.{Loops, merge_objects-Loops}
use unifabric.SwitchTopology.Plan.{
  LabelsByName, AutoLabelPlan, add_desired, add_node, add_switch, merge_labels, merge,
}
use unifabric.SwitchTopology.Plan.Fits.{IsReported, FitsObject, Fits, add_desired-Fits}

-- Both maps of a plan fit the Nodes and the Switches.
abbrev pub FitsBoth : (String → Option Labels) → (String → Option Labels) → AutoLabelPlan → Type 0
FitsBoth nodes switches plan = Fits nodes plan.nodes × Fits switches plan.switches

module _ (nodes switches : String → Option Labels) where
  abbrev Keeps :
      (AutoLabelPlan → String → String → String → Attempt AutoLabelPlan)
      → (String → Option Labels)
      → Type 0
  Keeps add own =
      (plan : AutoLabelPlan) (name key value : String) (have : Labels)
      → own name ≡ some have
      → get_or have key "" ≡ ""
      → FitsBoth nodes switches plan
      → Gives (FitsBoth nodes switches) IsReported (add plan name key value)

  add_node-Keeps : Keeps add_node nodes
  unfolding add_node
  add_node-Keeps plan name key value have e free fits =
      Gives->>= (Fits nodes) _ IsReported
        (add_desired conflicting_node_values plan.nodes name key value) _
        (add_desired-Fits nodes conflicting_node_values plan.nodes name key value have refl e free
          fits.0)
        (λ m k. (k, fits.1))

  add_switch-Keeps : Keeps add_switch switches
  unfolding add_switch
  add_switch-Keeps plan name key value have e free fits =
      Gives->>= (Fits switches) _ IsReported
        (add_desired conflicting_switch_values plan.switches name key value) _
        (add_desired-Fits switches conflicting_switch_values plan.switches name key value have refl
          e free fits.1)
        (λ m k. (fits.0, k))

  module _ (add : AutoLabelPlan → String → String → String → Attempt AutoLabelPlan)
      (own : String → Option Labels) (keeps : Keeps add own) where
    merge_entries :
        (name : String) (have : Labels)
        → own name ≡ some have
        → (labels : List (String × String))
        → ((key value : String) → Member (key, value) labels → get_or have key "" ≡ "")
        → (plan : AutoLabelPlan) → FitsBoth nodes switches plan
        → Gives
            (FitsBoth nodes switches)
            IsReported
            (fold_attempt (λ p (e : String × String). add p name (e.0) (e.1)) plan labels)
    unfolding fold_attempt
    merge_entries name have q [] free plan fits = fits
    merge_entries name have q ((key, value) ∷ labels) free plan fits =
        Gives->>= (FitsBoth nodes switches) _ IsReported (add plan name key value) _
          (keeps plan name key value have q (free key value (inl refl)) fits)
          (merge_entries name have q labels (λ k v m. free k v (inr m)))

    merge_all :
        (other : List (String × Labels))
        → ((name : String) (labels : Labels)
            → Member (name, labels) other
            → FitsObject (own name) labels)
        → (plan : AutoLabelPlan) → FitsBoth nodes switches plan
        → Gives (FitsBoth nodes switches) IsReported (fold_attempt (merge_labels add) plan other)
    unfolding fold_attempt merge_labels
    merge_all [] all plan fits = fits
    merge_all ((name, labels) ∷ other) all plan fits =
        let (have, q, d, free) = all name labels (inl refl) in
        Gives->>= (FitsBoth nodes switches) _ IsReported (merge_labels add plan (name, labels)) _
          (merge_entries name have q labels
            (λ key value m. free key value (get_of_entry labels key value d m)) plan fits)
          (merge_all other (λ n l m. all n l (inr m)))

  merge-FitsBoth :
      (plan other : AutoLabelPlan)
      → FitsBoth nodes switches plan
      → FitsBoth nodes switches other
      → Gives (FitsBoth nodes switches) IsReported (merge plan other)
  unfolding merge
  merge-FitsBoth plan other fits more =
      Gives->>= (FitsBoth nodes switches) _ IsReported
        (fold_attempt (merge_labels add_node) plan other.nodes) _
        (merge_all add_node nodes add_node-Keeps other.nodes
          (λ name labels m. more.0.1 name labels (get_of_entry other.nodes name labels more.0.0 m))
          plan fits)
        (merge_all add_switch switches add_switch-Keeps other.switches (λ name labels m.
          more.1.1 name labels (get_of_entry other.switches name labels more.1.0 m)))

abbrev nodes_of : AutoLabelPlan → LabelsByName
nodes_of plan = plan.nodes

abbrev switches_of : AutoLabelPlan → LabelsByName
switches_of plan = plan.switches

add_node-Loops :
    (plan : AutoLabelPlan) (name key value : String)
    → Loops add_node nodes_of switches_of conflicting_node_values
        (only name (one key value))
        plan
        (add_node plan name key value)
unfolding add_node
add_node-Loops plan name key value =
    Gives->>= (Puts plan.nodes (only name (one key value))) _ _
      (add_desired conflicting_node_values plan.nodes name key value) _
      (add_desired-Puts conflicting_node_values plan.nodes name key value) (λ m puts. (puts, refl))

add_switch-Loops :
    (plan : AutoLabelPlan) (name key value : String)
    → Loops add_switch switches_of nodes_of conflicting_switch_values
        (only name (one key value))
        plan
        (add_switch plan name key value)
unfolding add_switch
add_switch-Loops plan name key value =
    Gives->>= (Puts plan.switches (only name (one key value))) _ _
      (add_desired conflicting_switch_values plan.switches name key value) _
      (add_desired-Puts conflicting_switch_values plan.switches name key value)
      (λ m puts. (puts, refl))

-- the plan that has the labels of both, which agree
abbrev pub IsMerged : AutoLabelPlan → AutoLabelPlan → AutoLabelPlan → Type 0
IsMerged plan other merged =
    Puts plan.nodes (label_of other.nodes) merged.nodes
    × Puts plan.switches (label_of other.switches) merged.switches

-- the error of two different values for one label
abbrev pub IsConflict : AutoLabelPlan → AutoLabelPlan → AutoLabelError → Type 0
IsConflict plan other e =
    ((e ≡ conflicting_node_values) × Clashes plan.nodes (label_of other.nodes))
    ⊎ ((e ≡ conflicting_switch_values) × Clashes plan.switches (label_of other.switches))

abbrev HaveDistinctKeys : LabelsByName → Type 0
HaveDistinctKeys other =
    Distinct (keys other)
    × ((name : String) (labels : Labels) → Member (name, labels) other → Distinct (keys labels))

merge-IsMerged :
    (plan other : AutoLabelPlan)
    → HaveDistinctKeys other.nodes
    → HaveDistinctKeys other.switches
    → Gives (IsMerged plan other) (IsConflict plan other) (merge plan other)
unfolding merge
merge-IsMerged plan other nodes switches =
    let first =
      merge_objects-Loops add_node nodes_of switches_of conflicting_node_values add_node-Loops
        other.nodes nodes.0 nodes.1 plan in
    Gives->>= (λ p. Puts plan.nodes (label_of other.nodes) p.nodes × (p.switches ≡ plan.switches))
      (IsMerged plan other) (IsConflict plan other)
      (fold_attempt (merge_labels add_node) plan other.nodes) _
      (Gives-imp
        (λ p. Puts plan.nodes (label_of other.nodes) p.nodes × (p.switches ≡ plan.switches)) _
        (λ e. (e ≡ conflicting_node_values) × Clashes plan.nodes (label_of other.nodes)) _
        (fold_attempt (merge_labels add_node) plan other.nodes) (λ p h. h) (λ e h. inl h) first)
      (λ p (puts, same).
        Gives-imp (λ q. Puts p.switches (label_of other.switches) q.switches × (q.nodes ≡ p.nodes))
          _ (λ e. (e ≡ conflicting_switch_values) × Clashes p.switches (label_of other.switches)) _
          (fold_attempt (merge_labels add_switch) p other.switches)
          (λ q (more, same'). (
            subst (Puts plan.nodes (label_of other.nodes)) (sym same') puts,
            subst (λ d. Puts d (label_of other.switches) q.switches) same more,
          ))
          (λ e (q, clash). inr (q, subst (λ d. Clashes d (label_of other.switches)) same clash))
          (merge_objects-Loops add_switch switches_of nodes_of conflicting_switch_values
            add_switch-Loops other.switches switches.0 switches.1 p))

have_distinct_keys :
    (own : String → Option Labels) (other : LabelsByName) → Fits own other → HaveDistinctKeys other
have_distinct_keys own other (d, all) = (
  d,
  λ name labels m.
      let (have, e, unique, free) = all name labels (get_of_entry other name labels d m) in unique,
)

-- merge of two plans that fit the objects. A plan that it returns fits them, has each label of the
-- other plan and, where that has none, the label of the first, for Nodes and for Switches, and no label
-- had another value in the two plans. Where it fails, the error is that of two different values for a
-- label of a Node or of a Switch, and such a label is in the two plans.
pub merge_exact :
    (nodes switches : String → Option Labels) (plan other : AutoLabelPlan)
    → FitsBoth nodes switches plan
    → FitsBoth nodes switches other
    → Gives
        (λ merged. FitsBoth nodes switches merged × IsMerged plan other merged)
        (IsConflict plan other)
        (merge plan other)
merge_exact nodes switches plan other fits more =
    Gives-both (FitsBoth nodes switches) (IsMerged plan other) IsReported (IsConflict plan other)
      (merge plan other) (merge-FitsBoth nodes switches plan other fits more)
      (merge-IsMerged plan other (have_distinct_keys nodes other.nodes more.0)
        (have_distinct_keys switches other.switches more.1))
