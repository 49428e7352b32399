-- ===== src/SwitchTopology/Examples.antt =====
-- The switch topology controller on a small cluster: one Node that a leaf switch reports.
use unifabric.Common.{
  String, List, [], ◌∷◌, Map, ℕ, Bool, true, false, not, Option, none, some, get, get_or, put, keys,
  entry_of_get, string_eq, nat_eq, ◌==◌, ==_iff, if◌then◌else◌, Member, Distinct, pos, ◌≡◌, ◌≢◌,
  refl, sym, subst, ap, arith, inl, inr,
}
use unifabric.Topology.Types.{Topology, TopologyGroup}
use unifabric.SwitchTopology.Types.{
  done, fails, fold_attempt, Gives, locked_label, unexpected_tier, write_failed,
}
use unifabric.SwitchTopology.Objects.{FabricNode, SwitchObject, NodeObject}
use unifabric.SwitchTopology.Labels.{
  Labels, copy_labels, locked_value, set_desired, remove_labels, reconcile_label_map,
}
use unifabric.SwitchTopology.Labels.Kept.{or_else, kept_label}
use unifabric.SwitchTopology.Labels.Exact.{IsLocked, reconcile_label_map_exact}
use unifabric.SwitchTopology.DomainNames.{parse_auto_domain_name, auto_domain_name}
use unifabric.SwitchTopology.DomainNames.RoundTrip.{parse_auto_domain_name-auto_domain_name}
use unifabric.SwitchTopology.ResourceNames.{
  trim_left, trim_right, trim_space, is_space, to_lower, lower_all, squeeze,
  normalize_resource_name,
}
use unifabric.SwitchTopology.ResourceNames.Normal.{IsResourceName, normalize_resource_name_normal}
use unifabric.SwitchTopology.Inputs.{build_topology_inputs_for_role}
use unifabric.SwitchTopology.Inputs.WellFormed.{IsInputError}
use unifabric.SwitchTopology.Inputs.Returns.{AreInputs, build_topology_inputs_for_role_lem}
use unifabric.SwitchTopology.Plan.{AutoLabelPlan, LabelsByName, merge}
use unifabric.SwitchTopology.Plan.Fits.{IsReported, FitsObject, Fits}
use unifabric.SwitchTopology.Plan.Merge.{FitsBoth, IsMerged, IsConflict, merge_exact}
use unifabric.SwitchTopology.Discovered.{index_discovered, normalize_discovered_groups}
use unifabric.SwitchTopology.Discovered.Walks.{IsBlockedWalk}
use unifabric.SwitchTopology.Discovered.Ends.{AreGroups, normalize_discovered_groups_exact}
use unifabric.SwitchTopology.Build.{cluster_of, build_auto_label_plan}
use unifabric.SwitchTopology.Build.Steps.{FitsCluster}
use unifabric.SwitchTopology.Build.Fits.{build_auto_label_plan_fits}
use unifabric.SwitchTopology.Apply.{apply_plan}
use unifabric.SwitchTopology.Apply.Sets.{AreObjects, HaveAll, apply_plan_sets}

abbrev zone : String
zone = "zone"

abbrev rack : String
rack = "rack"

abbrev existing : Labels
existing = ("zone", "a") ∷ ("rack", "") ∷ []

abbrev desired : Labels
desired = ("rack", "r1") ∷ []

existing-Distinct : Distinct (keys existing)
existing-Distinct = (
  (λ m. elim m [
    | inl e ↦ absurd (let b : false ≡ true = (==_iff zone rack).1 e in cc)
    | inr f ↦ absurd f
  ]),
  ((λ f. f), tt),
)

reconciled_labels :
    reconcile_label_map existing desired none
    ≡ done (record { labels = ("zone", "a") ∷ ("rack", "r1") ∷ []; changed = true })
unfolding reconcile_label_map fold_attempt set_desired locked_value remove_labels copy_labels get
    put
reconciled_labels = refl

locked_labels : reconcile_label_map existing (("zone", "b") ∷ []) none ≡ fails locked_label
unfolding reconcile_label_map fold_attempt set_desired locked_value remove_labels copy_labels get
    put
locked_labels = refl

reconcile_label_map_exact_example :
    Gives
      (λ t.
        ((k : String) → get t.labels k ≡ or_else (get desired k) (kept_label existing none k))
        × (¬ IsLocked existing desired none)
        × (t.changed ≡ false → (k : String) → get t.labels k ≡ get existing k))
      (λ e. (e ≡ locked_label) × IsLocked existing desired none)
      (reconcile_label_map existing desired none)
reconcile_label_map_exact_example =
    reconcile_label_map_exact existing desired none existing-Distinct ((λ f. f), tt)

abbrev second : ℕ
second = 2

abbrev third : ℕ
third = 3

parse_auto_domain_name-auto_domain_name_example :
    parse_auto_domain_name (auto_domain_name second third) second
    ≡ (if second == second then done third else fails unexpected_tier)
parse_auto_domain_name-auto_domain_name_example =
    parse_auto_domain_name-auto_domain_name second third second (omega arith) (omega arith)
      (omega arith) (omega arith)

leaf_name : normalize_resource_name " Leaf__01.Rack " ≡ "leaf-01-rack"
unfolding normalize_resource_name trim_space trim_left trim_right is_space lower_all to_lower
    squeeze get unifabric.Common.elem
leaf_name = refl

normalize_resource_name_normal_example :
    IsResourceName (normalize_resource_name " Leaf__01.Rack ")
    × (normalize_resource_name (normalize_resource_name " Leaf__01.Rack ")
        ≡ normalize_resource_name " Leaf__01.Rack ")
    × ((name : String) → IsResourceName name → normalize_resource_name name ≡ name)
normalize_resource_name_normal_example = normalize_resource_name_normal " Leaf__01.Rack "

abbrev one_string : String → Option (List String)
one_string s = some (s ∷ [])

abbrev fabric_nodes : List FabricNode
fabric_nodes =
    record {
      name = "n1";
      node_role = "GPU";
      scale_out_nics =
          record {
            state = "up";
            lldp_neighbor = record { hostname = "Leaf-1"; port = "Ethernet0" };
          }
          ∷ [];
      storage_nics = [];
    }
    ∷ []

abbrev switches : List SwitchObject
switches =
    record {
      name = "leaf-1";
      labels = [];
      annotations = [];
      role = "";
      hostname = "leaf-1";
      lldp_neighbors =
          record { remote_system_type = "Switch"; remote_system_name = "spine-1" } ∷ [];
    }
    ∷ []

build_topology_inputs_for_role_lem_example :
    Gives
      (AreInputs "ScaleOut" fabric_nodes switches)
      IsInputError
      (build_topology_inputs_for_role one_string "ScaleOut" fabric_nodes switches)
build_topology_inputs_for_role_lem_example =
    build_topology_inputs_for_role_lem one_string "ScaleOut" fabric_nodes switches

abbrev nodes : List NodeObject
nodes = record { name = "n1"; labels = ("zone", "a") ∷ [] } ∷ []

-- no label key stands for a tier, and the key of each tier is the same
abbrev no_tier : String → Option ℕ
no_tier key = none

abbrev one_key : ℕ → Option String
one_key tier = some "fabric/tier"

abbrev no_digest : String → String
no_digest s = s

build_auto_label_plan_fits_example :
    Gives (FitsCluster (cluster_of no_tier one_key switches nodes [])) IsReported (
      build_auto_label_plan no_tier one_key no_digest one_string "ScaleOut" fabric_nodes switches
        nodes)
build_auto_label_plan_fits_example =
    build_auto_label_plan_fits no_tier one_key no_digest one_string "ScaleOut" fabric_nodes switches
      nodes

abbrev first_group : TopologyGroup
first_group = record {
  name = "g1";
  tier = pos 1;
  members = "leaf-1" ∷ [];
  lower_tier_nodes = "n1" ∷ [];
  upper_tier_nodes = [];
}

abbrev discovered : Topology
discovered = record {
  nodes = [];
  edges = [];
  nodes_by_tier = [];
  groups_by_tier = (pos 1, first_group ∷ []) ∷ [];
  parent_index = ("n1", "g1" ∷ []) ∷ [];
}

normalize_discovered_groups_exact_example :
    Gives
      (AreGroups discovered (index_discovered discovered).by_name (record { name = "n1" } ∷ []))
      (IsBlockedWalk discovered (index_discovered discovered).by_name (record { name = "n1" } ∷ []))
      (normalize_discovered_groups discovered (record { name = "n1" } ∷ []))
normalize_discovered_groups_exact_example =
    normalize_discovered_groups_exact discovered (record { name = "n1" } ∷ [])

abbrev node_labels_by_name : LabelsByName
node_labels_by_name = ("n1", existing) ∷ []

abbrev plan : AutoLabelPlan
plan = record { nodes = ("n1", desired) ∷ []; switches = [] }

-- the one entry of a map
only_entry :
    (key name : String) (labels found : Labels)
    → get ((key, labels) ∷ []) name ≡ some found
    → (name ≡ key) × (found ≡ labels)
only_entry key name labels found g = elim (entry_of_get ((key, labels) ∷ []) name found g) [
  | inl e ↦ (ap (λ (p : String × Labels). p.0) e, ap (λ (p : String × Labels). p.1) e)
  | inr f ↦ absurd f
]

nodes-AreObjects : AreObjects node_labels_by_name
nodes-AreObjects name labels g =
    let (_, e) = only_entry "n1" name existing labels g in
    subst (λ l. Distinct (keys l)) (sym e) existing-Distinct

nothing-AreObjects : AreObjects []
unfolding get
nothing-AreObjects name labels g = absurd cc

plan-Fits : Fits (get node_labels_by_name) plan.nodes
unfolding get
plan-Fits = (
  ((λ f. f), tt),
  λ name labels g.
      let (n, e) = only_entry "n1" name desired labels g in
      subst (λ l. FitsObject (get node_labels_by_name name) l) (sym e)
        (subst (λ k. FitsObject (get node_labels_by_name k) desired) (sym n)
          (
            existing,
            refl,
            ((λ f. f), tt),
            λ key value h. elim (entry_of_get desired key value h) [
              | inl q ↦
                  let k : key ≡ "rack" = ap (λ (p : String × String). p.0) q in
                  subst (λ j. get_or existing j "" ≡ "") (sym k) refl
              | inr f ↦ absurd f
            ],
          )),
)

nothing-Fits : Fits (get []) []
unfolding get
nothing-Fits = (tt, λ name labels g. absurd cc)

abbrev accepts_all : String → Labels → Bool
accepts_all name labels = true

apply_plan_sets_example :
    Gives
      (λ r. HaveAll plan.nodes (r.0) × HaveAll plan.switches (r.1))
      (λ e. e ≡ write_failed)
      (apply_plan accepts_all plan node_labels_by_name [])
apply_plan_sets_example =
    apply_plan_sets accepts_all plan node_labels_by_name [] nodes-AreObjects nothing-AreObjects
      plan-Fits nothing-Fits

merge_exact_example :
    Gives
      (λ merged. FitsBoth (get node_labels_by_name) (get []) merged × IsMerged plan plan merged)
      (IsConflict plan plan)
      (merge plan plan)
merge_exact_example =
    merge_exact (get node_labels_by_name) (get []) plan plan (plan-Fits, nothing-Fits)
      (plan-Fits, nothing-Fits)
