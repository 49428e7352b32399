-- ===== src/Status/Examples.antt =====
-- Tests of the status build, and the examples of its theorems.
use unifabric.Common.{
  String, Bool, true, false, List, [], ◌∷◌, Map, ℕ, ◌+◌, ◌≤◌, ◌<◌, Option, none, some, get, length,
  map, Member, Distinct, ◌≡◌, ◌≢◌, ◌⊎◌, ◌↔◌, refl, arith, inl, inr, ◌==◌, string_eq, nat_eq, ==_iff,
  if◌then◌else◌,
}
use unifabric.Status.Types.{
  TierMatcher, LabeledResource, LabelSnapshot, TopologyDomain, TopologyNodeGroup, BuildResult,
  Result, ok, err, Safe, Outcome,
}
use unifabric.Status.Labels.{labels_by_tier}
use unifabric.Status.Labels.Exact.{Labels, IsConflict, labels_by_tier_exact}
use unifabric.Status.Names.{
  max_int, parse_node_group_number, node_group_name, node_group_key, previous_names, used_numbers,
  assign_node_group_names,
}
use unifabric.Status.Names.RoundTrip.{parse_node_group_number-node_group_name}
use unifabric.Status.Names.Fresh.{new_names}
use unifabric.Status.Names.Unique.{assign_node_group_names_fresh, assign_node_group_names_least}
use unifabric.Status.Names.Stable.{assign_node_group_names_stable}
use unifabric.Status.Build.{build_topology_status}
use unifabric.Status.Build.Forest.{IsForest, build_topology_status-IsForest}

-- the keys `tier-1` and `tier-2`
abbrev match_two : TierMatcher
match_two key = if key == "tier-1" then some 1 else if key == "tier-2" then some 2 else none

abbrev leaf_labels : Map String String
leaf_labels = ("zone", "z") ∷ ("tier-2", "spine") ∷ ("tier-1", "leaf") ∷ []

abbrev cluster : LabelSnapshot
cluster = record {
  nodes =
      record { name = "node-b"; labels = leaf_labels }
      ∷ record { name = "node-a"; labels = leaf_labels }
      ∷ record { name = "node-c"; labels = ("tier-1", "alone") ∷ [] }
      ∷ [];
  switches =
      record { name = "sw1"; labels = ("unifabric.io/domain", "leaf") ∷ [] }
      ∷ record { name = "sw2"; labels = ("unifabric.io/domain", "lost") ∷ [] }
      ∷ [];
}

abbrev group_at : String → List String → TopologyNodeGroup
group_at name path = record { name = name; switch_domain_path = path; nodes = "n" ∷ [] }

abbrev old_groups : List TopologyNodeGroup
old_groups = group_at "node-group2" ("spine" ∷ "leaf" ∷ []) ∷ group_at "rack" ("gone" ∷ []) ∷ []

abbrev new_groups : List TopologyNodeGroup
new_groups =
    group_at "" ("alone" ∷ []) ∷ group_at "" ("spine" ∷ "leaf" ∷ []) ∷ group_at "" ("x" ∷ []) ∷ []

assigned :
    map (λ g. g.name) (assign_node_group_names new_groups old_groups)
    ≡ "node-group1" ∷ "node-group2" ∷ "node-group3" ∷ []
unfolding assign_node_group_names previous_names used_numbers unifabric.Status.Names.assign_names
    unifabric.Status.Names.kept_name get unifabric.Common.put unifabric.Topology.Groups.join
    node_group_name unifabric.Common.elem
assigned = refl

parse_node_group_number-node_group_name_example :
    parse_node_group_number (node_group_name 120) ≡ some 120
parse_node_group_number-node_group_name_example =
    parse_node_group_number-node_group_name 120 (omega arith) (omega arith)

assign_node_group_names_fresh_example :
    let names =
      new_names
        (previous_names old_groups)
        new_groups
        (assign_node_group_names new_groups old_groups) in
    Distinct names
    × ((name : String) → Member name names → ¬ Member name ("node-group2" ∷ "rack" ∷ []))
assign_node_group_names_fresh_example =
    assign_node_group_names_fresh new_groups old_groups (omega arith)

assign_node_group_names_least_example :
    (ns : List ℕ) × (new_names
        (previous_names old_groups)
        new_groups
        (assign_node_group_names new_groups old_groups)
      ≡ map node_group_name ns)
    × ((n m : ℕ) → Member n ns → 0 < m → m < n → Member m (used_numbers old_groups) ⊎ Member m ns)
assign_node_group_names_least_example = assign_node_group_names_least new_groups old_groups

differ : (a b : String) → (a == b) ≡ false → a ≢ b
differ a b h e = ground (arith, ==_iff a b)

keys_differ : Distinct (map (λ g. node_group_key g.switch_domain_path) new_groups)
unfolding node_group_key unifabric.Topology.Groups.join
keys_differ = (
  λ m. elim m [
    | inl e ↦ differ "alone" (node_group_key ("spine" ∷ "leaf" ∷ [])) refl e
    | inr (inl e) ↦ differ "alone" "x" refl e
    | inr (inr n) ↦ absurd n
  ],
  (
    λ m. elim m [
      | inl e ↦ differ (node_group_key ("spine" ∷ "leaf" ∷ [])) "x" refl e
      | inr n ↦ absurd n
    ],
    ((λ n. n), tt),
  ),
)

assign_node_group_names_stable_example :
    assign_node_group_names new_groups (assign_node_group_names new_groups old_groups)
    ≡ assign_node_group_names new_groups old_groups
assign_node_group_names_stable_example =
    assign_node_group_names_stable new_groups old_groups keys_differ

labels_by_tier_exact_example :
    Outcome
      (λ result.
        (tier : ℕ) (value : String)
        → (get result tier ≡ some value)
          ↔ ((key : String) × Labels match_two leaf_labels key tier value))
      (IsConflict match_two leaf_labels)
      (labels_by_tier match_two leaf_labels)
labels_by_tier_exact_example = labels_by_tier_exact match_two leaf_labels

abbrev no_spaces : String → Bool
no_spaces name = if name == "a b" then false else true

-- the names and the parents of the domains that are built
abbrev built : Result BuildResult → Option (List (String × String) × List String)
built (ok r) = some (map (λ d. (d.name, d.parent)) r.status.domains, r.pending)
built (err e) = none

build_topology_status-IsForest_example :
    Safe
      (λ r. IsForest r.status.domains)
      (build_topology_status no_spaces (λ s. s) (some match_two) cluster old_groups)
build_topology_status-IsForest_example =
    build_topology_status-IsForest no_spaces (λ s. s) (some match_two) cluster old_groups

build_cluster :
    built (build_topology_status no_spaces (λ s. s) (some match_two) cluster old_groups)
    ≡ some (
      ("spine", "") ∷ ("alone", "") ∷ ("leaf", "spine") ∷ [],
      "Switch sw2 domain lost has no matching Node domain" ∷ [],
    )
unfolding build_topology_status unifabric.Status.Types.fold_result unifabric.Common.sort_by
    labels_by_tier unifabric.Status.Labels.add_label get unifabric.Common.put
    unifabric.Status.Domains.check_tiers unifabric.Status.Domains.sorted_tiers
    unifabric.Status.Domains.check_tier unifabric.Status.Domains.ensure_domain
    unifabric.Status.Domains.link_parents unifabric.Status.Domains.link_parent
    unifabric.Status.Build.finish_domains unifabric.Status.Domains.sorted_set
build_cluster = refl
