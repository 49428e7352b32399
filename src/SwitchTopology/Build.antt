-- ===== src/SwitchTopology/Build.antt =====
-- `buildAutoLabelPlan`: the plan for one topology. Two templates' operations are parameters, MatchTier
-- and Render, with none for an error.
pub mod Steps
pub mod Fits
use Prim.Native.Char.{Char, nul}
use Prim.Native.String.{◌++◌ as text_append}
use unifabric.Common.{
  String, List, [], ◌∷◌, ◌++◌, Map, ℕ, ◌+◌, ◌%◌, Bool, true, false, not, ◌&&◌, ◌||◌, Option, none,
  some, get, get_or, put, keys, value_or, string_eq, nat_eq, ◌==◌, ltb, if◌then◌else◌, foldl, map,
  filter, length, elem, sort_by, string_less, pos,
}
use unifabric.Topology.Types.{Host, Switch, Topology}
use unifabric.Topology.Groups.{join}
use unifabric.Topology.Build.{discover_topology, with_hash_group_name, with_hash_length}
use unifabric.SwitchTopology.Types.{
  Attempt, done, fails, ◌>>=◌, fold_attempt, missing_node, missing_switch, multiple_locked_names,
  shared_name, node_locked, switch_locked, node_only_tier, render_failed, discovery_panicked,
}
use unifabric.SwitchTopology.Objects.{FabricNode, SwitchObject, NodeObject, effective_switch_role}
use unifabric.SwitchTopology.Labels.{Labels}
use unifabric.SwitchTopology.DomainNames.{
  MaxByTier, max_of, int_size, parse_auto_domain_name, auto_domain_name, number_text,
  scan_existing_auto_names, scan_existing_auto_member_name, topology_domain_label,
}
use unifabric.SwitchTopology.Inputs.{NameSet, is_in, TopologyInputs, build_topology_inputs_for_role}
use unifabric.SwitchTopology.Plan.{AutoLabelPlan, new_auto_label_plan, add_node, add_switch}
use unifabric.SwitchTopology.Discovered.{
  DiscoveredGroup, StringSet, sorted_string_set, normalize_discovered_groups,
}

-- The objects of the cluster by name; `synthetic` are the switches that only hosts report.
pub record Cluster : Type 0 where
  pub nodes_by_name : Map String NodeObject
  pub switches_by_name : Map String SwitchObject
  pub synthetic : NameSet

abbrev pub node_labels : Cluster → String → Labels
node_labels c name = elim (get c.nodes_by_name name) [ none ↦ [] | some node ↦ node.labels ]

-- the label of a switch, where the empty text is no label
abbrev pub domain_of : SwitchObject → String
domain_of sw = get_or sw.labels topology_domain_label ""

-- the variables that the groups change
pub record Assigning : Type 0 where
  pub max_by_tier : MaxByTier
  pub assigned_owners : Map String String
  pub plan : AutoLabelPlan

module _ (c : Cluster) (tier : ℕ) (key : String) where
  -- the names that the Nodes of a group have already
  unfoldable pub lock_node : StringSet → String → Attempt StringSet
  lock_node locked name = elim (get c.nodes_by_name name) [
    | none ↦ fails missing_node
    | some node ↦ elim (get node.labels key) [
      | none ↦ done locked
      | some value ↦ parse_auto_domain_name value tier >>= λ number. done (put locked value tt)
    ]
  ]

  unfoldable pub lock_switch : StringSet → String → Attempt StringSet
  lock_switch locked name = elim (get c.switches_by_name name) [
    | none ↦ if is_in c.synthetic name then done locked else fails missing_switch
    | some sw ↦
        if domain_of sw == ""
        then done locked
        else (parse_auto_domain_name (domain_of sw) tier >>= λ number.
            done (put locked (domain_of sw) tt))
  ]

  -- the name of a group: the one that is locked, or the next of its tier
  unfoldable pub assigned_name_of : MaxByTier → StringSet → Attempt (String × MaxByTier)
  assigned_name_of max_by_tier [] =
      let number = (max_of max_by_tier tier + 1) % int_size in
      done (auto_domain_name tier number, put max_by_tier tier number)
  assigned_name_of max_by_tier ((name, _) ∷ []) = done (name, max_by_tier)
  assigned_name_of max_by_tier (a ∷ b ∷ locked) = fails multiple_locked_names

  -- `owner` and the test that no other group has the name
  unfoldable pub claim_name : Map String String → String → String → Attempt (Map String String)
  claim_name owners name internal_name =
      let owner =
        text_append "tier" (text_append (number_text tier) (text_append ":" internal_name)) in
      elim (get owners name) [
        | none ↦ done (put owners name owner)
        | some existing ↦
            if existing == owner then done (put owners name owner) else fails shared_name
      ]

  unfoldable pub plan_node : String → AutoLabelPlan → String → Attempt AutoLabelPlan
  plan_node assigned plan name = elim (get (node_labels c name) key) [
    | none ↦ add_node plan name key assigned
    | some current ↦ if current == assigned then done plan else fails node_locked
  ]

  unfoldable pub plan_switch : String → AutoLabelPlan → String → Attempt AutoLabelPlan
  plan_switch assigned plan name = elim (get c.switches_by_name name) [
    | none ↦ if is_in c.synthetic name then done plan else fails missing_switch
    | some sw ↦
        if domain_of sw == ""
        then add_switch plan name topology_domain_label assigned
        else if domain_of sw == assigned
        then done plan
        else fails switch_locked
  ]

  unfoldable pub plan_group : Assigning → DiscoveredGroup → Attempt Assigning
  plan_group s group = fold_attempt lock_node [] group.nodes >>= λ nodes_locked.
      fold_attempt lock_switch nodes_locked group.members >>= λ locked.
      assigned_name_of s.max_by_tier locked >>= λ assigned.
      claim_name s.assigned_owners (assigned.0) group.internal_name >>= λ owners.
      fold_attempt (plan_node (assigned.0)) s.plan group.nodes >>= λ with_nodes.
      fold_attempt (plan_switch (assigned.0)) with_nodes group.members >>= λ plan.
      done (record { max_by_tier = assigned.1; assigned_owners = owners; plan = plan })

-- the texts that the groups of a tier are sorted by
abbrev group_sort_text : DiscoveredGroup → String
group_sort_text group =
    let separator = String.◌∷◌ nul String.[] in
    text_append (join separator group.members)
      (text_append (String.◌∷◌ (Char.char 1 tt) String.[]) (join separator group.lower))

unfoldable pub tier_group_less : DiscoveredGroup → DiscoveredGroup → Bool
tier_group_less a b = string_less (group_sort_text a) (group_sort_text b)

abbrev pub GroupsByTier : Type 0
GroupsByTier = Map ℕ (List DiscoveredGroup)

unfoldable pub add_to_tier : GroupsByTier → DiscoveredGroup → GroupsByTier
add_to_tier groups group = put groups group.tier (get_or groups group.tier [] ++ group ∷ [])

module _ (match_tier : String → Option ℕ) (render : ℕ → Option String) where
  unfoldable pub plan_tier : Cluster → Bool → GroupsByTier → Assigning → ℕ → Attempt Assigning
  plan_tier c node_only groups s tier =
      if node_only && not (tier == 1) then fails node_only_tier else elim (render tier) [
        | none ↦ fails render_failed
        | some key ↦
            fold_attempt (plan_group c tier key) s (sort_by tier_group_less (get_or groups tier []))
      ]

  unfoldable pub plan_groups :
      Cluster → Bool → MaxByTier → List DiscoveredGroup → Attempt AutoLabelPlan
  plan_groups c node_only max_by_tier groups =
      let by_tier = foldl add_to_tier [] groups in
      fold_attempt (plan_tier c node_only by_tier)
        (record { max_by_tier = max_by_tier; assigned_owners = []; plan = new_auto_label_plan })
        (sort_by ltb (keys by_tier))
      >>= λ s. done s.plan

  -- the names that the labels of Nodes and Switches have already
  unfoldable pub scan_existing : String → List SwitchObject → List NodeObject → Attempt MaxByTier
  scan_existing role switches nodes =
      fold_attempt (λ m (node : NodeObject). scan_existing_auto_names match_tier node.labels m) []
        nodes
      >>= λ scanned.
          fold_attempt (λ m (sw : SwitchObject). scan_existing_auto_member_name sw.labels m) scanned
            (filter (λ sw. effective_switch_role sw == role) switches)

  abbrev pub cluster_of : List SwitchObject → List NodeObject → NameSet → Cluster
  cluster_of switches nodes synthetic = record {
    nodes_by_name = foldl (λ m (node : NodeObject). put m node.name node) [] nodes;
    switches_by_name = foldl (λ m (sw : SwitchObject). put m sw.name sw) [] switches;
    synthetic = synthetic;
  }

  module _ (sha1_hex : String → String) (unmarshal_strings : String → Option (List String)) where
    unfoldable pub build_auto_label_plan :
        String → List FabricNode → List SwitchObject → List NodeObject → Attempt AutoLabelPlan
    build_auto_label_plan role fabric_nodes switches nodes =
        scan_existing role switches nodes >>= λ max_by_tier.
        let names = map (λ (node : NodeObject). node.name) nodes in
        let eligible = filter (λ (n : FabricNode). elem n.name names) fabric_nodes in
        build_topology_inputs_for_role unmarshal_strings role eligible switches >>= λ inputs.
        if length inputs.hosts == 0 || length inputs.switches == 0
        then done new_auto_label_plan
        else elim (discover_topology sha1_hex inputs.hosts inputs.switches
            (with_hash_group_name ∷ with_hash_length (pos 40) ∷ [])) [
              | none ↦ fails discovery_panicked
              | some discovered ↦ normalize_discovered_groups discovered inputs.hosts >>= λ groups.
                  plan_groups (cluster_of switches nodes inputs.synthetic_switches) inputs.node_only
                    max_by_tier groups
            ]
