-- ===== src/SwitchTopology/Build/Fits.antt =====
-- What `buildAutoLabelPlan` plans fits the cluster, so that `applyPlan` meets no locked label.
use unifabric.Common.{
  String, List, [], ◌∷◌, ℕ, Bool, ◌||◌, Option, get, get_or, keys, string_eq, nat_eq, ◌==◌,
  if_keeps, foldl, map, filter, length, elem, ltb, sort_by, Option-cases, pos, refl, inl, inr,
}
use unifabric.Topology.Build.{with_hash_group_name, with_hash_length}
use unifabric.Topology.Pipeline.{discover_topology_returns}
use unifabric.SwitchTopology.Types.{
  AutoLabelError, fold_attempt, Gives, Gives->>=, Gives-imp, Gives-fold_attempt,
}
use unifabric.SwitchTopology.Objects.{FabricNode, SwitchObject, NodeObject, effective_switch_role}
use unifabric.SwitchTopology.Labels.{Labels}
use unifabric.SwitchTopology.DomainNames.{
  MaxByTier, parse_auto_domain_name, parse_auto_domain_name_parts, scan_label,
  scan_existing_auto_names, scan_existing_auto_member_name, topology_domain_label,
}
use unifabric.SwitchTopology.Inputs.{build_topology_inputs_for_role}
use unifabric.SwitchTopology.Inputs.WellFormed.{IsInputError}
use unifabric.SwitchTopology.Inputs.Returns.{AreInputs, build_topology_inputs_for_role_lem}
use unifabric.SwitchTopology.Plan.{new_auto_label_plan}
use unifabric.SwitchTopology.Plan.Fits.{IsReported}
use unifabric.SwitchTopology.Discovered.{DiscoveredGroup, normalize_discovered_groups}
use unifabric.SwitchTopology.Discovered.Ends.{normalize_discovered_groups-IsReported}
use unifabric.SwitchTopology.Build.{
  Cluster, cluster_of, Assigning, add_to_tier, plan_tier, plan_groups, scan_existing,
  build_auto_label_plan,
}
use unifabric.SwitchTopology.Build.Steps.{
  Ends, parse_parts-Ends, parse_name-Ends, FitsCluster, plan_tier-FitsCluster,
}

module _ (match_tier : String → Option ℕ) where
  scan_label-Ends : (m : MaxByTier) (e : String × String) → Ends (scan_label match_tier m e)
  unfolding scan_label
  scan_label-Ends m (key, value) = elim (Option-cases (match_tier key)) [
    | inl e ↦ rw (e, Gives) tt
    | inr (tier, e) ↦
        rw (e, Gives)
          (Gives->>= (λ a. Unit {0}) _ IsReported (parse_auto_domain_name value tier) _
            (parse_name-Ends value tier) (λ n k. tt))
  ]

  scan_member-Ends :
      (m : MaxByTier) (labels : Labels) → Ends (scan_existing_auto_member_name labels m)
  unfolding scan_existing_auto_member_name
  scan_member-Ends m labels = if_keeps Ends (get_or labels topology_domain_label "" == "") tt (
      Gives->>= (λ a. Unit {0}) _ IsReported
        (parse_auto_domain_name_parts (get_or labels topology_domain_label "")) _
        (parse_parts-Ends (get_or labels topology_domain_label "")) (λ n k. tt))

  scan_existing-Ends :
      (render : ℕ → Option String) (role : String) (switches : List SwitchObject)
      (nodes : List NodeObject)
      → Ends (scan_existing match_tier render role switches nodes)
  unfolding scan_existing scan_existing_auto_names
  scan_existing-Ends render role switches nodes =
      Gives->>= (λ a. Unit {0}) _ IsReported
        (fold_attempt (λ m (node : NodeObject). scan_existing_auto_names match_tier node.labels m)
          [] nodes)
        _
        (Gives-fold_attempt (λ left m. Unit {0}) IsReported
          (λ m (node : NodeObject). scan_existing_auto_names match_tier node.labels m)
          (λ node rest m k.
            Gives-fold_attempt (λ left m'. Unit {0}) IsReported (scan_label match_tier)
              (λ e es m' k'. scan_label-Ends m' e) node.labels m tt)
          nodes [] tt)
        (λ scanned k.
          Gives-fold_attempt (λ left m. Unit {0}) IsReported
            (λ m (sw : SwitchObject). scan_existing_auto_member_name sw.labels m)
            (λ sw rest m k'. scan_member-Ends m sw.labels)
            (filter (λ sw. effective_switch_role sw == role) switches) scanned tt)

  plan_groups-FitsCluster :
      (render : ℕ → Option String) (c : Cluster) (node_only : Bool) (m : MaxByTier)
      (groups : List DiscoveredGroup)
      → Gives (FitsCluster c) IsReported (plan_groups match_tier render c node_only m groups)
  unfolding plan_groups get
  plan_groups-FitsCluster render c node_only m groups =
      let by_tier = foldl add_to_tier [] groups in
      let start : Assigning = record {
        max_by_tier = m;
        assigned_owners = [];
        plan = new_auto_label_plan;
      } in
      Gives->>= (λ (s : Assigning). FitsCluster c s.plan) _ IsReported
        (fold_attempt (plan_tier match_tier render c node_only by_tier) start
          (sort_by ltb (keys by_tier)))
        _
        (Gives-fold_attempt (λ left (s : Assigning). FitsCluster c s.plan) IsReported
          (plan_tier match_tier render c node_only by_tier)
          (λ tier rest s k. plan_tier-FitsCluster render c match_tier node_only by_tier s tier k)
          (sort_by ltb (keys by_tier)) start ((tt, λ n l g. absurd cc), (tt, λ n l g. absurd cc)))
        (λ s k. k)

input_error : (e : AutoLabelError) → IsInputError e → IsReported e
input_error e (inl q) = rw q refl
input_error e (inr (inl q)) = rw q refl
input_error e (inr (inr (inl q))) = rw q refl
input_error e (inr (inr (inr q))) = rw q refl

-- buildAutoLabelPlan returns a plan or an error that it reports: it dereferences no missing builder,
-- DiscoverTopology does not panic on its inputs, and the walk up from each host ends. Every object of
-- the plan is one of the Nodes or Switches that it got, and each planned label has a key under which
-- the object has no value yet: a locked label is never planned again.
pub build_auto_label_plan_fits :
    (match_tier : String → Option ℕ) (render : ℕ → Option String) (sha1_hex : String → String)
    (unmarshal_strings : String → Option (List String)) (role : String)
    (fabric_nodes : List FabricNode) (switches : List SwitchObject) (nodes : List NodeObject)
    → Gives (FitsCluster (cluster_of match_tier render switches nodes [])) IsReported (
        build_auto_label_plan match_tier render sha1_hex unmarshal_strings role fabric_nodes
          switches nodes)
unfolding build_auto_label_plan get
build_auto_label_plan_fits match_tier render sha1_hex unmarshal_strings role fabric_nodes switches
      nodes =
    let names = map (λ (node : NodeObject). node.name) nodes in
    let eligible = filter (λ (n : FabricNode). elem n.name names) fabric_nodes in
    Gives->>= (λ m. Unit {0}) _ IsReported (scan_existing match_tier render role switches nodes) _
      (scan_existing-Ends match_tier render role switches nodes)
      (λ m k.
        Gives->>= (AreInputs role eligible switches) _ IsReported
          (build_topology_inputs_for_role unmarshal_strings role eligible switches) _
          (Gives-imp _ _ IsInputError IsReported
            (build_topology_inputs_for_role unmarshal_strings role eligible switches) (λ i q. q)
            input_error
            (build_topology_inputs_for_role_lem unmarshal_strings role eligible switches))
          (λ inputs k.
            let (g, e, d) =
              discover_topology_returns sha1_hex inputs.hosts inputs.switches
                (with_hash_group_name ∷ with_hash_length (pos 40) ∷ []) in
            if_keeps
              (Gives (FitsCluster (cluster_of match_tier render switches nodes [])) IsReported)
              (length inputs.hosts == 0 || length inputs.switches == 0)
              ((tt, λ n l g. absurd cc), (tt, λ n l g. absurd cc))
              (rw (e, Gives)
                (Gives->>= (λ groups. Unit {0}) _ IsReported
                  (normalize_discovered_groups _ inputs.hosts) _
                  (normalize_discovered_groups-IsReported _ inputs.hosts)
                  (λ groups k'.
                    plan_groups-FitsCluster match_tier render
                      (cluster_of match_tier render switches nodes inputs.synthetic_switches)
                      inputs.node_only m groups)))))
