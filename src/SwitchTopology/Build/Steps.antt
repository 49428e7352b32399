-- ===== src/SwitchTopology/Build/Steps.antt =====
-- The steps of `buildAutoLabelPlan` keep a plan that fits the cluster.
use unifabric.Common.{
  String, List, [], ◌∷◌, Map, ℕ, Bool, not, ◌&&◌, Option, none, some, get, get_or, value_or,
  string_eq, nat_eq, ◌==◌, ==_iff, if_keeps, Member, sort_by, Bool-cases, Option-cases, ◌≡◌, refl,
  sym, ap, subst, inl, inr,
}
use unifabric.TopologyLabel.Types.{Bytes}
use unifabric.SwitchTopology.Types.{
  Attempt, fold_attempt, Gives, Gives->>=, Gives-imp, Gives-fold_attempt, conflicting_node_values,
  conflicting_switch_values,
}
use unifabric.SwitchTopology.Objects.{NodeObject}
use unifabric.SwitchTopology.Labels.{Labels}
use unifabric.SwitchTopology.DomainNames.{
  MaxByTier, positive_number, atoi_digits, domain_numbers, domain_groups,
  parse_auto_domain_name_parts, parse_auto_domain_name, topology_domain_label,
}
use unifabric.SwitchTopology.Inputs.{is_in}
use unifabric.SwitchTopology.Plan.{AutoLabelPlan, add_desired, add_node, add_switch}
use unifabric.SwitchTopology.Plan.Fits.{IsReported, Fits, add_desired-Fits}
use unifabric.SwitchTopology.Discovered.{DiscoveredGroup, StringSet}
use unifabric.SwitchTopology.Build.{
  Cluster, node_labels, domain_of, Assigning, lock_node, lock_switch, assigned_name_of, claim_name,
  plan_node, plan_switch, plan_group, tier_group_less, GroupsByTier, plan_tier,
}

-- a step that ends with a result or an error that the code reports
abbrev pub Ends : {A : Type 0} → Attempt A → Type 0
Ends = Gives (λ a. Unit {0}) IsReported

domain_numbers-Ends : (a b : Bytes) → Ends (domain_numbers a b)
unfolding domain_numbers
domain_numbers-Ends a b = elim (Option-cases (positive_number (atoi_digits a))) [
  | inl e ↦ rw (e, Gives) refl
  | inr (m, e) ↦ elim (Option-cases (positive_number (atoi_digits b))) [
    | inl q ↦ rw (e, q, Gives) refl
    | inr (n, q) ↦ rw (e, q, Gives) tt
  ]
]

domain_groups-Ends : (groups : Option (List Bytes)) → Ends (domain_groups groups)
domain_groups-Ends none = refl
domain_groups-Ends (some []) = refl
domain_groups-Ends (some (a ∷ [])) = refl
domain_groups-Ends (some (a ∷ b ∷ [])) = domain_numbers-Ends a b
domain_groups-Ends (some (a ∷ b ∷ c ∷ groups)) = refl

pub parse_parts-Ends : (value : String) → Ends (parse_auto_domain_name_parts value)
unfolding parse_auto_domain_name_parts
parse_parts-Ends value = domain_groups-Ends _

pub parse_name-Ends : (value : String) (tier : ℕ) → Ends (parse_auto_domain_name value tier)
unfolding parse_auto_domain_name
parse_name-Ends value tier =
    Gives->>= (λ a. Unit {0}) _ IsReported (parse_auto_domain_name_parts value) _
      (parse_parts-Ends value) (λ parts k. if_keeps Ends (not (parts.0 == tier)) refl tt)

abbrev pub own_node : Cluster → String → Option Labels
own_node c name = elim (get c.nodes_by_name name) [ none ↦ none | some node ↦ some node.labels ]

abbrev pub own_switch : Cluster → String → Option Labels
own_switch c name = elim (get c.switches_by_name name) [ none ↦ none | some sw ↦ some sw.labels ]

-- the plan adds labels to objects that exist and have none of them
abbrev pub FitsCluster : Cluster → AutoLabelPlan → Type 0
FitsCluster c plan = Fits (own_node c) plan.nodes × Fits (own_switch c) plan.switches

module _ (c : Cluster) (tier : ℕ) (key : String) where
  abbrev IsKnown : String → Type 0
  IsKnown name = (node : NodeObject) × (get c.nodes_by_name name ≡ some node)

  lock_node-Gives :
      (locked : StringSet) (name : String)
      → Gives (λ l. IsKnown name) IsReported (lock_node c tier key locked name)
  unfolding lock_node
  lock_node-Gives locked name = elim (Option-cases (get c.nodes_by_name name)) [
    | inl e ↦ rw (e, Gives) refl
    | inr (node, e) ↦ elim (Option-cases (get node.labels key)) [
      | inl q ↦ rw (e, q, Gives) (node, e)
      | inr (value, q) ↦
          rw (e, q, Gives)
            (Gives->>= (λ a. Unit {0}) _ IsReported (parse_auto_domain_name value tier) _
              (parse_name-Ends value tier) (λ n k. (node, e)))
    ]
  ]

  lock_nodes-Gives :
      (names : List String) (locked : StringSet)
      → Gives
          (λ l. (name : String) → Member name names → IsKnown name)
          IsReported
          (fold_attempt (lock_node c tier key) locked names)
  unfolding fold_attempt
  lock_nodes-Gives [] locked = λ name m. absurd m
  lock_nodes-Gives (x ∷ xs) locked =
      Gives->>= (λ l. IsKnown x) _ IsReported (lock_node c tier key locked x) _
        (lock_node-Gives locked x)
        (λ l known.
          Gives-imp _ _ IsReported IsReported (fold_attempt (lock_node c tier key) l xs)
            (λ l' rest name m. elim m [ inl e ↦ subst IsKnown (sym e) known | inr i ↦ rest name i ])
            (λ e q. q) (lock_nodes-Gives xs l))

  lock_switch-Ends :
      (locked : StringSet) (name : String) → Ends (lock_switch c tier key locked name)
  unfolding lock_switch
  lock_switch-Ends locked name = elim (Option-cases (get c.switches_by_name name)) [
    | inl e ↦ rw (e, Gives) (if_keeps Ends (is_in c.synthetic name) tt refl)
    | inr (sw, e) ↦
        rw (e, Gives)
          (if_keeps Ends (domain_of sw == "") tt (
            Gives->>= (λ a. Unit {0}) _ IsReported (parse_auto_domain_name (domain_of sw) tier) _
              (parse_name-Ends (domain_of sw) tier) (λ n k. tt)))
  ]

  assigned_name-Ends :
      (m : MaxByTier) (locked : StringSet) → Ends (assigned_name_of c tier key m locked)
  unfolding assigned_name_of
  assigned_name-Ends m [] = tt
  assigned_name-Ends m (a ∷ []) = tt
  assigned_name-Ends m (a ∷ b ∷ locked) = refl

  claim_name-Ends :
      (owners : Map String String) (name internal_name : String)
      → Ends (claim_name c tier key owners name internal_name)
  unfolding claim_name
  claim_name-Ends owners name internal_name = elim (Option-cases (get owners name)) [
    | inl e ↦ rw (e, Gives) tt
    | inr (existing, e) ↦ rw (e, Gives) (if_keeps Ends (existing == _) tt refl)
  ]

  plan_node-FitsCluster :
      (assigned : String) (plan : AutoLabelPlan) (name : String)
      → IsKnown name
      → FitsCluster c plan
      → Gives (FitsCluster c) IsReported (plan_node c tier key assigned plan name)
  unfolding plan_node add_node
  plan_node-FitsCluster assigned plan name (node, e) fits =
      let own : own_node c name ≡ some node.labels = rw (e, own_node) refl in
      let labels : node_labels c name ≡ node.labels = rw (e, node_labels) refl in
      elim (Option-cases (get (node_labels c name) key)) [
        | inl n ↦
            let free : get_or node.labels key "" ≡ "" =
              ap (value_or "") (subst (λ l. get l key ≡ none) labels n) in
            rw (n, Gives)
              (Gives->>= (Fits (own_node c)) _ IsReported
                (add_desired conflicting_node_values plan.nodes name key assigned) _
                (add_desired-Fits (own_node c) conflicting_node_values plan.nodes name key assigned
                  node.labels refl own free fits.0)
                (λ nodes k. (k, fits.1)))
        | inr (current, n) ↦
            rw (n, Gives)
              (if_keeps (Gives (FitsCluster c) IsReported) (current == assigned) fits refl)
      ]

  plan_switch-FitsCluster :
      (assigned : String) (plan : AutoLabelPlan) (name : String)
      → FitsCluster c plan
      → Gives (FitsCluster c) IsReported (plan_switch c tier key assigned plan name)
  unfolding plan_switch add_switch
  plan_switch-FitsCluster assigned plan name fits =
      elim (Option-cases (get c.switches_by_name name)) [
        | inl e ↦
            rw (e, Gives)
              (if_keeps (Gives (FitsCluster c) IsReported) (is_in c.synthetic name) fits refl)
        | inr (sw, e) ↦
            let own : own_switch c name ≡ some sw.labels = rw (e, own_switch) refl in
            elim (Bool-cases (domain_of sw == "")) [
              | inl b ↦
                  rw (e, b, Gives)
                    (Gives->>= (Fits (own_switch c)) _ IsReported
                      (add_desired conflicting_switch_values plan.switches name
                        topology_domain_label assigned)
                      _
                      (add_desired-Fits (own_switch c) conflicting_switch_values plan.switches name
                        topology_domain_label assigned sw.labels refl own
                        ((==_iff (domain_of sw) "").0 b) fits.1)
                      (λ switches k. (fits.0, k)))
              | inr b ↦
                  rw (e, b, Gives)
                    (if_keeps (Gives (FitsCluster c) IsReported) (domain_of sw == assigned) fits
                      refl)
            ]
      ]

  plan_nodes-FitsCluster :
      (assigned : String) (names : List String) (plan : AutoLabelPlan)
      → ((name : String) → Member name names → IsKnown name)
      → FitsCluster c plan
      → Gives (FitsCluster c) IsReported (fold_attempt (plan_node c tier key assigned) plan names)
  unfolding fold_attempt
  plan_nodes-FitsCluster assigned [] plan known fits = fits
  plan_nodes-FitsCluster assigned (x ∷ xs) plan known fits =
      Gives->>= (FitsCluster c) (FitsCluster c) IsReported (plan_node c tier key assigned plan x) _
        (plan_node-FitsCluster assigned plan x (known x (inl refl)) fits)
        (λ p k. plan_nodes-FitsCluster assigned xs p (λ name m. known name (inr m)) k)

  pub plan_group-FitsCluster :
      (s : Assigning) (group : DiscoveredGroup)
      → FitsCluster c s.plan
      → Gives (λ (t : Assigning). FitsCluster c t.plan) IsReported (plan_group c tier key s group)
  unfolding plan_group
  plan_group-FitsCluster s group fits =
      Gives->>= (λ l. (name : String) → Member name group.nodes → IsKnown name) _ IsReported
        (fold_attempt (lock_node c tier key) [] group.nodes) _ (lock_nodes-Gives group.nodes [])
        (λ nodes_locked known.
          Gives->>= (λ l. Unit {0}) _ IsReported
            (fold_attempt (lock_switch c tier key) nodes_locked group.members) _
            (Gives-fold_attempt (λ left l. Unit {0}) IsReported (lock_switch c tier key)
              (λ x xs l k. lock_switch-Ends l x) group.members nodes_locked tt)
            (λ locked k.
              Gives->>= (λ a. Unit {0}) _ IsReported
                (assigned_name_of c tier key s.max_by_tier locked) _
                (assigned_name-Ends s.max_by_tier locked)
                (λ assigned k.
                  Gives->>= (λ a. Unit {0}) _ IsReported
                    (claim_name c tier key s.assigned_owners (assigned.0) group.internal_name) _
                    (claim_name-Ends s.assigned_owners (assigned.0) group.internal_name)
                    (λ owners k.
                      Gives->>= (FitsCluster c) _ IsReported
                        (fold_attempt (plan_node c tier key (assigned.0)) s.plan group.nodes) _
                        (plan_nodes-FitsCluster (assigned.0) group.nodes s.plan known fits)
                        (λ with_nodes k.
                          Gives->>= (FitsCluster c) _ IsReported
                            (fold_attempt (plan_switch c tier key (assigned.0)) with_nodes
                              group.members)
                            _
                            (Gives-fold_attempt (λ left. FitsCluster c) IsReported
                              (plan_switch c tier key (assigned.0))
                              (λ x xs p k. plan_switch-FitsCluster (assigned.0) p x k) group.members
                              with_nodes k)
                            (λ plan k. k))))))

module _ (render : ℕ → Option String) (c : Cluster) where
  pub plan_tier-FitsCluster :
      (match_tier : String → Option ℕ) (node_only : Bool) (groups : GroupsByTier) (s : Assigning)
      (tier : ℕ)
      → FitsCluster c s.plan
      → Gives
          (λ (t : Assigning). FitsCluster c t.plan)
          IsReported
          (plan_tier match_tier render c node_only groups s tier)
  unfolding plan_tier
  plan_tier-FitsCluster match_tier node_only groups s tier fits =
      let P = Gives (λ (t : Assigning). FitsCluster c t.plan) IsReported in
      if_keeps P (node_only && not (tier == 1)) refl (elim (Option-cases (render tier)) [
        | inl e ↦ rw (e, Gives) refl
        | inr (key, e) ↦
            rw (e, Gives)
              (Gives-fold_attempt (λ left (t : Assigning). FitsCluster c t.plan) IsReported
                (plan_group c tier key) (λ x xs t k. plan_group-FitsCluster c tier key t x k)
                (sort_by tier_group_less (get_or groups tier [])) s fits)
      ])
