-- ===== src/Status/Build/Forest.antt =====
-- The status build does not panic, and the domains of its status form a forest.
use unifabric.Common.{
  String, Bool, List, [], ◌∷◌, ◌+◌, ◌-◌, Option, none, some, get, get_or, put, keys, length, Member,
  Option-cases, ==_cases, sort_by, string_eq, nat_eq, ◌≡◌, ◌≢◌, ◌⊎◌, refl, sym, ap, ◌∙◌, arith, inl,
  inr, Member-sort_by, Member-map, Member-map_inv, get_of_entry, entry_of_get,
}
use unifabric.Status.Types.{
  TierMatcher, LabeledResource, LabelSnapshot, TopologyDomain, TopologyNodeGroup, DomainState, Safe,
  Safe->>=, Safe-fold_result, Outcome-imp, nil_dereference,
}
use unifabric.Status.Labels.{labels_by_tier}
use unifabric.Status.Labels.Exact.{labels_by_tier_exact}
use unifabric.Status.Domains.{Domains, sorted_set}
use unifabric.Status.Domains.Tree.{
  length-sorted_set, Member-sorted_set, Tree, Tree-empty, Tree-put, Keeps-put,
}
use unifabric.Status.Domains.Loops.{
  HasPath, Safe-validate_domain_name, Safe-check_tiers, Safe-link_parents,
}
use unifabric.Status.Build.{
  Groups, by_name, domain_less, first_or, finish_domain, finish_domains, topology_domain_label,
  add_labeled_node, add_member, build_topology_status,
}

-- no domain has an empty name, two domains have different names, and a parent is a domain of the next tier
pub record IsForest (domains : List TopologyDomain) : Type 0 where
  pub nonempty : (d : TopologyDomain) → Member d domains → d.name ≢ ""
  pub unique :
      (d e : TopologyDomain) → Member d domains → Member e domains → d.name ≡ e.name → d ≡ e
  pub parents :
      (d : TopologyDomain)
      → Member d domains
      → (d.parent ≡ "")
        ⊎ ((e : TopologyDomain) × Member e domains × (e.name ≡ d.parent) × (e.tier ≡ d.tier + 1))

first_of_one : (xs : List String) → length xs ≡ 1 → (d : String) → Member (first_or d xs) xs
first_of_one [] h d = absurd (omega arith)
first_of_one (x ∷ xs) h d = inl refl

parent_of_finish :
    (s : DomainState)
    → s.domain.parent ≡ ""
    → ((finish_domain s).parent ≡ "") ⊎ Member ((finish_domain s).parent) (keys s.parents)
unfolding finish_domain
parent_of_finish s h = elim (==_cases (length s.parents) 1) [
  | inl (e, b) ↦ rw b (
      inr (
        Member-sorted_set _ s.parents
          (first_of_one (sorted_set s.parents) (length-sorted_set s.parents ∙ e) s.domain.parent)))
  | inr (e, b) ↦ rw b (inl h)
]

module _ (domains : Domains) (tree : Tree domains) where
  entry_of :
      (d : TopologyDomain)
      → Member d (finish_domains domains)
      → (s : DomainState) × (d ≡ finish_domain s) × (get domains d.name ≡ some s)
  unfolding finish_domains finish_domain
  entry_of d m =
      let (e, me, p) =
        Member-map_inv (λ e. finish_domain e.1) d domains ((Member-sort_by domain_less d _).0 m) in
      let found = get_of_entry domains e.0 e.1 tree.distinct me in
      let (named, _, _, _) = tree.named e.0 e.1 found in
      (e.1, p, ap (get domains) (ap (λ x. x.name) p ∙ named) ∙ found)

  Member-finish_domains :
      (name : String) (s : DomainState)
      → get domains name ≡ some s
      → Member (finish_domain s) (finish_domains domains)
  unfolding finish_domains
  Member-finish_domains name s e =
      (Member-sort_by domain_less (finish_domain s) _).1
        (Member-map (λ e. finish_domain e.1) (name, s) domains (entry_of_get domains name s e))

  IsForest-finish_domains : IsForest (finish_domains domains)
  unfolding finish_domain
  IsForest-finish_domains = record {
    nonempty = λ d m.
        let (s, e, found) = entry_of d m in (let (_, ne, _, _) = tree.named d.name s found in ne);
    unique = λ d e md me p.
        let (s, es, fs) = entry_of d md in
        let (t, et, ft) = entry_of e me in
        let same : s ≡ t = ground (arith, sym fs ∙ ap (get domains) p ∙ ft) in
        es ∙ ap finish_domain same ∙ sym et;
    parents = λ d m.
        let (s, e, found) = entry_of d m in
        let (_, _, top, _) = tree.named d.name s found in
        let tier : d.tier ≡ s.domain.tier = ap (λ x. x.tier) e in
        let parent : d.parent ≡ (finish_domain s).parent = ap (λ x. x.parent) e in
        elim (parent_of_finish s top) [
          | inl none_there ↦ inl (parent ∙ none_there)
          | inr p ↦
              let (t, found_t, above) = tree.parents d.name (finish_domain s).parent s found p in
              let (named_t, _, _, _) = tree.named (finish_domain s).parent t found_t in
              inr (
                finish_domain t,
                Member-finish_domains _ t found_t,
                named_t ∙ sym parent,
                above ∙ ap (λ k. k + 1) (sym tier),
              )
        ];
  }

module _ (is_valid_label_value : String → Bool) (quote : String → String) where
  module _ (match_tier : TierMatcher) where
    Safe-add_labeled_node :
        (node : LabeledResource) (s : Domains × Groups)
        → Tree s.0
        → Safe (λ t. Tree t.0) (add_labeled_node is_valid_label_value quote match_tier s node)
    unfolding add_labeled_node
    Safe-add_labeled_node node (domains, groups) tree =
        Safe->>= (λ _. Unit {0}) (λ t. Tree t.0) (labels_by_tier match_tier node.labels) _
          (Outcome-imp _ (λ _. Unit {0}) _ (λ e. e ≢ nil_dereference) (λ _ _. tt)
            (λ e h p. cc (h.0, p)) (labels_by_tier match_tier node.labels)
            (labels_by_tier_exact match_tier node.labels))
          (λ values _. elim (==_cases (length values) 0) [
            | inl (e, b) ↦ rw b tree
            | inr (e, b) ↦ rw b (
                Safe->>= (HasPath values (length values)) (λ t. Tree t.0) _ _
                  (Safe-check_tiers is_valid_label_value values domains tree)
                  (λ checked h.
                    Safe->>= (HasPath values (length values)) (λ t. Tree t.0) _ _
                      (Safe-link_parents values (length values) (length values - 1) 1 checked
                        (omega arith) (ground arith) h)
                      (λ linked k. k.tree)))
          ])

  Safe-add_member :
      (switch : LabeledResource) (s : List String × Domains)
      → Tree s.1
      → Safe (λ t. Tree t.1) (add_member is_valid_label_value quote s switch)
  unfolding add_member
  Safe-add_member switch (pending, domains) tree =
      let value = get_or switch.labels topology_domain_label "" in
      elim (==_cases value "") [
        | inl (e, b) ↦ rw b tree
        | inr (e, b) ↦ rw b (
            Safe->>= (λ _. value ≢ "") (λ t. Tree t.1) _ _
              (Safe-validate_domain_name is_valid_label_value value)
              (λ _ _. elim (Option-cases (get domains value)) [
                | inl h ↦ rw h tree
                | inr (state, h) ↦ rw h (
                    let filled = record state { members = put state.members switch.name tt } in
                    let keeps = Keeps-put domains value filled (λ r q. ground (arith, h, q)) in
                    Tree-put domains value filled tree keeps (tree.named value state h)
                      (λ p m. tree.parents value p state h m))
              ]))
      ]

  -- The status build does not panic at the map lookups that it dereferences, and where it returns a
  -- status: no domain has an empty name, no two domains have one name, and each domain has no parent
  -- or the parent is a domain of the status, of the next tier.
  pub build_topology_status-IsForest :
      (template : Option TierMatcher) (snapshot : LabelSnapshot) (previous : List TopologyNodeGroup)
      → Safe
          (λ r. IsForest r.status.domains)
          (build_topology_status is_valid_label_value quote template snapshot previous)
  unfolding build_topology_status
  build_topology_status-IsForest none snapshot previous = λ h. cc
  build_topology_status-IsForest (some match_tier) snapshot previous =
      Safe->>= (λ t. Tree t.0) (λ r. IsForest r.status.domains) _ _
        (Safe-fold_result (λ _ t. Tree t.0) (add_labeled_node is_valid_label_value quote match_tier)
          (λ node _ s tree. Safe-add_labeled_node match_tier node s tree)
          (sort_by by_name snapshot.nodes) ([], []) Tree-empty)
        (λ (domains, groups) tree.
          Safe->>= (λ t. Tree t.1) (λ r. IsForest r.status.domains) _ _
            (Safe-fold_result (λ _ t. Tree t.1) (add_member is_valid_label_value quote)
              (λ switch _ s tree. Safe-add_member switch s tree) (sort_by by_name snapshot.switches)
              ([], domains) tree)
            (λ (pending, filled) tree. IsForest-finish_domains filled tree))
