-- ===== src/Status/Build.antt =====
-- `BuildTopologyStatus`: the loops over the Nodes and the Switches, and the status that they give.
pub mod Forest
use Prim.Native.Char.{nul}
use Prim.Native.String.{◌++◌ as text_append}
use unifabric.Common.{
  String, List, [], ◌∷◌, ◌++◌, Map, ℕ, ◌-◌, Bool, Option, none, some, get, get_or, put, map,
  sort_by, string_less, ltb, length, ◌==◌, if◌then◌else◌, string_eq, nat_eq, Eq,
}
use unifabric.Topology.Groups.{join}
use unifabric.Status.Types.{
  TierMatcher, LabeledResource, LabelSnapshot, TopologyDomain, TopologyNodeGroup, TopologyStatus,
  BuildResult, DomainState, Result, ok, err, ◌>>=◌, fold_result, nil_template,
}
use unifabric.Status.Labels.{labels_by_tier}
use unifabric.Status.Domains.{
  Domains, sorted_set, validate_domain_name, check_tiers, link_parents, path_of,
}
use unifabric.Status.Names.{node_group_key, assign_node_group_names}

abbrev pub topology_domain_label : String
topology_domain_label = "unifabric.io/domain"

abbrev pub Groups : Type 0
Groups = Map String TopologyNodeGroup

-- `nodeGroups[groupKey]`, made where it is missing, with one more node
unfoldable pub add_to_group : Groups → List String → String → Groups
add_to_group groups path node =
    let key = node_group_key path in
    elim (get groups key) [
      | none ↦ put groups key (record { name = ""; switch_domain_path = path; nodes = node ∷ [] })
      | some group ↦ put groups key (record group { nodes = group.nodes ++ node ∷ [] })
    ]

abbrev pub by_name : LabeledResource → LabeledResource → Bool
by_name a b = string_less a.name b.name

abbrev pub domain_less : TopologyDomain → TopologyDomain → Bool
domain_less a b = if a.tier == b.tier then string_less a.name b.name else ltb b.tier a.tier

abbrev pub group_less : TopologyNodeGroup → TopologyNodeGroup → Bool
group_less a b =
    let separator = String.◌∷◌ nul String.[] in
    let left = join separator a.switch_domain_path in
    let right = join separator b.switch_domain_path in
    if left == right
    then string_less (join separator a.nodes) (join separator b.nodes)
    else string_less left right

abbrev pub first_or : String → List String → String
first_or other [] = other
first_or other (x ∷ xs) = x

-- the parent and the members of a domain, from its sets
unfoldable pub finish_domain : DomainState → TopologyDomain
finish_domain state =
    let parent = first_or state.domain.parent (sorted_set state.parents) in
    record state.domain {
      parent = if length state.parents == 1 then parent else state.domain.parent;
      switch_member = sorted_set state.members;
    }

unfoldable pub finish_domains : Domains → List TopologyDomain
unfolding finish_domain
finish_domains domains = sort_by domain_less (map (λ e. finish_domain e.1) domains)

unfoldable pub finish_groups : Groups → List TopologyNodeGroup
finish_groups groups =
    sort_by group_less (map (λ e. record e.1 { nodes = sort_by string_less e.1.nodes }) groups)

-- `is_valid_label_value` is the test of the validation library; `quote` is the verb `%q`.
module _ (is_valid_label_value : String → Bool) (quote : String → String) where
  -- the body of the loop over the Nodes
  unfoldable pub add_labeled_node :
      TierMatcher → Domains × Groups → LabeledResource → Result (Domains × Groups)
  unfolding add_to_group
  add_labeled_node match_tier (domains, groups) node =
      labels_by_tier match_tier node.labels >>= λ values.
      if length values == 0
      then ok (domains, groups)
      else (check_tiers is_valid_label_value values domains >>= λ checked.
          link_parents values (length values - 1) 1 checked >>= λ linked.
          ok (linked, add_to_group groups (path_of values (length values)) node.name))

  unfoldable pub pending_text : LabeledResource → String → String
  pending_text switch value = text_append "Switch " (
      text_append (quote switch.name)
        (text_append " domain " (text_append (quote value) " has no matching Node domain")))

  -- the body of the loop over the Switches
  unfoldable pub add_member :
      List String × Domains → LabeledResource → Result (List String × Domains)
  unfolding pending_text
  add_member (pending, domains) switch =
      let value = get_or switch.labels topology_domain_label "" in
      if value == ""
      then ok (pending, domains)
      else (validate_domain_name is_valid_label_value value >>= λ _. elim (get domains value) [
        | none ↦ ok (pending ++ pending_text switch value ∷ [], domains)
        | some state ↦ ok (
          pending,
          put domains value (record state { members = put state.members switch.name tt }),
        )
      ])

  unfoldable pub build_topology_status :
      Option TierMatcher → LabelSnapshot → List TopologyNodeGroup → Result BuildResult
  unfolding add_labeled_node add_member
  build_topology_status none snapshot previous = err nil_template
  build_topology_status (some match_tier) snapshot previous =
      fold_result (add_labeled_node match_tier) ([], []) (sort_by by_name snapshot.nodes)
      >>= λ (domains, groups).
          fold_result add_member ([], domains) (sort_by by_name snapshot.switches)
          >>= λ (pending, filled). ok (record {
            status = record {
              domains = finish_domains filled;
              nodes = assign_node_group_names (finish_groups groups) previous;
            };
            pending = sort_by string_less pending;
          })
