-- ===== src/Topology/Parents.antt =====
-- `BuildParentIndexForZone` and the queries on the index.
pub mod Chain
use unifabric.Common.{
  String, List, [], ◌∷◌, Bool, true, Map, Option, none, some, ℤ, ℕ, zero, suc, pos, ◌+ℤ◌, get,
  get_or, put, keys, foldl, sort_by, ltb_ℤ, length, value_or, ◌==◌, ◌++◌, elem, if◌then◌else◌,
  string_eq, int_eq,
}
use unifabric.Topology.Types.{device_of, TopologyGraph, TopologyGroup, Topology}
use unifabric.Topology.Tiers.{sorted_bool_keys}
use unifabric.Topology.Zones.{neighbors_of}
use unifabric.Topology.Groups.{ZoneDeviceView, sorted_names}

pub sorted_tier_keys : {V : Type 0} → Map ℤ V → List ℤ
sorted_tier_keys m = sort_by ltb_ℤ (keys m)

pub index_member : ZoneDeviceView → TopologyGroup → Map String String → String → Map String String
index_member zone group m member = elim (get zone.devices member) [
  | none ↦ m
  | some d ↦ put m member group.name
]

pub index_group : ZoneDeviceView → Map String String → TopologyGroup → Map String String
unfolding index_member
index_group zone m group = foldl (index_member zone group) m group.members

pub index_tier : ZoneDeviceView → Topology → Map String String → ℤ → Map String String
unfolding index_group
index_tier zone topology m tier =
    if tier == pos 0 then m else foldl (index_group zone) m (get_or topology.groups_by_tier tier [])

pub build_device_to_group_index : ZoneDeviceView → Topology → Map String String
build_device_to_group_index zone topology =
    foldl (index_tier zone topology) [] (sorted_tier_keys topology.groups_by_tier)

module _ (g : TopologyGraph) (zone : ZoneDeviceView) (device_to_group : Map String String) where
  -- The parent that a neighbor is for a device of tier `child_tier`: in the tier above, and by its
  -- group where it has one.
  pub parent_of : ℤ → String → Option String
  parent_of child_tier neighbor = elim (get zone.devices neighbor) [
    | none ↦ none
    | some parent ↦
        if parent.tier == child_tier +ℤ pos 1
        then some (value_or parent.name (get device_to_group parent.name))
        else none
  ]

  pub add_device_parent : ℤ → Map String Bool → String → Map String Bool
  unfolding parent_of
  add_device_parent child_tier parents neighbor = elim (parent_of child_tier neighbor) [
    | none ↦ parents
    | some name ↦ put parents name true
  ]

  -- `if len(parentSet) > 0 { topology.ParentIndex[name] = sortedBoolKeys(parentSet) }`
  pub set_parents : Topology → String → Map String Bool → Topology
  set_parents topology name [] = topology
  set_parents topology name (p ∷ ps) = record topology {
    parent_index = put topology.parent_index name (sorted_bool_keys (p ∷ ps));
  }

  pub device_parents : String → Map String Bool
  unfolding add_device_parent
  device_parents child_name =
      foldl (add_device_parent (device_of zone.devices child_name).tier) []
        (neighbors_of g.adj child_name)

  pub build_device_parent_index : Topology → Topology
  build_device_parent_index topology =
      foldl (λ t child_name. set_parents t child_name (device_parents child_name)) topology
        (sorted_names zone.devices)

  pub add_group_parent : TopologyGroup → ℤ → Map String Bool → String → Map String Bool
  unfolding parent_of
  add_group_parent group member_tier parents neighbor = elim (parent_of member_tier neighbor) [
    | none ↦ parents
    | some name ↦ if name == group.name then parents else put parents name true
  ]

  -- the body of the loop over a group's members
  pub add_member_parents : TopologyGroup → Map String Bool → String → Map String Bool
  unfolding add_group_parent
  add_member_parents group parents member = elim (get zone.devices member) [
    | none ↦ parents
    | some d ↦ foldl (add_group_parent group d.tier) parents (neighbors_of g.adj member)
  ]

  pub group_parents : TopologyGroup → Map String Bool
  group_parents group = foldl (add_member_parents group) [] group.members

  pub index_tier_parents : Topology → ℤ → Topology
  index_tier_parents topology tier =
      if tier == pos 0
      then topology
      else foldl (λ t group. set_parents t group.name (group_parents group)) topology
          (get_or topology.groups_by_tier tier [])

  pub build_group_parent_index : Topology → Topology
  build_group_parent_index topology =
      foldl index_tier_parents topology (sorted_tier_keys topology.groups_by_tier)

pub build_parent_index_for_zone : TopologyGraph → ZoneDeviceView → Topology → Topology
build_parent_index_for_zone g zone topology =
    let device_to_group = build_device_to_group_index zone topology in
    build_group_parent_index g zone device_to_group
      (build_device_parent_index g zone device_to_group topology)

unfoldable pub query_parents : Topology → String → List String
query_parents t name = get_or t.parent_index name []

-- The loop of `QueryParentChain`: `seen` and the result hold the same names, and a round either ends
-- the loop or adds a name. Each name that is added has an entry of the index, or ends the loop in the
-- next round, so two rounds more than the index has entries are enough.
unfoldable pub parent_chain : ℕ → Topology → String → List String → List String
parent_chain zero t current result = result
parent_chain (suc fuel) t current result = elim (query_parents t current) [
  | [] ↦ result
  | parent ∷ _ ↦ elim (elem parent result) [
    | true ↦ result
    | Bool.false ↦ parent_chain fuel t parent (result ++ parent ∷ [])
  ]
]

unfoldable pub query_parent_chain : Topology → String → List String
query_parent_chain t name = parent_chain (suc (suc (length t.parent_index))) t name []
