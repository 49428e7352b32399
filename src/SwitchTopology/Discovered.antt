-- ===== src/SwitchTopology/Discovered.antt =====
-- `normalizeDiscoveredGroups`: the groups of a discovered topology, with the Nodes below each.
pub mod Ends
pub mod Paths
pub mod Walks
use unifabric.Common.{
  String, List, [], ◌∷◌, ◌++◌, Map, ℕ, zero, suc, ◌+◌, Bool, true, false, not, Option, none, some,
  get, get_or, put, keys, string_eq, int_eq, ◌==◌, if◌then◌else◌, foldl, length, elem, ℤ, pos,
  negsuc, sort_by, string_less,
}
use unifabric.Topology.Types.{Host, Topology, TopologyGroup}
use unifabric.SwitchTopology.Types.{
  Attempt, done, fails, ◌>>=◌, fold_attempt, multiple_parents, parent_cycle, unknown_parent,
  discontinuous_path, no_rounds_left,
}

pub record DiscoveredGroup : Type 0 where
  pub internal_name : String
  pub tier : ℕ
  pub members : List String
  pub nodes : List String
  pub lower : List String
  pub assigned_name : String

-- a set of names without order
abbrev pub StringSet : Type 0
StringSet = Map String (Unit {0})

unfoldable pub sorted_string_set : StringSet → List String
sorted_string_set set = sort_by string_less (keys set)

-- `if tier < 1 { continue }`: the tiers that are left, as numbers
abbrev pub group_tier : ℤ → Option ℕ
group_tier (pos zero) = none
group_tier (pos (suc n)) = some (suc n)
group_tier (negsuc n) = none

pub record GroupIndex : Type 0 where
  pub by_name : Map String TopologyGroup
  pub of_device : Map String String

unfoldable pub index_group_members : GroupIndex → TopologyGroup → GroupIndex
index_group_members index group = record {
  by_name = put index.by_name group.name group;
  of_device = foldl (λ m member. put m member group.name) index.of_device group.members;
}

unfoldable pub index_discovered_tier : GroupIndex → ℤ × List TopologyGroup → GroupIndex
index_discovered_tier index (tier, groups) = elim (group_tier tier) [
  | none ↦ index
  | some n ↦ foldl index_group_members index groups
]

unfoldable pub index_discovered : Topology → GroupIndex
index_discovered discovered =
    foldl index_discovered_tier (record { by_name = []; of_device = [] }) discovered.groups_by_tier

-- `nodesByGroup`, and the walk from a host up to the top. A round ends the walk, returns an error, or
-- marks one more group as seen, so one round more than there are groups is enough.
abbrev pub NodesByGroup : Type 0
NodesByGroup = Map String StringSet

-- the body of the loop up to the assignments: none where the loop breaks
unfoldable pub check_parent :
    Map String TopologyGroup → ℕ → List String → List String → Attempt (Option String)
check_parent groups expected seen [] = done none
check_parent groups expected seen (parent ∷ second ∷ rest) = fails multiple_parents
check_parent groups expected seen (parent ∷ []) =
    if elem parent seen then fails parent_cycle else elim (get groups parent) [
      | none ↦ fails unknown_parent
      | some group ↦
          if group.tier == pos expected then done (some parent) else fails discontinuous_path
    ]

abbrev pub go_on :
    NodesByGroup → (String → Attempt NodesByGroup) → Option String → Attempt NodesByGroup
go_on nodes next_round none = done nodes
go_on nodes next_round (some parent) = next_round parent

unfoldable pub walk_up :
    ℕ
    → Topology
    → Map String TopologyGroup
    → String
    → String
    → ℕ
    → List String
    → NodesByGroup
    → Attempt NodesByGroup
walk_up zero discovered groups host current expected seen nodes = fails no_rounds_left
walk_up (suc fuel) discovered groups host current expected seen nodes =
    check_parent groups expected seen (get_or discovered.parent_index current [])
    >>= go_on nodes (λ parent.
      walk_up fuel discovered groups host parent (expected + 1) (parent ∷ seen)
        (put nodes parent (put (get_or nodes parent []) host tt)))

unfoldable pub add_host_path :
    Topology → Map String TopologyGroup → NodesByGroup → Host → Attempt NodesByGroup
add_host_path discovered groups nodes host =
    walk_up (suc (length groups)) discovered groups host.name host.name 1 [] nodes

-- the groups below the devices, without the devices that are in no group
unfoldable pub lower_groups_of : Map String String → List String → StringSet
lower_groups_of of_device devices =
    foldl
      (λ set device.
        let name = get_or of_device device "" in if name == "" then set else put set name tt)
      [] devices

unfoldable pub discovered_group :
    Map String String → NodesByGroup → ℕ → TopologyGroup → DiscoveredGroup
discovered_group of_device nodes tier group = record {
  internal_name = group.name;
  tier = tier;
  members = sort_by string_less group.members;
  nodes = sorted_string_set (get_or nodes group.name []);
  lower = sort_by string_less (elim tier [
    | suc zero ↦ group.lower_tier_nodes
    | _ ↦ sorted_string_set (lower_groups_of of_device group.lower_tier_nodes)
  ]);
  assigned_name = "";
}

unfoldable pub discovered_tier :
    Map String String
    → NodesByGroup
    → List DiscoveredGroup
    → ℤ × List TopologyGroup
    → List DiscoveredGroup
discovered_tier of_device nodes result (tier, groups) = elim (group_tier tier) [
  | none ↦ result
  | some n ↦ foldl (λ r group. r ++ discovered_group of_device nodes n group ∷ []) result groups
]

unfoldable pub normalize_discovered_groups : Topology → List Host → Attempt (List DiscoveredGroup)
normalize_discovered_groups discovered hosts =
    let index = index_discovered discovered in
    fold_attempt (add_host_path discovered index.by_name) [] hosts >>= λ nodes.
    done (foldl (discovered_tier index.of_device nodes) [] discovered.groups_by_tier)
