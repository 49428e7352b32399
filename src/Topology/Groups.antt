-- ===== src/Topology/Groups.antt =====
-- `BuildZoneDeviceView`, `BuildTierGroups` and the names of groups: the devices of one tier of a zone
-- are grouped where they share a group of the tier below.
use unifabric.Common.{
  String, List, [], ◌∷◌, ◌++◌, Bool, Map, none, some, ℤ, pos, ◌+ℤ◌, ◌-ℤ◌, ltb_ℤ, pos_part, get,
  get_or, put, keys, map, foldl, sort_by, string_less, dedupe_sorted, explore, is_marked, value_or,
  ◌==◌, ◌||◌, if◌then◌else◌, string_eq, int_eq,
}
use Prim.Native.String.{◌++◌ as text_append, len, slice}
use unifabric.Topology.Types.{
  Device, device_of, TopologyGraph, TopologyGroup, GroupNameMode, concat, hash, DiscoverOptions,
}
use unifabric.Topology.Zones.{neighbors_of}

pub record ZoneDeviceView : Type 0 where
  pub devices : Map String Device
  pub devices_by_tier : Map ℤ (Map String Device)

pub add_to_view : TopologyGraph → ZoneDeviceView → String → ZoneDeviceView
add_to_view g zone name =
    let device = device_of g.devices name in
    record {
      devices = put zone.devices name device;
      devices_by_tier =
          put zone.devices_by_tier device.tier
            (put (get_or zone.devices_by_tier device.tier []) name device);
    }

pub build_zone_device_view : TopologyGraph → List String → ZoneDeviceView
build_zone_device_view g device_names =
    foldl (add_to_view g) (record { devices = []; devices_by_tier = [] }) device_names

-- `sortedDeviceNames` and `sortedNamesFromMap`
pub sorted_names : {V : Type 0} → Map String V → List String
sorted_names m = sort_by string_less (keys m)

pub group_name_of_device : String → Map String String → String
group_name_of_device device_name device_to_group =
    value_or device_name (get device_to_group device_name)

-- `result[key] = append(result[key], value)`
pub append_at : Map String (List String) → String → String → Map String (List String)
append_at result key value = put result key (get_or result key [] ++ value ∷ [])

-- the maps that the search of one group fills
pub record GroupScan : Type 0 where
  pub members : Map String Device
  pub lower : Map String Device
  pub upper : Map String Device

module _ (g : TopologyGraph) (zone : ZoneDeviceView) (tier : ℤ)
    (lower_device_to_group : Map String String) where
  -- a neighbor in the tier below, inside the zone
  pub is_lower : String → Bool
  is_lower neighbor = elim (get zone.devices neighbor) [
    | none ↦ Bool.false
    | some d ↦ d.tier == tier -ℤ pos 1
  ]

  -- the body of the loop over a device's neighbors
  pub add_lower_group : String → Map String (List String) → String → Map String (List String)
  unfolding is_lower append_at
  add_lower_group device_name result neighbor =
      if is_lower neighbor
      then append_at result (group_name_of_device neighbor lower_device_to_group) device_name
      else result

  pub add_device_lower_groups : Map String (List String) → String → Map String (List String)
  add_device_lower_groups result device_name =
      foldl (add_lower_group device_name) result (neighbors_of g.adj device_name)

  -- For each group of the tier below, the devices of this tier next to it, sorted and each once.
  pub build_lower_group_to_tier_devices : Map String (List String)
  build_lower_group_to_tier_devices = elim (get zone.devices_by_tier tier) [
    | none ↦ []
    | some devices_in_tier ↦
        map (λ e. (e.0, dedupe_sorted (sort_by string_less e.1)))
          (foldl add_device_lower_groups [] (sorted_names devices_in_tier))
  ]

  -- The names that a device appends to the queue, but for the test of `processed`: for each neighbor
  -- in the tier below, the devices of this tier next to the neighbor's group.
  pub related_devices : Map String (List String) → List String → List String
  related_devices lower_groups [] = []
  related_devices lower_groups (neighbor ∷ neighbors) =
      let rest = related_devices lower_groups neighbors in
      if is_lower neighbor
      then get_or lower_groups (group_name_of_device neighbor lower_device_to_group) [] ++ rest
      else rest

  -- what the loop over the neighbors writes
  pub scan_neighbor : GroupScan → String → GroupScan
  scan_neighbor s neighbor = elim (get zone.devices neighbor) [
    | none ↦ s
    | some d ↦ record s {
      lower = if d.tier == tier -ℤ pos 1 then put s.lower neighbor d else s.lower;
      upper = if d.tier == tier +ℤ pos 1 then put s.upper neighbor d else s.upper;
    }
  ]

  pub scan_device : String → GroupScan → GroupScan
  unfolding scan_neighbor
  scan_device current s =
      foldl scan_neighbor
        (record s { members = put s.members current (device_of zone.devices current) })
        (neighbors_of g.adj current)

abbrev pub empty_scan : GroupScan
empty_scan = record { members = []; lower = []; upper = [] }

-- strings.Join
unfoldable pub join : String → List String → String
join sep [] = ""
join sep (x ∷ []) = x
join sep (x ∷ y ∷ ys) = text_append x (text_append sep (join sep (y ∷ ys)))

-- `sha1_hex` is the hexadecimal SHA-1 digest, of Go's library.
module _ (sha1_hex : String → String) where
  pub short_sha : String → ℤ → String
  short_sha s length =
      let full = sha1_hex s in
      if ltb_ℤ length (pos 1) || ltb_ℤ (pos (len full)) length
      then slice full 0 7
      else slice full 0 (pos_part length)

  pub group_name_of_base : GroupNameMode → ℤ → String → String
  unfolding short_sha
  group_name_of_base hash length base = short_sha base length
  group_name_of_base concat length base = text_append base "-group"

  -- the name for the sorted members
  pub name_sorted : DiscoverOptions → List String → String
  unfolding group_name_of_base
  name_sorted opts (name ∷ []) = name
  name_sorted opts names = group_name_of_base opts.group_name_mode opts.hash_length (join "-" names)

  pub generate_group_name : List String → DiscoverOptions → String
  unfolding name_sorted
  generate_group_name member_names opts = name_sorted opts (sort_by string_less member_names)

  module _ (g : TopologyGraph) (zone : ZoneDeviceView) (tier : ℤ) (opts : DiscoverOptions)
      (lower_device_to_group : Map String String) where
    abbrev pub lower_groups : Map String (List String)
    lower_groups = build_lower_group_to_tier_devices g zone tier lower_device_to_group

    -- what `current` appends to the queue
    pub group_targets : String → List String
    group_targets current =
        related_devices g zone tier lower_device_to_group lower_groups (neighbors_of g.adj current)

    pub group_of_scan : GroupScan → TopologyGroup
    group_of_scan s = record {
      name = generate_group_name (sorted_names s.members) opts;
      tier = tier;
      members = sorted_names s.members;
      lower_tier_nodes = sorted_names s.lower;
      upper_tier_nodes = sorted_names s.upper;
    }

    -- the body of the loop over the names of the tier
    pub collect_group :
        Map String Bool × List TopologyGroup → String → Map String Bool × List TopologyGroup
    collect_group (processed, groups) name =
        if is_marked processed name
        then (processed, groups)
        else let (queue, (processed', scan)) =
            explore group_targets (scan_device g zone tier lower_device_to_group) (keys g.adj) name
              processed empty_scan in
          (processed', groups ++ group_of_scan scan ∷ [])

    pub build_tier_groups : List TopologyGroup
    build_tier_groups = elim (get zone.devices_by_tier tier) [
      | none ↦ []
      | some devices_in_tier ↦ (foldl collect_group ([], []) (sorted_names devices_in_tier)).1
    ]
