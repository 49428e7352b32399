-- ===== src/Topology/Tiers/Exact.antt =====
-- `InferTiers` returns, and the tiers are the distances.
use unifabric.Common.{
  String, List, [], true, ◌&&◌, Map, pos, negsuc, keys, if◌then◌else◌, length, ◌+◌, ◌≤◌, ◌<◌,
  string_eq, ℕ, suc, zero, drain_rule, sort_by, string_less, length-append, length-sort_by,
  Member-sort_by, Member-keys_iff, elem, elem_iff, ◌≡◌, refl, ◌↔◌, ◌⊎◌, inl, inr, arith, Member,
  Bool-cases,
}
use unifabric.Topology.Types.{Device, device_of, TopologyGraph}
use unifabric.Topology.Graph.WellFormed.{IsGraph}
use unifabric.Topology.Tiers.{expand, start_switches, search_tiers, infer_tiers}
use unifabric.Topology.Tiers.Steps.{fresh_count, fresh_count-le}
use unifabric.Topology.Tiers.Start.{
  starts, device_of-starts, Member-starts, keys-starts, has_host_neighbor_iff,
}
use unifabric.Topology.Tiers.Round.{level, fresh_count-expand}
use unifabric.Topology.Tiers.Search.{
  IsSwitch, Near, first, hop, Inv, Inv-expand, head_tier, Up-append,
}

-- No switch has a tier yet, as after `BuildTopologyGraph`.
abbrev pub IsUntiered : TopologyGraph → Type 0
IsUntiered g = (x : String) → IsSwitch g.adj g.devices x → (device_of g.devices x).tier ≡ negsuc 0

module _ (g : TopologyGraph) (graph : IsGraph g) (untiered : IsUntiered g) where
  abbrev d₀ : Map String Device
  d₀ = g.devices

  abbrev started : Map String Device
  started = (start_switches g).0

  abbrev queue : List String
  queue = (start_switches g).1

  declared : (x : String) → IsSwitch g.adj d₀ x → elem x (keys d₀) ≡ true
  declared x sw = (elem_iff x (keys d₀)).1 ((Member-keys_iff d₀ x).1 (λ e. cc (rw e at sw)))

  device_started :
      (x : String)
      → device_of started x ≡ (
          if elem x (keys d₀) && starts g.adj d₀ x
          then record (device_of d₀ x) { tier = pos 1 }
          else device_of d₀ x)
  unfolding start_switches
  device_started x = device_of-starts g.adj d₀ [] (keys d₀) x

  queue_iff : (x : String) → Member x queue ↔ ((elem x (keys d₀) && starts g.adj d₀ x) ≡ true)
  unfolding start_switches
  queue_iff x = ground (arith, Member-starts g.adj d₀ [] (keys d₀) x)

  starts_iff : (x : String) → (starts g.adj d₀ x ≡ true) ↔ Near g.adj d₀ zero x
  starts_iff x = (
    λ s.
        let (h, e, t) = (has_host_neighbor_iff g.adj d₀ x graph.adjacency).0 (ground arith) in
        first h (ground arith) e t,
    λ n. from n,
  )
    where
      from : Near g.adj d₀ zero x → starts g.adj d₀ x ≡ true
      from (first h sw e t) =
          rw (sw, (has_host_neighbor_iff g.adj d₀ x graph.adjacency).1 (h, e, t)) refl

  -- After the first loop a switch is in the queue at tier 1, or has no tier.
  started_cases :
      (x : String)
      → IsSwitch g.adj d₀ x
      → Member x queue × ((device_of started x).tier ≡ pos 1) × Near g.adj d₀ zero x
        ⊎ ((device_of started x).tier ≡ negsuc 0) × (¬ Near g.adj d₀ zero x)
  started_cases x sw = elim (Bool-cases (starts g.adj d₀ x)) [
    | inl s ↦ inl (
      ground (arith, queue_iff x, declared x),
      ground (arith, device_started x, declared x),
      (starts_iff x).0 s,
    )
    | inr s ↦ inr (ground (arith, device_started x, untiered x), λ n. cc ((starts_iff x).1 n))
  ]

  queued-Near : (x : String) → Member x queue → IsSwitch g.adj d₀ x × Near g.adj d₀ zero x
  queued-Near x m = (ground (arith, queue_iff x), (starts_iff x).0 (ground (arith, queue_iff x)))

  Near-IsSwitch : {j : ℕ} {x : String} → Near g.adj d₀ j x → IsSwitch g.adj d₀ x
  Near-IsSwitch (first h sw e t) = sw
  Near-IsSwitch (hop n e sw) = sw

  keys-started : keys started ≡ keys d₀
  unfolding start_switches
  keys-started = keys-starts g.adj d₀ [] (keys d₀)

  Inv-start : Inv g.adj d₀ (sort_by string_less queue) started
  Inv-start = record {
    keys_same = keys-started;
    type_same = λ x. ground (arith, device_started x);
    name_same = λ x. ground (arith, device_started x);
    others_same = λ x n. ground (arith, device_started x);
    tiers =
        λ x sw. elim (started_cases x sw) [ inl (m, t, n) ↦ inr (zero, t, n) | inr (t, n) ↦ inl t ];
    queued = λ q m. let (sw, n) = queued-Near q (unsorted q m) in (sw, one q sw n);
    order =
        Up-append (level started) (level started) 1 [] (sort_by string_less queue) (λ q m. absurd m)
          (λ r m. let (sw, n) = queued-Near r (unsorted r m) in ground (arith, started_cases r sw))
          tt;
    bound = λ q x m sw. ground (arith, started_cases x sw);
    closed = λ a b sw p e bw. elim (started_cases a sw) [
      | inl (m, t, n) ↦ inl ((Member-sort_by string_less a queue).1 m)
      | inr (t, n) ↦ ground arith
    ];
    seeds = λ x n. ground (arith, started_cases x (Near-IsSwitch n));
  }
    where
      unsorted : (x : String) → Member x (sort_by string_less queue) → Member x queue
      unsorted x = (Member-sort_by string_less x queue).0

      one : (x : String) → IsSwitch g.adj d₀ x → Near g.adj d₀ zero x → 0 < level started x
      one x sw n = ground (arith, started_cases x sw)

  abbrev measure : List String → Map String Device → ℕ
  measure q d = length q + fresh_count d

  search_result : ((search_tiers g).0 ≡ []) × Inv g.adj d₀ [] (search_tiers g).1
  unfolding search_tiers
  search_result =
      drain_rule (expand g.adj) (Inv g.adj d₀) measure
        (λ u qs d i. (
          Inv-expand g.adj d₀ u qs d i,
          omega (
            arith,
            length-append qs (expand g.adj u d).1,
            fresh_count-expand g.adj u d (suc (head_tier g.adj d₀ u qs d i).0)
                (head_tier g.adj d₀ u qs d i).1,
          ),
        ))
        (length queue + length started) (sort_by string_less queue) started
        (omega (arith, fresh_count-le started, length-sort_by string_less queue)) Inv-start

  Near-level :
      {j : ℕ} {x : String}
      → Near g.adj d₀ j x
      → (0 < level (search_tiers g).1 x) × (level (search_tiers g).1 x ≤ suc j)
  Near-level (first {v} h sw e t) = omega (arith, search_result.1.seeds v (first h sw e t))
  Near-level (hop {k} {u} {v} n e sw) =
      let (positive, bound) = Near-level n in
      elim (search_result.1.closed u v (Near-IsSwitch n) positive e sw) [
        | inl m ↦ absurd m
        | inr r ↦ omega arith
      ]

  exact_of_tier :
      (v : String)
      → ((device_of (search_tiers g).1 v).tier ≡ negsuc 0)
        ⊎ ((k : ℕ) × ((device_of (search_tiers g).1 v).tier ≡ pos (suc k)) × Near g.adj d₀ k v)
      → ((device_of (search_tiers g).1 v).tier ≡ negsuc 0) × ((j : ℕ) → ¬ Near g.adj d₀ j v)
        ⊎ ((k : ℕ) × ((device_of (search_tiers g).1 v).tier ≡ pos (suc k))
            × Near g.adj d₀ k v
            × ((j : ℕ) → Near g.adj d₀ j v → k ≤ j))
  exact_of_tier v (inl t) = inl (t, λ j n. ground (arith, Near-level n))
  exact_of_tier v (inr (k, t, n)) = inr (k, t, n, λ j m. ground (arith, Near-level m))

-- In a well-formed graph with no tier set, `InferTiers` gives a switch the tier k + 1 where k is the
-- least number of switch-to-switch hops from a switch with a host neighbor, and leaves it at -1
-- exactly where no such switch can be reached.
pub infer_tiers_exact :
    (g : TopologyGraph) (v : String)
    → IsGraph g
    → IsUntiered g
    → IsSwitch g.adj g.devices v
    → ((device_of (infer_tiers g).devices v).tier ≡ negsuc 0)
        × ((j : ℕ) → ¬ Near g.adj g.devices j v)
      ⊎ ((k : ℕ) × ((device_of (infer_tiers g).devices v).tier ≡ pos (suc k))
          × Near g.adj g.devices k v
          × ((j : ℕ) → Near g.adj g.devices j v → k ≤ j))
unfolding infer_tiers
infer_tiers_exact g v graph untiered sw =
    exact_of_tier g graph untiered v ((search_result g graph untiered).1.tiers v sw)

-- The search of `InferTiers` ends on an empty queue, within one round for each name in the first
-- queue and one for each device.
pub search_tiers_ends : (g : TopologyGraph) → IsGraph g → IsUntiered g → (search_tiers g).0 ≡ []
search_tiers_ends g graph untiered = (search_result g graph untiered).0

-- What `InferTiers` leaves alone.
pub record KeepsDevices (g h : TopologyGraph) : Type 0 where
  pub adj : h.adj ≡ g.adj
  pub keys_same : keys h.devices ≡ keys g.devices
  pub names : (x : String) → (device_of h.devices x).name ≡ (device_of g.devices x).name
  pub types : (x : String) → (device_of h.devices x).type ≡ (device_of g.devices x).type
  pub others :
      (x : String) → ¬ IsSwitch g.adj g.devices x → device_of h.devices x ≡ device_of g.devices x

-- In a well-formed graph with no tier set, `InferTiers` changes no edge, no name and no type, adds
-- and drops no device, and changes nothing of a device that is not a switch.
pub infer_tiers-KeepsDevices :
    (g : TopologyGraph) → IsGraph g → IsUntiered g → KeepsDevices g (infer_tiers g)
unfolding infer_tiers
infer_tiers-KeepsDevices g graph untiered =
    let i = (search_result g graph untiered).1 in
    record {
      adj = refl;
      keys_same = i.keys_same;
      names = i.name_same;
      types = i.type_same;
      others = i.others_same;
    }
