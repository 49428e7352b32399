-- ===== src/Topology/Tiers/Start.antt =====
-- The first loop of `InferTiers`: exactly the switches with a host neighbor get tier 1 and enter the
-- queue.
use unifabric.Common.{
  String, List, [], ◌∷◌, ◌++◌, Bool, true, false, ◌&&◌, Map, ℤ, pos, get, get_or, keys, foldl, any,
  if◌then◌else◌, string_eq, ==_iff, any_intro, any_elim, ◌≡◌, refl, ap, ◌∙◌, ◌↔◌, ◌⊎◌, inl, inr,
  none, arith, Member, Member-keys_iff, elem, Bool-cases, Option-cases, Member-append, value_or,
}
use mathlib.Core.Path.{fun_ext}
use unifabric.Topology.Types.{Device, DeviceType, host, device_of, Adjacency, has_edge}
use unifabric.Topology.Graph.WellFormed.{IsAdjacency, IsRow-get_or}
use unifabric.Topology.Tiers.{is_switch, is_host, has_host_neighbor, set_tier, start_switch}
use unifabric.Topology.Tiers.Steps.{device_of-set_tier, keys-set_tier}

pub type_of-set_tier :
    (devices : Map String Device) (v x : String) (t : ℤ)
    → (device_of (set_tier devices v t) x).type ≡ (device_of devices x).type
type_of-set_tier devices v x t = ground (arith, device_of-set_tier devices v x t, ==_iff v x)

-- Only the types of the devices matter to `hasHostNeighbor`.
has_host_neighbor_same :
    (adj : Adjacency) (d e : Map String Device) (v : String)
    → ((x : String) → (device_of d x).type ≡ (device_of e x).type)
    → has_host_neighbor adj d v ≡ has_host_neighbor adj e v
unfolding has_host_neighbor
has_host_neighbor_same adj d e v h =
    ap (λ (f : String → DeviceType). any (λ n. is_host (f n)) (keys (get_or adj v []))) (fun_ext h)

-- In an adjacency as the graph builder makes it, `hasHostNeighbor` finds an edge to a host.
pub has_host_neighbor_iff :
    (adj : Adjacency) (devices : Map String Device) (v : String)
    → IsAdjacency adj
    → (has_host_neighbor adj devices v ≡ true)
      ↔ ((h : String) × (has_edge adj v h ≡ true) × ((device_of devices h).type ≡ host))
unfolding has_host_neighbor has_edge
has_host_neighbor_iff adj devices v i = (
  λ h.
      let (n, m, e) = any_elim (λ n. is_host (device_of devices n).type) (keys row) h in
      (n, present n ((Member-keys_iff row n).0 m), ground arith),
  λ (n, e, t).
      any_intro (λ n. is_host (device_of devices n).type) n (keys row)
        ((Member-keys_iff row n).1 (λ miss. cc)) (rw t refl),
)
  where
    row : Map String Bool
    row = get_or adj v []

    present : (n : String) → ¬ (get row n ≡ none) → value_or false (get row n) ≡ true
    present n ne = elim (Option-cases (get row n)) [
      | inl e ↦ absurd (ne e)
      | inr (b, e) ↦ rw e ((IsRow-get_or adj v i).all_true n b e)
    ]

-- whether the loop gives the switch tier 1
abbrev pub starts : Adjacency → Map String Device → String → Bool
starts adj devices v = is_switch (device_of devices v).type && has_host_neighbor adj devices v

module _ (adj : Adjacency) where
  abbrev pub start_all :
      Map String Device × List String → List String → Map String Device × List String
  start_all = foldl (start_switch adj)

  start_taken :
      (devices : Map String Device) (queue : List String) (n : String)
      → starts adj devices n ≡ true
      → start_switch adj (devices, queue) n ≡ (set_tier devices n (pos 1), queue ++ n ∷ [])
  unfolding start_switch
  start_taken devices queue n h = ground arith

  start_skipped :
      (devices : Map String Device) (queue : List String) (n : String)
      → starts adj devices n ≡ false
      → start_switch adj (devices, queue) n ≡ (devices, queue)
  unfolding start_switch
  start_skipped devices queue n h = ground arith

  starts-set_tier :
      (devices : Map String Device) (v x : String) (t : ℤ)
      → starts adj (set_tier devices v t) x ≡ starts adj devices x
  starts-set_tier devices v x t = cc (
    type_of-set_tier devices v x t,
    has_host_neighbor_same adj (set_tier devices v t) devices x
        (λ y. type_of-set_tier devices v y t),
  )

  pub device_of-starts :
      (devices : Map String Device) (queue ns : List String) (x : String)
      → device_of (start_all (devices, queue) ns).0 x ≡ (
          if elem x ns && starts adj devices x
          then record (device_of devices x) { tier = pos 1 }
          else device_of devices x)
  unfolding elem
  device_of-starts devices queue [] x = refl
  device_of-starts devices queue (n ∷ ns) x = elim (Bool-cases (starts adj devices n)) [
    | inl f ↦ ground (
      arith,
      ap (λ p. start_all p ns) (start_taken devices queue n f),
      device_of-starts (set_tier devices n (pos 1)) (queue ++ n ∷ []) ns x,
      device_of-set_tier devices n x (pos 1),
      starts-set_tier devices n x (pos 1),
      ==_iff n x,
    )
    | inr f ↦ ground (
      arith,
      ap (λ p. start_all p ns) (start_skipped devices queue n f),
      device_of-starts devices queue ns x,
      ==_iff n x,
    )
  ]

  pub Member-starts :
      (devices : Map String Device) (queue ns : List String) (x : String)
      → Member x (start_all (devices, queue) ns).1
        ↔ (Member x queue ⊎ (elem x ns && starts adj devices x) ≡ true)
  unfolding elem
  Member-starts devices queue [] x = ground arith
  Member-starts devices queue (n ∷ ns) x = elim (Bool-cases (starts adj devices n)) [
    | inl f ↦ ground (
      arith,
      ap (λ p. start_all p ns) (start_taken devices queue n f),
      Member-starts (set_tier devices n (pos 1)) (queue ++ n ∷ []) ns x,
      starts-set_tier devices n x (pos 1),
      Member-append x queue (n ∷ []),
      ==_iff n x,
    )
    | inr f ↦ ground (
      arith,
      ap (λ p. start_all p ns) (start_skipped devices queue n f),
      Member-starts devices queue ns x,
      ==_iff n x,
    )
  ]

  pub keys-starts :
      (devices : Map String Device) (queue ns : List String)
      → keys (start_all (devices, queue) ns).0 ≡ keys devices
  keys-starts devices queue [] = refl
  keys-starts devices queue (n ∷ ns) = elim (Bool-cases (starts adj devices n)) [
    | inl f ↦
        ap (λ p. keys (start_all p ns).0) (start_taken devices queue n f)
        ∙ keys-starts (set_tier devices n (pos 1)) (queue ++ n ∷ []) ns
        ∙ keys-set_tier devices n (pos 1) (ground arith)
    | inr f ↦
        ap (λ p. keys (start_all p ns).0) (start_skipped devices queue n f)
        ∙ keys-starts devices queue ns
  ]
