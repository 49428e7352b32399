-- ===== src/Topology/Tiers/Steps.antt =====
-- What the loop bodies of `InferTiers` do to the devices and to the queue.
use unifabric.Common.{
  String, List, [], ◌∷◌, ◌++◌, Bool, true, false, ◌&&◌, Map, ℤ, pos, negsuc, ◌+ℤ◌, get, put, keys,
  value_or, foldl, filter, string_less, length, ◌+◌, ◌≤◌, ◌==◌, if◌then◌else◌, string_eq, int_eq, ℕ,
  suc, ==_iff, int_beq, ◌≡◌, ◌≢◌, refl, ap, ◌∙◌, ◌↔◌, ◌⊎◌, inl, inr, none, some, arith, Member,
  Member-filter, Member-sort_by, Member-keys_iff, get-put, elem, keys-put_present, Bool-cases,
  Member-append, length-append,
}
use unifabric.Topology.Types.{Device, switch, device_of}
use unifabric.Topology.Tiers.{is_switch, sorted_bool_keys, set_tier, visit_neighbor}

pub Member-sorted_bool_keys :
    (m : Map String Bool) (x : String)
    → Member x (sorted_bool_keys m) ↔ (value_or false (get m x) ≡ true)
unfolding sorted_bool_keys
Member-sorted_bool_keys m x = ground (
  arith,
  Member-sort_by string_less x (filter (λ name. value_or false (get m name)) (keys m)),
  Member-filter (λ name. value_or false (get m name)) x (keys m),
  Member-keys_iff m x,
)

-- a switch that has no tier yet
abbrev pub is_fresh : Device → Bool
is_fresh d = is_switch d.type && d.tier == negsuc 0

pub device_of-set_tier :
    (devices : Map String Device) (v x : String) (t : ℤ)
    → device_of (set_tier devices v t) x
      ≡ (if v == x then record (device_of devices v) { tier = t } else device_of devices x)
unfolding set_tier
device_of-set_tier devices v x t =
    ground (arith, get-put devices v x (record (device_of devices v) { tier = t }))

-- A switch is a device, so giving it a tier adds no key.
pub keys-set_tier :
    (devices : Map String Device) (v : String) (t : ℤ)
    → (device_of devices v).type ≡ switch
    → keys (set_tier devices v t) ≡ keys devices
unfolding set_tier
keys-set_tier devices v t h = keys-put_present devices v _ present
  where
    present : get devices v ≢ none
    present e = cc (rw e at h)

abbrev pub fresh_count : Map String Device → ℕ
fresh_count [] = 0
fresh_count ((k, d) ∷ m) = (if is_fresh d then 1 else 0) + fresh_count m

fresh_count-put :
    (m : Map String Device) (k : String) (d d' : Device)
    → get m k ≡ some d
    → is_fresh d ≡ true
    → is_fresh d' ≡ false
    → suc (fresh_count (put m k d')) ≡ fresh_count m
unfolding get put int_beq
fresh_count-put [] k d d' h f f' = cc
fresh_count-put ((j, e) ∷ m) k d d' h f f' = ground (arith, fresh_count-put m k d d')

fresh_count-set_tier :
    (devices : Map String Device) (v : String) (n : ℕ)
    → is_fresh (device_of devices v) ≡ true
    → suc (fresh_count (set_tier devices v (pos n))) ≡ fresh_count devices
unfolding set_tier int_beq
fresh_count-set_tier devices v n f = ground (
  arith,
  fresh_count-put devices v (device_of devices v) (record (device_of devices v) { tier = pos n }),
)

pub fresh_count-le : (m : Map String Device) → fresh_count m ≤ length m
unfolding int_beq
fresh_count-le [] = omega arith
fresh_count-le ((k, d) ∷ m) = ground (arith, fresh_count-le m)

visit_fresh :
    (current : ℤ) (devices : Map String Device) (new : List String) (n : String)
    → is_fresh (device_of devices n) ≡ true
    → visit_neighbor current (devices, new) n
      ≡ (set_tier devices n (current +ℤ pos 1), new ++ n ∷ [])
unfolding visit_neighbor
visit_fresh current devices new n h = ground arith

visit_stale :
    (current : ℤ) (devices : Map String Device) (new : List String) (n : String)
    → is_fresh (device_of devices n) ≡ false
    → visit_neighbor current (devices, new) n ≡ (devices, new)
unfolding visit_neighbor
visit_stale current devices new n h = ground arith

-- The loop over the neighbors: each fresh switch among them gets the next tier, and the queue gets
-- exactly those switches.
module _ (current : ℤ) (m : ℕ) (step : (current +ℤ pos 1) ≡ pos (suc m)) where
  abbrev visit_all : Map String Device × List String → List String → Map String Device × List String
  visit_all = foldl (visit_neighbor current)

  abbrev raised : Device → Device
  raised d = record d { tier = pos (suc m) }

  pub device_of-visits :
      (devices : Map String Device) (new ns : List String) (x : String)
      → device_of (visit_all (devices, new) ns).0 x ≡ (
          if elem x ns && is_fresh (device_of devices x)
          then raised (device_of devices x)
          else device_of devices x)
  unfolding elem int_beq
  device_of-visits devices new [] x = refl
  device_of-visits devices new (n ∷ ns) x = elim (Bool-cases (is_fresh (device_of devices n))) [
    | inl f ↦ ground (
      arith,
      step,
      ap (λ p. visit_all p ns) (visit_fresh current devices new n f),
      device_of-visits (set_tier devices n (pos (suc m))) (new ++ n ∷ []) ns x,
      device_of-set_tier devices n x (pos (suc m)),
      ==_iff n x,
    )
    | inr f ↦ ground (
      arith,
      ap (λ p. visit_all p ns) (visit_stale current devices new n f),
      device_of-visits devices new ns x,
      ==_iff n x,
    )
  ]

  pub Member-visits :
      (devices : Map String Device) (new ns : List String) (x : String)
      → Member x (visit_all (devices, new) ns).1
        ↔ (Member x new ⊎ (elem x ns && is_fresh (device_of devices x)) ≡ true)
  unfolding elem int_beq
  Member-visits devices new [] x = ground arith
  Member-visits devices new (n ∷ ns) x = elim (Bool-cases (is_fresh (device_of devices n))) [
    | inl f ↦ ground (
      arith,
      step,
      ap (λ p. visit_all p ns) (visit_fresh current devices new n f),
      Member-visits (set_tier devices n (pos (suc m))) (new ++ n ∷ []) ns x,
      device_of-set_tier devices n x (pos (suc m)),
      Member-append x new (n ∷ []),
      ==_iff n x,
    )
    | inr f ↦ ground (
      arith,
      ap (λ p. visit_all p ns) (visit_stale current devices new n f),
      Member-visits devices new ns x,
      ==_iff n x,
    )
  ]

  pub keys-visits :
      (devices : Map String Device) (new ns : List String)
      → keys (visit_all (devices, new) ns).0 ≡ keys devices
  keys-visits devices new [] = refl
  keys-visits devices new (n ∷ ns) = elim (Bool-cases (is_fresh (device_of devices n))) [
    | inl f ↦
        ap (λ p. keys (visit_all p ns).0) (visit_fresh current devices new n f)
        ∙ keys-visits (set_tier devices n (current +ℤ pos 1)) (new ++ n ∷ []) ns
        ∙ keys-set_tier devices n (current +ℤ pos 1) (ground arith)
    | inr f ↦
        ap (λ p. keys (visit_all p ns).0) (visit_stale current devices new n f)
        ∙ keys-visits devices new ns
  ]

  -- Each round pays for what it appends by as many fresh switches.
  pub fresh_count-visits :
      (devices : Map String Device) (new ns : List String)
      → length (visit_all (devices, new) ns).1 + fresh_count (visit_all (devices, new) ns).0
        ≡ length new + fresh_count devices
  fresh_count-visits devices new [] = refl
  fresh_count-visits devices new (n ∷ ns) = elim (Bool-cases (is_fresh (device_of devices n))) [
    | inl f ↦ ground (
      arith,
      step,
      ap (λ p. visit_all p ns) (visit_fresh current devices new n f),
      fresh_count-visits (set_tier devices n (pos (suc m))) (new ++ n ∷ []) ns,
      fresh_count-set_tier devices n (suc m) f,
      length-append new (n ∷ []),
    )
    | inr f ↦ ground (
      arith,
      ap (λ p. visit_all p ns) (visit_stale current devices new n f),
      fresh_count-visits devices new ns,
    )
  ]
