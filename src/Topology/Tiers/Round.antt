-- ===== src/Topology/Tiers/Round.antt =====
-- One round of the search, seen through the levels: the level of a switch is its tier, and 0 where
-- it has none.
use unifabric.Common.{
  String, List, [], true, ◌&&◌, Map, pos, negsuc, ◌+ℤ◌, get_or, keys, pos_part, foldl, length, ◌+◌,
  string_eq, int_eq, ℕ, suc, int_beq, ◌≡◌, ap, ◌∙◌, ◌↔◌, inl, inr, arith, Member, elem, elem_iff,
  Bool-cases,
}
use unifabric.Topology.Types.{Device, switch, device_of, Adjacency, has_edge}
use unifabric.Topology.Tiers.{sorted_bool_keys, visit_neighbor, expand}
use unifabric.Topology.Tiers.Steps.{
  Member-sorted_bool_keys, is_fresh, device_of-visits, Member-visits, keys-visits, fresh_count,
  fresh_count-visits,
}

abbrev pub level : Map String Device → String → ℕ
level devices x = pos_part (device_of devices x).tier

-- What a round does to one name: a fresh switch next to `u` gets the level after `u`'s and is
-- appended, and any other name stays as it is.
pub data Effect (adj : Adjacency) (u : String) (d e : Map String Device) (new : List String)
    (x : String) : Type 0 where
  reached :
      has_edge adj u x ≡ true
      → (device_of d x).type ≡ switch
      → (device_of d x).tier ≡ negsuc 0
      → device_of e x ≡ record (device_of d x) { tier = pos (suc (level d u)) }
      → Member x new
      → Effect adj u d e new x
  kept :
      (has_edge adj u x ≡ true
        → (device_of d x).type ≡ switch
        → (device_of d x).tier ≡ negsuc 0
        → ⊥)
      → device_of e x ≡ device_of d x
      → (¬ Member x new)
      → Effect adj u d e new x

next_tier : (k : ℕ) → (pos k +ℤ pos 1) ≡ pos (suc k)
unfolding ◌+ℤ◌
next_tier k = ground arith

fresh_iff : (d : Device) → (is_fresh d ≡ true) ↔ ((d.type ≡ switch) × (d.tier ≡ negsuc 0))
unfolding int_beq
fresh_iff d = ground arith

module _ (adj : Adjacency) (u : String) (d : Map String Device) (k : ℕ)
    (tiered : (device_of d u).tier ≡ pos k) where
  neighbors : List String
  neighbors = sorted_bool_keys (get_or adj u [])

  expand_unfold : expand adj u d ≡ foldl (visit_neighbor (pos k)) (d, []) neighbors
  unfolding expand neighbors
  expand_unfold = ap (λ t. foldl (visit_neighbor t) (d, []) neighbors) tiered

  elem-neighbors : (x : String) → (elem x neighbors ≡ true) ↔ (has_edge adj u x ≡ true)
  unfolding neighbors has_edge
  elem-neighbors x =
      ground (arith, elem_iff x neighbors, Member-sorted_bool_keys (get_or adj u []) x)

  pub expand_effect : (x : String) → Effect adj u d (expand adj u d).0 (expand adj u d).1 x
  expand_effect x =
      rw expand_unfold (elim (Bool-cases (elem x neighbors && is_fresh (device_of d x))) [
        | inl b ↦
            reached (ground (arith, elem-neighbors x)) (ground (arith, fresh_iff (device_of d x)))
              (ground (arith, fresh_iff (device_of d x)))
              (ground (arith, tiered, device_of-visits (pos k) k (next_tier k) d [] neighbors x))
              ((Member-visits (pos k) k (next_tier k) d [] neighbors x).1 (inr b))
        | inr b ↦
            kept (λ p q r. ground (arith, elem-neighbors x, fresh_iff (device_of d x)))
              (ground (arith, device_of-visits (pos k) k (next_tier k) d [] neighbors x))
              (λ m. ground (arith, Member-visits (pos k) k (next_tier k) d [] neighbors x))
      ])

  pub keys-expand : keys (expand adj u d).0 ≡ keys d
  keys-expand =
      ap (λ p. keys p.0) expand_unfold ∙ keys-visits (pos k) k (next_tier k) d [] neighbors

  pub fresh_count-expand :
      length (expand adj u d).1 + fresh_count (expand adj u d).0 ≡ fresh_count d
  fresh_count-expand =
      ground (arith, expand_unfold, fresh_count-visits (pos k) k (next_tier k) d [] neighbors)
