-- ===== src/Common/Keyed.antt =====
-- Go maps as association lists: the order of the list is the order in which a `range` loop meets
-- the entries, which Go leaves open, so a theorem over every list covers every order.
use mathlib.Core.Path.{◌≡◌, refl, ap, sym}
use mathlib.Core.Logic.{◌⊎◌, inl, inr, ◌↔◌, ◌≢◌}
use Prim.Native.Nat.{◌≤◌, ◌<◌}
use mathlib.Core.Bool.{Bool, true, false, not}
use mathlib.Core.Option.{Option, none, some}
use mathlib.Core.List.{List, [], ◌∷◌, map}
use native.Mathlib.Omega.{arith}
use unifabric.Common.Tests.{if◌then◌else◌, Option-cases, Eq, ◌==◌, ==_iff, ==_cases}
use unifabric.Common.Lists.{Member, Distinct, filter, length, length-filter-le, Member-filter}

abbrev pub Map : Type 0 → Type 0 → Type 0
Map K V = List (K × V)

abbrev pub keys : {K V : Type 0} → Map K V → List K
keys = map (λ e. e.0)

abbrev pub value_or : {V : Type 0} → V → Option V → V
value_or d none = d
value_or d (some v) = v

-- membership as a test
module _ {K : Type 0} ⦃eq : Eq K⦄ where
  unfoldable pub elem : K → List K → Bool
  elem k [] = false
  elem k (j ∷ js) = if j == k then true else elem k js

  pub elem_iff : (k : K) (ks : List K) → (elem k ks ≡ true) ↔ Member k ks
  unfolding elem
  elem_iff k [] = ground arith
  elem_iff k (j ∷ js) = ground (arith, ==_iff j k, elem_iff k js)

module _ {K : Type 0} ⦃eq : Eq K⦄ where
  length-without :
      (x : K) (ks : List K) → Member x ks → length (filter (λ k. not (k == x)) ks) < length ks
  unfolding filter
  length-without x [] m = absurd m
  length-without x (k ∷ ks) m =
      ground (arith, ==_iff k x, length-without x ks, length-filter-le (λ k. not (k == x)) ks)

  -- Distinct names among the names of a list are no more than those.
  pub length-le_of_Distinct :
      (xs ks : List K) → Distinct xs → ((y : K) → Member y xs → Member y ks) → length xs ≤ length ks
  length-le_of_Distinct [] ks d h = omega arith
  length-le_of_Distinct (x ∷ xs) ks d h =
      let others = filter (λ k. not (k == x)) ks in
      let rest = length-le_of_Distinct xs others d.1 (λ y m.
        (Member-filter (λ k. not (k == x)) y ks).1
          (h y (inr m), ground (arith, ==_iff y x, d.0, m))) in
      omega (arith, rest, length-without x ks (h x (inl refl)))

module _ {K V : Type 0} ⦃eq : Eq K⦄ where
  -- `v, ok := m[k]`
  unfoldable pub get : Map K V → K → Option V
  get [] k = none
  get ((j, v) ∷ m) k = if j == k then some v else get m k

  -- `m[k] = v`: in place, or a new entry
  unfoldable pub put : Map K V → K → V → Map K V
  put [] k v = (k, v) ∷ []
  put ((j, w) ∷ m) k v = if j == k then (j, v) ∷ m else (j, w) ∷ put m k v

  -- `m[k]`, with the zero value where the key is missing
  abbrev pub get_or : Map K V → K → V → V
  get_or m k d = value_or d (get m k)

  pub get-put :
      (m : Map K V) (k j : K) (v : V) → get (put m k v) j ≡ (if k == j then some v else get m j)
  unfolding get put
  get-put [] k j v = refl
  get-put ((i, w) ∷ m) k j v = ground (arith, ==_iff k j, ==_iff i k, ==_iff i j, get-put m k j v)

  pub get-put_self : (m : Map K V) (k : K) (v : V) → get (put m k v) k ≡ some v
  get-put_self m k v = rw (get-put m k k v) (ground (arith, ==_iff k k))

  pub get-put_ne : (m : Map K V) (k j : K) (v : V) → k ≢ j → get (put m k v) j ≡ get m j
  get-put_ne m k j v h = rw (get-put m k j v) (ground (arith, ==_iff k j))

  pub get_of_Member : (m : Map K V) (k : K) → Member k (keys m) → (v : V) × (get m k ≡ some v)
  unfolding get
  get_of_Member [] k h = absurd h
  get_of_Member ((j, w) ∷ m) k h = elim (==_cases j k) [
    | inl (e, b) ↦ (w, rw b)
    | inr (ne, b) ↦ let (v, g) = get_of_Member m k (ground arith) in (v, rw b g)
  ]

  pub Member_of_get : (m : Map K V) (k : K) (v : V) → get m k ≡ some v → Member k (keys m)
  unfolding get
  Member_of_get [] k v h = cc
  Member_of_get ((j, w) ∷ m) k v h = ground (arith, ==_iff j k, Member_of_get m k v)

  pub Member-keys_iff : (m : Map K V) (k : K) → Member k (keys m) ↔ (get m k ≢ none)
  Member-keys_iff m k = (
    λ h e. let (v, g) = get_of_Member m k h in cc,
    λ ne. elim (Option-cases (get m k)) [
      | inl e ↦ absurd (ne e)
      | inr (v, e) ↦ Member_of_get m k v e
    ],
  )

  pub Member-keys-put :
      (m : Map K V) (k j : K) (v : V) → Member j (keys (put m k v)) ↔ (Member j (keys m) ⊎ (j ≡ k))
  unfolding put
  Member-keys-put [] k j v = ground arith
  Member-keys-put ((i, w) ∷ m) k j v = ground (arith, ==_iff i k, Member-keys-put m k j v)

  pub keys-put_present : (m : Map K V) (k : K) (v : V) → get m k ≢ none → keys (put m k v) ≡ keys m
  unfolding get put
  keys-put_present [] k v h = absurd (h refl)
  keys-put_present ((i, w) ∷ m) k v h = ground (arith, keys-put_present m k v)

  pub Distinct-keys-put :
      (m : Map K V) (k : K) (v : V) → Distinct (keys m) → Distinct (keys (put m k v))
  unfolding put
  Distinct-keys-put [] k v d = (λ h. h, tt)
  Distinct-keys-put ((i, w) ∷ m) k v d =
      ground (arith, ==_iff i k, Distinct-keys-put m k v, Member-keys-put m k i v)

  -- An entry of a map with distinct keys is what the map returns at its key.
  pub get_of_entry :
      (m : Map K V) (k : K) (v : V) → Distinct (keys m) → Member (k, v) m → get m k ≡ some v
  unfolding get
  get_of_entry [] k v d h = absurd h
  get_of_entry ((i, w) ∷ m) k v d (inl e) =
      rw ((==_iff i k).1 (sym (ap (λ (p : K × V). p.0) e))) (ap (λ (p : K × V). some (p.1)) (sym e))
  get_of_entry ((i, w) ∷ m) k v d (inr h) = elim (==_cases i k) [
    | inl (e, b) ↦ absurd (d.0 (rw e (Member_of_get m k v (get_of_entry m k v d.1 h))))
    | inr (ne, b) ↦ rw b (get_of_entry m k v d.1 h)
  ]

  pub entry_of_get : (m : Map K V) (k : K) (v : V) → get m k ≡ some v → Member (k, v) m
  unfolding get
  entry_of_get [] k v h = cc
  entry_of_get ((i, w) ∷ m) k v h = elim (==_cases i k) [
    | inl (e, b) ↦ inl (ground arith)
    | inr (ne, b) ↦ inr (entry_of_get m k v (rw b at h))
  ]

pub ruleset map_laws = (get-put, get-put_self, get-put_ne)
