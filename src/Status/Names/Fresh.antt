-- ===== src/Status/Names/Fresh.antt =====
-- Kept names and fresh numbers.
use unifabric.Common.{
  String, List, [], ◌∷◌, Map, ℕ, zero, suc, ◌+◌, ◌≤◌, ◌<◌, none, some, leb, if◌then◌else◌,
  string_eq, nat_eq, length, elem, elem_iff, map, Member, Option-cases, ◌≡◌, refl, sym, ap, arith,
  Bool-cases, ◌⊎◌, inl, inr, Distinct, subst, ==_cases,
}
use unifabric.Status.Types.{TopologyNodeGroup}
use unifabric.Status.Names.{node_group_name, next_free, kept_name, assign_names}

-- how many of the used numbers are not below `n`
abbrev pub from : ℕ → List ℕ → ℕ
from n [] = 0
from n (u ∷ us) = (if leb n u then 1 else 0) + from n us

pub from_le : (n : ℕ) (us : List ℕ) → from n us ≤ length us
from_le n [] = omega arith
from_le n (u ∷ us) = ground (arith, from_le n us)

from_mono : (n : ℕ) (us : List ℕ) → from (n + 1) us ≤ from n us
from_mono n [] = omega arith
from_mono n (u ∷ us) = ground (arith, from_mono n us)

from_lt : (n : ℕ) (us : List ℕ) → Member n us → from (n + 1) us < from n us
from_lt n [] m = absurd m
from_lt n (u ∷ us) (inl e) = ground (arith, from_mono n us)
from_lt n (u ∷ us) (inr m) = ground (arith, from_lt n us m)

-- With as much fuel as there are used numbers, and one, the loop ends at the least number from `n` on
-- that is not used.
next_free_exact :
    (fuel : ℕ) (used : List ℕ) (n : ℕ)
    → from n used < fuel
    → (¬ Member (next_free fuel used n) used)
      × (n ≤ next_free fuel used n)
      × ((m : ℕ) → n ≤ m → m < next_free fuel used n → Member m used)
unfolding next_free
next_free_exact zero used n h = absurd (omega arith)
next_free_exact (suc fuel) used n h = elim (Bool-cases (elem n used)) [
  | inl b ↦
      let taken = (elem_iff n used).0 b in
      let (free, above, between) =
        next_free_exact fuel used (n + 1) (omega (arith, from_lt n used taken)) in
      rw b (
        free,
        omega arith,
        λ m lo hi. elim (==_cases m n) [
          | inl (e, _) ↦ rw e taken
          | inr (ne, _) ↦ between m (ground arith) hi
        ],
      )
  | inr b ↦ rw b ((λ m. cc ((elem_iff n used).1 m)), omega arith, λ m lo hi. absurd (omega arith))
]

next_free_bound :
    (fuel : ℕ) (used : List ℕ) (n : ℕ)
    → next_free fuel used n + from (next_free fuel used n) used ≤ n + from n used
unfolding next_free
next_free_bound zero used n = omega arith
next_free_bound (suc fuel) used n = elim (Bool-cases (elem n used)) [
  | inl b ↦
      rw b
        (omega (arith, from_lt n used ((elem_iff n used).0 b), next_free_bound fuel used (n + 1)))
  | inr b ↦ rw b (omega arith)
]

-- The names of the groups that keep none, among the results for the groups.
abbrev pub new_names :
    Map String String → List TopologyNodeGroup → List TopologyNodeGroup → List String
new_names previous [] rs = []
new_names previous (g ∷ gs) [] = []
new_names previous (g ∷ gs) (r ∷ rs) =
    let rest = new_names previous gs rs in
    elim (kept_name previous g) [ none ↦ r.name ∷ rest | some n ↦ rest ]

-- The numbers `ns` of the new names: distinct, from `next` on, not used, each the least that is not
-- taken, and bounded.
pub record Fresh (used : List ℕ) (next count : ℕ) (names : List String) (ns : List ℕ) : Type 0 where
  pub named : names ≡ map node_group_name ns
  pub distinct : Distinct ns
  pub above : (n : ℕ) → Member n ns → next ≤ n
  pub unused : (n : ℕ) → Member n ns → ¬ Member n used
  pub least : (n m : ℕ) → Member n ns → next ≤ m → m < n → Member m used ⊎ Member m ns
  pub bounded : (n : ℕ) → Member n ns → n < next + from next used + count

le_lt : (m n : ℕ) → (m ≤ n) ⊎ (n < m)
le_lt m n = ground arith

Fresh-weaken :
    (used : List ℕ) (next count : ℕ) (names : List String) (ns : List ℕ)
    → Fresh used next count names ns
    → Fresh used next (suc count) names ns
Fresh-weaken used next count names ns f = record {
  named = f.named;
  distinct = f.distinct;
  above = f.above;
  unused = f.unused;
  least = f.least;
  bounded = λ n m. omega (arith, f.bounded n m);
}

module _ (previous : Map String String) where
  Fresh-cons :
      (used : List ℕ) (next n count : ℕ) (names : List String) (ns : List ℕ)
      → n ≡ next_free (suc (length used)) used next
      → Fresh (n ∷ used) (n + 1) count names ns
      → Fresh used next (suc count) (node_group_name n ∷ names) (n ∷ ns)
  Fresh-cons used next n count names ns e f =
      let (free, above, between) =
        next_free_exact (suc (length used)) used next (omega (arith, from_le next used)) in
      let bound = next_free_bound (suc (length used)) used next in
      record {
        named = ap (λ l. node_group_name n ∷ l) f.named;
        distinct = ((λ m. ground (arith, f.above n m)), f.distinct);
        above = λ k m. elim m [
          | inl p ↦ ground (arith, e, above)
          | inr p ↦ ground (arith, f.above k p, e, above)
        ];
        unused = λ k m u. elim m [
          | inl p ↦ ground (arith, subst (λ i. ¬ Member i used) (sym e) free)
          | inr p ↦ f.unused k p (inr u)
        ];
        least = λ k j m lo hi. elim m [
          | inl p ↦ inl (between j lo (ground arith))
          | inr p ↦ elim (le_lt j n) [
            | inl below ↦ elim (==_cases j n) [
              | inl (q, _) ↦ inr (inl q)
              | inr (q, _) ↦ inl (between j lo (ground arith))
            ]
            | inr beyond ↦ ground (arith, f.least k j p (omega arith) hi)
          ]
        ];
        bounded = λ k m. ground (arith, f.bounded k, from_mono n used, e, bound);
      }

  new_names_cons :
      (used : List ℕ) (next : ℕ) (g : TopologyNodeGroup) (gs : List TopologyNodeGroup)
      → kept_name previous g ≡ none
      → let n = next_free (suc (length used)) used next in
        new_names previous (g ∷ gs) (assign_names previous used next (g ∷ gs))
        ≡ node_group_name n ∷ new_names previous gs (assign_names previous (n ∷ used) (n + 1) gs)
  unfolding assign_names
  new_names_cons used next g gs e = ground (arith, e)

  new_names_kept :
      (used : List ℕ) (next : ℕ) (g : TopologyNodeGroup) (gs : List TopologyNodeGroup)
      (name : String)
      → kept_name previous g ≡ some name
      → new_names previous (g ∷ gs) (assign_names previous used next (g ∷ gs))
        ≡ new_names previous gs (assign_names previous used next gs)
  unfolding assign_names
  new_names_kept used next g gs name e = ground (arith, e)

  pub assign_names-Fresh :
      (used : List ℕ) (next : ℕ) (gs : List TopologyNodeGroup)
      → (ns : List ℕ) × Fresh used next
          (length gs)
          (new_names previous gs (assign_names previous used next gs))
          ns
  unfolding assign_names
  assign_names-Fresh used next [] = (
    [],
    record {
      named = refl;
      distinct = tt;
      above = λ n m. absurd m;
      unused = λ n m. absurd m;
      least = λ n j m lo hi. absurd m;
      bounded = λ n m. absurd m;
    },
  )
  assign_names-Fresh used next (g ∷ gs) = elim (Option-cases (kept_name previous g)) [
    | inr (name, e) ↦
        let (ns, f) = assign_names-Fresh used next gs in
        (ns, rw (new_names_kept used next g gs name e) (Fresh-weaken _ _ _ _ _ f))
    | inl e ↦ rw (new_names_cons used next g gs e) (
        let n = next_free (suc (length used)) used next in
        let (ns, f) = assign_names-Fresh (n ∷ used) (n + 1) gs in
        (n ∷ ns, Fresh-cons used next n (length gs) _ ns refl f))
  ]
