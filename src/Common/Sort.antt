-- ===== src/Common/Sort.antt =====
-- `sort.Strings`, `sort.Ints` and `sort.Slice` as an insertion sort by a `less` test, and
-- `dedupeSortedStrings`. By a linear order the sorted list does not depend on the algorithm.
use Prim.Native.Nat.{suc}
use mathlib.Core.Path.{◌≡◌, refl, ap₂, sym}
use mathlib.Core.Logic.{◌⊎◌, inl, inr, ◌↔◌, ◌≢◌, ⊎_elim}
use mathlib.Core.Bool.{Bool, true, false}
use mathlib.Core.List.{List, [], ◌∷◌}
use native.Mathlib.Omega.{arith}
use unifabric.Common.Tests.{if◌then◌else◌, Bool-cases, Eq, ◌==◌, ==_iff, ==_cases}
use unifabric.Common.Lists.{length, Member, Distinct}
use unifabric.Common.Order.{Order}

module _ {A : Type 0} (less : A → A → Bool) where
  unfoldable pub insert_sorted : A → List A → List A
  insert_sorted x [] = x ∷ []
  insert_sorted x (y ∷ ys) = if less y x then y ∷ insert_sorted x ys else x ∷ (y ∷ ys)

  unfoldable pub sort_by : List A → List A
  unfolding insert_sorted
  sort_by [] = []
  sort_by (x ∷ xs) = insert_sorted x (sort_by xs)

  Member-insert_sorted :
      (a x : A) (xs : List A) → Member a (insert_sorted x xs) ↔ ((a ≡ x) ⊎ Member a xs)
  unfolding insert_sorted
  Member-insert_sorted a x [] = ground arith
  Member-insert_sorted a x (y ∷ ys) = ground (arith, Member-insert_sorted a x ys)

  pub Member-sort_by : (a : A) (xs : List A) → Member a (sort_by xs) ↔ Member a xs
  unfolding sort_by
  Member-sort_by a [] = ground arith
  Member-sort_by a (x ∷ xs) =
      ground (arith, Member-sort_by a xs, Member-insert_sorted a x (sort_by xs))

  length-insert_sorted : (x : A) (xs : List A) → length (insert_sorted x xs) ≡ suc (length xs)
  unfolding insert_sorted
  length-insert_sorted x [] = refl
  length-insert_sorted x (y ∷ ys) = ground (arith, length-insert_sorted x ys)

  pub length-sort_by : (xs : List A) → length (sort_by xs) ≡ length xs
  unfolding sort_by
  length-sort_by [] = refl
  length-sort_by (x ∷ xs) = omega (arith, length-sort_by xs, length-insert_sorted x (sort_by xs))

  Distinct-insert_sorted :
      (x : A) (xs : List A) → ¬ Member x xs → Distinct xs → Distinct (insert_sorted x xs)
  unfolding insert_sorted
  Distinct-insert_sorted x [] m d = ground arith
  Distinct-insert_sorted x (y ∷ ys) m d =
      ground (arith, Distinct-insert_sorted x ys, Member-insert_sorted y x ys)

  pub Distinct-sort_by : (xs : List A) → Distinct xs → Distinct (sort_by xs)
  unfolding sort_by
  Distinct-sort_by [] d = tt
  Distinct-sort_by (x ∷ xs) d =
      Distinct-insert_sorted x (sort_by xs) (λ m. d.0 ((Member-sort_by x xs).0 m))
        (Distinct-sort_by xs d.1)

-- Strictly increasing: each element is below all that follow.
abbrev pub Increasing : {A : Type 0} → (A → A → Bool) → List A → Type 0
Increasing less [] = Unit
Increasing {A} less (x ∷ xs) = ((y : A) → Member y xs → less x y ≡ true) × Increasing less xs

-- No element stands before a smaller one.
abbrev pub Ordered : {A : Type 0} → (A → A → Bool) → List A → Type 0
Ordered less [] = Unit
Ordered {A} less (x ∷ xs) = ((y : A) → Member y xs → less y x ≡ false) × Ordered less xs

module _ {A : Type 0} (o : Order A) where
  open o use {less, irrefl, trans, total}

  asym : (a b : A) → less a b ≡ true → less b a ≡ false
  asym a b h = elim (Bool-cases (less b a)) [
    | inl k ↦ ground (arith, trans a b a, irrefl a)
    | inr k ↦ k
  ]

  -- a ≤ b < c
  le_lt : (a b c : A) → less b a ≡ false → less c b ≡ false → less c a ≡ false
  le_lt a b c h k = elim (Bool-cases (less c a)) [
    | inr r ↦ r
    | inl r ↦ elim (Bool-cases (less a b)) [
      | inl ab ↦ ground (arith, trans c a b)
      | inr nab ↦ ground (arith, total a b, trans c a b)
    ]
  ]

  Ordered-insert_sorted :
      (x : A) (xs : List A) → Ordered less xs → Ordered less (insert_sorted less x xs)
  unfolding insert_sorted
  Ordered-insert_sorted x [] h = (λ y m. absurd m, tt)
  Ordered-insert_sorted x (y ∷ ys) h = elim (Bool-cases (less y x)) [
    | inl yx ↦ rw yx (
      λ z m. ⊎_elim (λ e. rw e (asym y x yx)) (h.0 z) ((Member-insert_sorted less z x ys).0 m),
      Ordered-insert_sorted x ys h.1,
    )
    | inr nyx ↦ rw nyx (λ z m. ⊎_elim (λ e. rw e nyx) (λ n. le_lt x y z nyx (h.0 z n)) m, h)
  ]

  pub Ordered-sort_by : (xs : List A) → Ordered less (sort_by less xs)
  unfolding sort_by
  Ordered-sort_by [] = tt
  Ordered-sort_by (x ∷ xs) = Ordered-insert_sorted x (sort_by less xs) (Ordered-sort_by xs)

  -- Sorted and with no repetition is strictly increasing.
  pub Increasing-of_Ordered : (xs : List A) → Ordered less xs → Distinct xs → Increasing less xs
  Increasing-of_Ordered [] h d = tt
  Increasing-of_Ordered (x ∷ xs) h d = (
    λ y m. elim (Bool-cases (less x y)) [
      | inl r ↦ r
      | inr r ↦ absurd (d.0 (subst' (total x y r (h.0 y m)) m))
    ],
    Increasing-of_Ordered xs h.1 d.1,
  )
    where
      subst' : {y : A} → x ≡ y → Member y xs → Member x xs
      subst' e m = rw e m

  pub Increasing-sort_by : (xs : List A) → Distinct xs → Increasing less (sort_by less xs)
  Increasing-sort_by xs d =
      Increasing-of_Ordered (sort_by less xs) (Ordered-sort_by xs) (Distinct-sort_by less xs d)

  heads_agree :
      (x y : A) (xs ys : List A)
      → Increasing less (x ∷ xs)
      → Increasing less (y ∷ ys)
      → Member x (y ∷ ys)
      → Member y (x ∷ xs)
      → x ≡ y
  heads_agree x y xs ys h k (inl e) n = e
  heads_agree x y xs ys h k (inr m) (inl e) = sym e
  heads_agree x y xs ys h k (inr m) (inr n) = cc (asym x y (h.0 y n), k.0 x m)

  tail_only :
      (x y a : A) (xs ys : List A)
      → x ≡ y
      → Increasing less (x ∷ xs)
      → (Member a (x ∷ xs) → Member a (y ∷ ys))
      → Member a xs
      → Member a ys
  tail_only x y a xs ys e h f m = elim (f (inr m)) [
    | inl e' ↦ cc (irrefl x, h.0 a m, e, e')
    | inr n ↦ n
  ]

  -- A strictly increasing list is determined by its elements.
  pub Increasing-unique :
      (xs ys : List A)
      → Increasing less xs
      → Increasing less ys
      → ((a : A) → Member a xs ↔ Member a ys)
      → xs ≡ ys
  Increasing-unique [] [] h k same = refl
  Increasing-unique [] (y ∷ ys) h k same = absurd ((same y).1 (inl refl))
  Increasing-unique (x ∷ xs) [] h k same = absurd ((same x).0 (inl refl))
  Increasing-unique (x ∷ xs) (y ∷ ys) h k same =
      let heads = heads_agree x y xs ys h k ((same x).0 (inl refl)) ((same y).1 (inl refl)) in
      ap₂ ◌∷◌ heads (
        Increasing-unique xs ys h.1 k.1 λ a. (
          λ m. tail_only x y a xs ys heads h (λ e. (same a).0 e) m,
          λ m. tail_only y x a ys xs (sym heads) k (λ e. (same a).1 e) m,
        ))

-- `dedupeSortedStrings`: keeps each value that differs from the one before it.
module _ {A : Type 0} ⦃eq : Eq A⦄ where
  unfoldable pub dedupe_after : A → List A → List A
  dedupe_after prev [] = []
  dedupe_after prev (x ∷ xs) = let rest = dedupe_after x xs in if x == prev then rest else x ∷ rest

  unfoldable pub dedupe_sorted : List A → List A
  unfolding dedupe_after
  dedupe_sorted [] = []
  dedupe_sorted (x ∷ xs) = x ∷ dedupe_after x xs

  Member-dedupe_after :
      (a prev : A) (xs : List A)
      → Member a (dedupe_after prev xs) ⊎ (a ≡ prev) ↔ Member a xs ⊎ (a ≡ prev)
  unfolding dedupe_after
  Member-dedupe_after a prev [] = ((λ m. m), (λ m. m))
  Member-dedupe_after a prev (x ∷ xs) = ground (arith, Member-dedupe_after a x xs, ==_iff x prev)

  pub Member-dedupe_sorted : (a : A) (xs : List A) → Member a (dedupe_sorted xs) ↔ Member a xs
  unfolding dedupe_sorted
  Member-dedupe_sorted a [] = ground arith
  Member-dedupe_sorted a (x ∷ xs) = ground (arith, Member-dedupe_after a x xs)

  module _ (o : Order A) where
    open o use {less, total}

    Increasing-dedupe_after :
        (prev : A) (xs : List A)
        → Ordered less (prev ∷ xs)
        → Increasing less (prev ∷ dedupe_after prev xs)
    unfolding dedupe_after
    Increasing-dedupe_after prev [] h = (λ y m. absurd m, tt)
    Increasing-dedupe_after prev (x ∷ xs) h =
        let ih = Increasing-dedupe_after x xs h.1 in
        elim (==_cases x prev) [
          | inl (e, b) ↦ rw b (λ y m. rw e at (ih.0 y m), ih.1)
          | inr (ne, b) ↦ rw b (
            λ y m.
                ⊎_elim (λ e. rw e (above h.0 ne)) (λ n. o.trans prev x y (above h.0 ne) (ih.0 y n))
                  m,
            ih,
          )
        ]
      where
        above : ((y : A) → Member y (x ∷ xs) → less y prev ≡ false) → x ≢ prev → less prev x ≡ true
        above low ne = elim (Bool-cases (less prev x)) [
          | inl r ↦ r
          | inr r ↦ absurd (ne (total x prev (low x (inl refl)) r))
        ]

    pub Increasing-dedupe_sorted :
        (xs : List A) → Ordered less xs → Increasing less (dedupe_sorted xs)
    unfolding dedupe_sorted
    Increasing-dedupe_sorted [] h = tt
    Increasing-dedupe_sorted (x ∷ xs) h = Increasing-dedupe_after x xs h
