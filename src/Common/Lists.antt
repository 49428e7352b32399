-- ===== src/Common/Lists.antt =====
-- Lists: native lengths, membership that computes, filters by a Boolean test.
use Prim.Native.Nat.{ℕ, suc, ◌+◌, ◌≤◌}
use mathlib.Core.Path.{◌≡◌, refl, ap}
use mathlib.Core.Logic.{◌⊎◌, inl, inr, ◌↔◌}
use mathlib.Core.Bool.{Bool, true, false}
use mathlib.Core.List.{List, [], ◌∷◌, ◌++◌, map, foldl}
use mathlib.Core.Option.{Option, none, some}
use native.Mathlib.Omega.{arith}
use unifabric.Common.Tests.{if◌then◌else◌, Bool-cases}

module _ {ℓ} {A : Type ℓ} where
  abbrev pub length : List A → ℕ
  length [] = 0
  length (x ∷ xs) = suc (length xs)

  pub length-append : (xs ys : List A) → length (xs ++ ys) ≡ length xs + length ys
  length-append [] ys = omega arith
  length-append (x ∷ xs) ys = omega (arith, length-append xs ys)

module _ {A : Type 0} where
  abbrev pub Member : A → List A → Type 0
  Member a [] = ⊥
  Member a (x ∷ xs) = (a ≡ x) ⊎ Member a xs

  pub Member-append : (a : A) (xs ys : List A) → Member a (xs ++ ys) ↔ (Member a xs ⊎ Member a ys)
  Member-append a [] ys = ground arith
  Member-append a (x ∷ xs) ys = ground (arith, Member-append a xs ys)

  abbrev pub Distinct : List A → Type 0
  Distinct [] = Unit
  Distinct (x ∷ xs) = (¬ Member x xs) × Distinct xs

  pub Distinct-append_one :
      (x : A) (xs : List A) → ¬ Member x xs → Distinct xs → Distinct (xs ++ x ∷ [])
  Distinct-append_one x [] m d = ((λ n. n), tt)
  Distinct-append_one x (y ∷ ys) m d = (
    λ n. ground (arith, Member-append y ys (x ∷ [])),
    Distinct-append_one x ys (λ n. m (inr n)) d.1,
  )

  pub List-cases : (xs : List A) → (xs ≡ []) ⊎ ((x : A) × (rest : List A) × (xs ≡ x ∷ rest))
  List-cases [] = inl refl
  List-cases (x ∷ xs) = inr (x, xs, refl)

  unfoldable pub filter : (A → Bool) → List A → List A
  filter p [] = []
  filter p (x ∷ xs) = let rest = filter p xs in if p x then x ∷ rest else rest

  pub Member-filter :
      (p : A → Bool) (a : A) (xs : List A) → Member a (filter p xs) ↔ (Member a xs × (p a ≡ true))
  unfolding filter
  Member-filter p a [] = ground arith
  Member-filter p a (x ∷ xs) = ground (arith, Member-filter p a xs)

  pub length-filter-le : (p : A → Bool) (xs : List A) → length (filter p xs) ≤ length xs
  unfolding filter
  length-filter-le p [] = omega arith
  length-filter-le p (x ∷ xs) = ground (arith, length-filter-le p xs)

  unfoldable pub any : (A → Bool) → List A → Bool
  any p [] = false
  any p (x ∷ xs) = let rest = any p xs in if p x then true else rest

  pub any_intro : (p : A → Bool) (a : A) (xs : List A) → Member a xs → p a ≡ true → any p xs ≡ true
  unfolding any
  any_intro p a [] m h = absurd m
  any_intro p a (x ∷ xs) m h = ground (arith, any_intro p a xs)

  pub any_elim :
      (p : A → Bool) (xs : List A) → any p xs ≡ true → (a : A) × Member a xs × (p a ≡ true)
  unfolding any
  any_elim p [] h = cc
  any_elim p (x ∷ xs) h = elim (Bool-cases (p x)) [
    | inl q ↦ (x, inl refl, q)
    | inr q ↦ let (a, m, pa) = any_elim p xs (rw q at h) in (a, inr m, pa)
  ]

module _ {A B : Type 0} where
  pub length-map : (f : A → B) (xs : List A) → length (map f xs) ≡ length xs
  length-map f [] = refl
  length-map f (x ∷ xs) = omega (arith, length-map f xs)

  pub Member-map : (f : A → B) (a : A) (xs : List A) → Member a xs → Member (f a) (map f xs)
  Member-map f a [] m = absurd m
  Member-map f a (x ∷ xs) (inl e) = inl (ap f e)
  Member-map f a (x ∷ xs) (inr m) = inr (Member-map f a xs m)

  pub Member-map_inv :
      (f : A → B) (b : B) (xs : List A) → Member b (map f xs) → (a : A) × Member a xs × (b ≡ f a)
  Member-map_inv f b [] m = absurd m
  Member-map_inv f b (x ∷ xs) (inl e) = (x, inl refl, e)
  Member-map_inv f b (x ∷ xs) (inr m) = let (a, h, e) = Member-map_inv f b xs m in (a, inr h, e)

-- A `foldl` keeps what each of its steps keeps.
pub foldl_keeps :
    {S A : Type 0} (P : S → Type 0) (f : S → A → S) (xs : List A) (s : S)
    → ((t : S) (a : A) → Member a xs → P t → P (f t a))
    → P s
    → P (foldl f s xs)
foldl_keeps P f [] s keep h = h
foldl_keeps P f (x ∷ xs) s keep h =
    foldl_keeps P f xs (f s x) (λ t a m. keep t a (inr m)) (keep s x (inl refl) h)

-- A loop whose body may fail (a panic, or an error that is returned).
module _ {A B : Type 0} where
  unfoldable pub fold_option : (B → A → Option B) → B → List A → Option B
  fold_option f s [] = some s
  fold_option f s (x ∷ xs) = elim (f s x) [ none ↦ none | some t ↦ fold_option f t xs ]

  -- Where no step fails the loop is a `foldl`.
  pub fold_option-eq-foldl :
      (P : B → Type 0) (f : B → A → Option B) (g : B → A → B) (xs : List A) (s : B)
      → ((t : B) (x : A) → Member x xs → P t → (f t x ≡ some (g t x)) × P (g t x))
      → P s
      → (fold_option f s xs ≡ some (foldl g s xs)) × P (foldl g s xs)
  unfolding fold_option
  fold_option-eq-foldl P f g [] s step h = (refl, h)
  fold_option-eq-foldl P f g (x ∷ xs) s step h =
      let (e, h') = step s x (inl refl) h in
      let (e', h'') = fold_option-eq-foldl P f g xs (g s x) (λ t y m. step t y (inr m)) h' in
      (rw (e, fold_option) e', h'')
