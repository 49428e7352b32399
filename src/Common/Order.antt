-- ===== src/Common/Order.antt =====
-- Linear orders as Boolean tests, and the two that the program sorts by: Go's `<` on strings, which
-- compares bytes (the order of the code points), and `<` on `int`.
use Prim.Native.Nat.{ℕ, Ordering, compare as compare_ℕ}
use Prim.Native.Char.{code}
use Prim.Native.String.{String, [], ◌∷◌, compare, then}
use Prim.Native.String.compare
use mathlib.Core.Path.{◌≡◌, refl}
use mathlib.Core.Logic.{◌⊎◌}
use mathlib.Core.Bool.{Bool, true, false}
use native.Mathlib.Omega.{arith}
use text.Mathlib.TextEquality.{path_by_compare}
use text.Mathlib.TextPositions.{compare_refl}
use unifabric.Common.Int.{ℤ, ltb_ℤ}

pub record Order (A : Type 0) : Type 0 where
  pub less : A → A → Bool
  pub irrefl : (a : A) → less a a ≡ false
  pub trans : (a b c : A) → less a b ≡ true → less b c ≡ true → less a c ≡ true
  pub total : (a b : A) → less a b ≡ false → less b a ≡ false → a ≡ b

abbrev pub is_lt : Ordering → Bool
is_lt Ordering.lt = true
is_lt _ = false

abbrev pub string_less : String → String → Bool
string_less s t = is_lt (compare s t)

pub string_less_irrefl : (s : String) → string_less s s ≡ false
string_less_irrefl s = rw (compare_refl s) refl

then_lt :
    (m n : ℕ) (o : Ordering)
    → is_lt (then (compare_ℕ m n) o) ≡ true
    → (compare_ℕ m n ≡ Ordering.lt) ⊎ (m ≡ n) × (is_lt o ≡ true)
then_lt m n o h = ground arith

then_trans :
    (k m n : ℕ) (o p q : Ordering)
    → (is_lt o ≡ true → is_lt p ≡ true → is_lt q ≡ true)
    → is_lt (then (compare_ℕ k m) o) ≡ true
    → is_lt (then (compare_ℕ m n) p) ≡ true
    → is_lt (then (compare_ℕ k n) q) ≡ true
then_trans k m n o p q f g h = ground arith

pub string_less_trans :
    (s t u : String) → string_less s t ≡ true → string_less t u ≡ true → string_less s u ≡ true
string_less_trans [] [] u h k = cc (compare_refl [])
string_less_trans (c ∷ s) [] u h k = cc (rw compare.cons-nil at h)
string_less_trans [] (d ∷ t) [] h k = cc (rw compare.cons-nil at k)
string_less_trans (c ∷ s) (d ∷ t) [] h k = cc (rw compare.cons-nil at k)
string_less_trans [] (d ∷ t) (e ∷ u) h k = rw compare.nil-cons refl
string_less_trans (c ∷ s) (d ∷ t) (e ∷ u) h k = rw compare.cons-cons (
    then_trans (code c) (code d) (code e) (compare s t) (compare t u) (compare s u)
      (string_less_trans s t u) (rw compare.cons-cons at h) (rw compare.cons-cons at k))

then_total :
    (m n : ℕ) (o p : Ordering)
    → (is_lt o ≡ false → is_lt p ≡ false → o ≡ Ordering.eq)
    → is_lt (then (compare_ℕ m n) o) ≡ false
    → is_lt (then (compare_ℕ n m) p) ≡ false
    → then (compare_ℕ m n) o ≡ Ordering.eq
then_total m n o p f h k = ground arith

compare_total :
    (s t : String) → string_less s t ≡ false → string_less t s ≡ false → compare s t ≡ Ordering.eq
compare_total [] [] h k = compare_refl []
compare_total [] (d ∷ t) h k = cc (rw compare.nil-cons at h)
compare_total (c ∷ s) [] h k = cc (rw compare.nil-cons at k)
compare_total (c ∷ s) (d ∷ t) h k = rw compare.cons-cons (
    then_total (code c) (code d) (compare s t) (compare t s) (compare_total s t)
      (rw compare.cons-cons at h) (rw compare.cons-cons at k))

pub string_less_total : (s t : String) → string_less s t ≡ false → string_less t s ≡ false → s ≡ t
string_less_total s t h k = path_by_compare s t (compare_total s t h k)

abbrev pub string_order : Order String
string_order = record {
  less = string_less;
  irrefl = string_less_irrefl;
  trans = string_less_trans;
  total = string_less_total;
}

pub ltb_ℤ_irrefl : (a : ℤ) → ltb_ℤ a a ≡ false
ltb_ℤ_irrefl a = ground arith

pub ltb_ℤ_trans : (a b c : ℤ) → ltb_ℤ a b ≡ true → ltb_ℤ b c ≡ true → ltb_ℤ a c ≡ true
ltb_ℤ_trans a b c h k = ground arith

pub ltb_ℤ_total : (a b : ℤ) → ltb_ℤ a b ≡ false → ltb_ℤ b a ≡ false → a ≡ b
ltb_ℤ_total a b h k = ground arith

abbrev pub int_order : Order ℤ
int_order = record { less = ltb_ℤ; irrefl = ltb_ℤ_irrefl; trans = ltb_ℤ_trans; total = ltb_ℤ_total }
