-- ===== src/TopologyLabel/Language/Accepts.antt =====
-- The keys of a template, and what each state of the automaton still accepts.
pub mod Steps
pub mod States
use unifabric.Common.{
  List, [], ◌∷◌, ◌++◌, ℕ, zero, suc, ◌+◌, ◌≤◌, ◌<◌, Bool, true, false, length, ◌≡◌, ◌↔◌, ◌⊎◌, refl,
  sym, ap, ◌∙◌, subst, inl, inr, arith, leb,
}
use unifabric.TopologyLabel.Types.{Bytes, is_digit, is_positive_digit}
use unifabric.TopologyLabel.Language.{byte_at}

abbrev pub drop : ℕ → Bytes → Bytes
drop zero s = s
drop (suc n) [] = []
drop (suc n) (c ∷ s) = drop n s

-- digits, and then the suffix
abbrev pub Tail : Bytes → Bytes → Type 0
Tail f [] = f ≡ []
Tail f (c ∷ w) = (c ∷ w ≡ f) ⊎ ((is_digit c ≡ true) × Tail f w)

-- a digit that is not 0, and then digits and the suffix
abbrev pub Number : Bytes → Bytes → Type 0
Number f [] = ⊥
Number f (c ∷ w) = (is_positive_digit c ≡ true) × Tail f w

abbrev pub Key : Bytes → Bytes → Bytes → Type 0
Key [] f w = Number f w
Key (a ∷ p) f [] = ⊥
Key (a ∷ p) f (c ∷ w) = (a ≡ c) × Key p f w

abbrev pub AllDigits : Bytes → Type 0
AllDigits [] = Unit
AllDigits (c ∷ w) = (is_digit c ≡ true) × AllDigits w

Tail-split : (f w : Bytes) → Tail f w → (ds : Bytes) × AllDigits ds × (w ≡ ds ++ f)
Tail-split f [] h = ([], tt, sym h)
Tail-split f (c ∷ w) (inl e) = ([], tt, e)
Tail-split f (c ∷ w) (inr (d, h)) =
    let (ds, a, e) = Tail-split f w h in (c ∷ ds, (d, a), ap (λ l. c ∷ l) e)

pub Tail-self : (f : Bytes) → Tail f f
Tail-self [] = refl
Tail-self (c ∷ f) = inl refl

Tail-join : (f ds : Bytes) → AllDigits ds → Tail f (ds ++ f)
Tail-join f [] h = Tail-self f
Tail-join f (d ∷ ds) h = inr (h.0, Tail-join f ds h.1)

-- `w` is the prefix, a positive decimal number, and the suffix.
abbrev pub IsKey : Bytes → Bytes → Bytes → Type 0
IsKey p f w =
    (d : ℕ) × (ds : Bytes) × (is_positive_digit d ≡ true) × AllDigits ds × (w ≡ p ++ (d ∷ ds ++ f))

pub Key-split : (p f w : Bytes) → Key p f w → IsKey p f w
Key-split [] f [] h = absurd h
Key-split [] f (c ∷ w) (d, t) =
    let (ds, a, e) = Tail-split f w t in (c, ds, d, a, ap (λ l. c ∷ l) e)
Key-split (a ∷ p) f [] h = absurd h
Key-split (a ∷ p) f (c ∷ w) (e, h) =
    let (d, ds, n, b, q) = Key-split p f w h in
    (d, ds, n, b, ap (λ l. c ∷ l) q ∙ ap (λ x. x ∷ (p ++ (d ∷ ds ++ f))) (sym e))

Key-join :
    (p f : Bytes) (d : ℕ) (ds : Bytes)
    → is_positive_digit d ≡ true
    → AllDigits ds
    → Key p f (p ++ (d ∷ ds ++ f))
Key-join [] f d ds n a = (n, Tail-join f ds a)
Key-join (c ∷ p) f d ds n a = (refl, Key-join p f d ds n a)

pub Key-iff : (p f w : Bytes) → Key p f w ↔ IsKey p f w
Key-iff p f w =
    (Key-split p f w, λ (d, ds, n, a, e). subst (Key p f) (sym e) (Key-join p f d ds n a))

pub Key-nil : (p f : Bytes) → ¬ Key p f []
Key-nil [] f h = h
Key-nil (c ∷ p) f h = h

pub drop_less : (s : Bytes) (n : ℕ) → n < length s → drop n s ≡ byte_at s n ∷ drop (suc n) s
drop_less [] n h = absurd (omega arith)
drop_less (c ∷ s) zero h = refl
drop_less (c ∷ s) (suc n) h = drop_less s n (omega arith)

pub drop_all : (s : Bytes) → drop (length s) s ≡ []
drop_all [] = refl
drop_all (c ∷ s) = drop_all s

-- what follows the first `k` bytes of the suffix begins with `c`
pub drop_cons :
    (s : Bytes) (k c : ℕ) (w : Bytes)
    → c ∷ w ≡ drop k s
    → (k < length s) × (byte_at s k ≡ c) × (w ≡ drop (suc k) s)
drop_cons [] zero c w h = cc
drop_cons [] (suc k) c w h = cc
drop_cons (d ∷ s) zero c w h = (omega arith, cc, cc)
drop_cons (d ∷ s) (suc k) c w h = let (a, b, e) = drop_cons s k c w h in (omega arith, b, e)

pub drop_empty : (s : Bytes) (k : ℕ) → k ≤ length s → [] ≡ drop k s → k ≡ length s
drop_empty [] zero h e = refl
drop_empty [] (suc k) h e = absurd (omega arith)
drop_empty (d ∷ s) zero h e = cc
drop_empty (d ∷ s) (suc k) h e = ap suc (drop_empty s k (omega arith) e)
