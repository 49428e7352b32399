-- ===== src/TopologyLabel/Language/Keys.antt =====
-- `pairStateKey`: what it tells of two sets of states.
use mathlib.Core.List.{append-nil, append_assoc}
use unifabric.Common.{
  List, [], ◌∷◌, ◌++◌, map, foldl, ℕ, ◌+◌, ◌<◌, keys, sort_by, ltb, Member, Member-append,
  Member-sort_by, ◌≡◌, ◌≢◌, ◌⊎◌, refl, sym, subst, ap, ◌∙◌, inl, inr, arith,
}
use unifabric.Status.Names.{decimal_digits}
use unifabric.Status.Names.RoundTrip.{AreDigits, AreDigits-decimal_digits}
use unifabric.TopologyLabel.Types.{Bytes}
use unifabric.TopologyLabel.Template.{tier_text, group_value}
use unifabric.TopologyLabel.Template.RoundTrip.{group_value-tier_text}
use unifabric.TopologyLabel.Language.{States, state_set_key, pair_state_key}

-- A text is cut at its first separator in one way.
same_cut :
    (c : ℕ) (xs xs' ys ys' : Bytes)
    → ¬ Member c xs
    → ¬ Member c xs'
    → xs ++ c ∷ ys ≡ xs' ++ c ∷ ys'
    → (xs ≡ xs') × (ys ≡ ys')
same_cut c [] [] ys ys' a b e = (refl, cc)
same_cut c [] (x ∷ xs') ys ys' a b e = absurd (b (inl cc))
same_cut c (x ∷ xs) [] ys ys' a b e = absurd (a (inl cc))
same_cut c (x ∷ xs) (x' ∷ xs') ys ys' a b e =
    let (p, q) = same_cut c xs xs' ys ys' (λ m. a (inr m)) (λ m. b (inr m)) cc in
    let h : x ≡ x' = cc in (cc, q)

digits_bytes :
    (ds : List ℕ) (c : ℕ) → AreDigits ds → Member c (map (λ d. 48 + d) ds) → (47 < c) × (c < 58)
digits_bytes [] c h m = absurd m
digits_bytes (d ∷ ds) c h (inl e) = (omega (arith, h.0, e), omega (arith, h.0, e))
digits_bytes (d ∷ ds) c h (inr m) = digits_bytes ds c h.1 m

tier_text_bytes : (n c : ℕ) → Member c (tier_text n) → (47 < c) × (c < 58)
unfolding tier_text
tier_text_bytes n c m =
    digits_bytes (decimal_digits n n []) c (AreDigits-decimal_digits n n [] tt) m

-- the states in their order, each with a comma behind it
abbrev pub joined : List ℕ → Bytes
joined [] = []
joined (s ∷ states) = tier_text s ++ 44 ∷ joined states

folded :
    (states : List ℕ) (start : Bytes)
    → foldl (λ result state. result ++ tier_text state ++ 44 ∷ []) start states
      ≡ start ++ joined states
folded [] start = sym (append-nil start)
folded (s ∷ states) start =
    folded states (start ++ tier_text s ++ 44 ∷ [])
    ∙ append_assoc (start ++ tier_text s) (44 ∷ []) (joined states)
    ∙ append_assoc start (tier_text s) (44 ∷ joined states)

pub state_set_key-joined :
    (states : States) → state_set_key states ≡ joined (sort_by ltb (keys states))
unfolding state_set_key
state_set_key-joined states = folded (sort_by ltb (keys states)) []

joined_bytes :
    (states : List ℕ) (c : ℕ) → Member c (joined states) → (c ≡ 44) ⊎ ((47 < c) × (c < 58))
joined_bytes [] c m = absurd m
joined_bytes (s ∷ states) c m = elim ((Member-append c (tier_text s) (44 ∷ joined states)).0 m) [
  | inl k ↦ inr (tier_text_bytes s c k)
  | inr (inl e) ↦ inl e
  | inr (inr k) ↦ joined_bytes states c k
]

not_empty : (xs ys : Bytes) (c : ℕ) → [] ≢ xs ++ c ∷ ys
not_empty [] ys c e = cc
not_empty (x ∷ xs) ys c e = cc

joined_injective : (states others : List ℕ) → joined states ≡ joined others → states ≡ others
joined_injective [] [] e = refl
joined_injective [] (t ∷ others) e = absurd (not_empty (tier_text t) (joined others) 44 e)
joined_injective (s ∷ states) [] e = absurd (not_empty (tier_text s) (joined states) 44 (sym e))
joined_injective (s ∷ states) (t ∷ others) e =
    let (p, q) =
      same_cut 44 (tier_text s) (tier_text t) (joined states) (joined others)
        (λ m. omega (arith, tier_text_bytes s 44 m)) (λ m. omega (arith, tier_text_bytes t 44 m))
        e in
    let h : s ≡ t =
      sym (group_value-tier_text s) ∙ ap (group_value 0) p ∙ group_value-tier_text t in
    let rest = joined_injective states others q in cc

-- the key of a pair, from the states in their order
abbrev pub key_text : List ℕ → List ℕ → Bytes
key_text states others = joined states ++ 124 ∷ joined others

pub pair_state_key-key_text :
    (left right : States)
    → pair_state_key left right ≡ key_text (sort_by ltb (keys left)) (sort_by ltb (keys right))
unfolding pair_state_key
pair_state_key-key_text left right =
    ap (λ x. x ++ 124 ∷ state_set_key right) (state_set_key-joined left)
    ∙ ap (λ x. joined (sort_by ltb (keys left)) ++ 124 ∷ x) (state_set_key-joined right)

no_bar : (states : List ℕ) → ¬ Member 124 (joined states)
no_bar states m = elim (joined_bytes states 124 m) [
  | inl e ↦ omega (arith, e)
  | inr h ↦ omega (arith, h)
]

-- the same states
abbrev pub SameStates : States → States → Type 0
SameStates states others = (s : ℕ) → Member s (keys states) → Member s (keys others)

same_sorted :
    (states others : States)
    → sort_by ltb (keys states) ≡ sort_by ltb (keys others)
    → SameStates states others
same_sorted states others e s m =
    (Member-sort_by ltb s (keys others)).0
      (subst (Member s) e ((Member-sort_by ltb s (keys states)).1 m))

-- Pairs with one key have the same states.
pub pair_state_key-SameStates :
    (left right left' right' : States)
    → pair_state_key left right ≡ pair_state_key left' right'
    → SameStates left left' × SameStates right right'
pair_state_key-SameStates left right left' right' e =
    let a = sort_by ltb (keys left) in
    let a' = sort_by ltb (keys left') in
    let b = sort_by ltb (keys right) in
    let b' = sort_by ltb (keys right') in
    let (p, q) =
      same_cut 124 (joined a) (joined a') (joined b) (joined b') (no_bar a) (no_bar a')
        (sym (pair_state_key-key_text left right) ∙ e ∙ pair_state_key-key_text left' right') in
    (
      same_sorted left left' (joined_injective a a' p),
      same_sorted right right' (joined_injective b b' q),
    )
