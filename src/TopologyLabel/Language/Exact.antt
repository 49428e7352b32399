-- ===== src/TopologyLabel/Language/Exact.antt =====
-- `intersectionExample` finds a key of both templates where there is one.
use unifabric.Common.{
  [], ◌∷◌, ◌++◌, ℕ, Option, none, some, keys, put, foldl, ltb, Member, Member-append,
  Member-sort_by, Member-keys-put, ◌≡◌, ◌⊎◌, refl, sym, subst, inl, inr, arith, true, nat_eq,
}
use unifabric.TopologyLabel.Types.{Bytes, bytes_eq, Template, is_digit}
use unifabric.TopologyLabel.Language.{
  new_tier_language, States, language_alphabet, LanguagePairState, intersection_example,
  example_fuel,
}
use unifabric.TopologyLabel.Language.Accepts.{IsKey, AllDigits}
use unifabric.TopologyLabel.Language.Accepts.States.{
  start_states, accepts_exact, Accepting, run-Accepting, IsClosed, IsClosed-closure,
}
use unifabric.TopologyLabel.Language.Complete.{IsSpelled, search_complete, Shared-of_key}
use unifabric.TopologyLabel.Language.Search.{search_ends}
use unifabric.TopologyLabel.Language.Subsets.{
  start-AreStates, Member-all_keys, all_keys, length-all_keys,
}
use unifabric.TopologyLabel.Language.Overlap.{IsAscii, ten_digits, intersection_example_sound}

-- Every character of a key is in the alphabet.
note_adds :
    (text : Bytes) (set : States) (c : ℕ)
    → (Member c (keys set) ⊎ Member c text)
    → Member c (keys (foldl (λ set character. put set character tt) set text))
note_adds [] set c h = elim h [ inl m ↦ m | inr z ↦ absurd z ]
note_adds (d ∷ text) set c h = note_adds text (put set d tt) c (elim h [
  | inl m ↦ inl ((Member-keys-put set d c tt).1 (inl m))
  | inr (inl e) ↦ inl ((Member-keys-put set d c tt).1 (inr e))
  | inr (inr m) ↦ inr m
])

is_digit_listed : (c : ℕ) → is_digit c ≡ true → Member c ten_digits
is_digit_listed c h = ground arith

digits_listed : (ds : Bytes) (c : ℕ) → AllDigits ds → Member c ds → Member c ten_digits
digits_listed [] c h m = absurd m
digits_listed (d ∷ ds) c h (inl e) =
    subst (λ x. Member x ten_digits) (sym e) (is_digit_listed d h.0)
digits_listed (d ∷ ds) c h (inr m) = digits_listed ds c h.1 m

key_characters :
    (p f w : Bytes) (c : ℕ) → IsKey p f w → Member c w → Member c (p ++ f) ⊎ Member c ten_digits
key_characters p f w c (d, ds, positive, all, e) m =
    elim ((Member-append c p (d ∷ ds ++ f)).0 (subst (Member c) e m)) [
      | inl k ↦ inl ((Member-append c p f).1 (inl k))
      | inr (inl q) ↦
          inr (subst (λ x. Member x ten_digits) (sym q) (is_digit_listed d (ground arith)))
      | inr (inr k) ↦ elim ((Member-append c ds f).0 k) [
        | inl i ↦ inr (digits_listed ds c all i)
        | inr i ↦ inl ((Member-append c p f).1 (inr i))
      ]
    ]

key-IsSpelled :
    (left right : Template) (w : Bytes)
    → IsKey left.prefix left.suffix w
    → IsSpelled left right
        (language_alphabet (new_tier_language left ∷ new_tier_language right ∷ []))
        w
unfolding language_alphabet new_tier_language
key-IsSpelled left right w key c m = (Member-sort_by ltb c _).1 (
    note_adds (right.prefix ++ right.suffix) _ c (
      inl (
        note_adds (left.prefix ++ left.suffix) _ c
          (elim (key_characters left.prefix left.suffix w c key m) [
            | inl k ↦ inr k
            | inr k ↦ inl (note_adds ten_digits [] c (inr k))
          ]))))

abbrev start_pair : Template → Template → LanguagePairState
start_pair left right = record {
  left = start_states left;
  right = start_states right;
  example = [];
}

-- An example is a key of both templates; without one there is no such key.
abbrev pub IsOverlap : Template → Template → Option Bytes → Type 0
IsOverlap left right none =
    (w : Bytes) → IsKey left.prefix left.suffix w → ¬ IsKey right.prefix right.suffix w
IsOverlap left right (some example) =
    IsKey left.prefix left.suffix example × IsKey right.prefix right.suffix example

intersection_example_complete :
    (left right : Template)
    → intersection_example left right ≡ some none
    → IsOverlap left right none
unfolding intersection_example
intersection_example_complete left right e w key key' =
    let alphabet = language_alphabet (new_tier_language left ∷ new_tier_language right ∷ []) in
    let accepted : Accepting left (start_states left) w =
      (run-Accepting left w (start_states left) (IsClosed-closure left ((0, tt) ∷ []))).0
        ((accepts_exact left w).1 key) in
    let accepted' : Accepting right (start_states right) w =
      (run-Accepting right w (start_states right) (IsClosed-closure right ((0, tt) ∷ []))).0
        ((accepts_exact right w).1 key') in
    search_complete left right alphabet _ _ (start_pair left right ∷ [])
      (λ s m. elim m [
        | inl q ↦
            subst (λ (x : LanguagePairState). IsClosed left x.left × IsClosed right x.right) (sym q)
              (IsClosed-closure left ((0, tt) ∷ []), IsClosed-closure right ((0, tt) ∷ []))
        | inr z ↦ absurd z
      ])
      (λ states others v m shared. elim m [
        | inl q ↦ (
          start_pair left right,
          inl refl,
          v,
          Shared-of_key left right alphabet (start_pair left right) states others v (sym q) shared,
          omega arith,
        )
        | inr z ↦ absurd z
      ])
      e (start_states left) (start_states right) w (inl refl)
      (key-IsSpelled left right w key, accepted, accepted')

intersection_example_ends :
    (left right : Template)
    → (result : Option Bytes) × (intersection_example left right ≡ some result)
unfolding intersection_example
intersection_example_ends left right =
    let l = new_tier_language left in
    let r = new_tier_language right in
    search_ends left right (language_alphabet (l ∷ r ∷ [])) (example_fuel l r) 0 _
      (start_pair left right ∷ [])
      (
        ((λ m. m), tt),
        (λ k m. elim m [
          | inl e ↦
              subst (λ x. Member x (all_keys l r)) (sym e)
                (Member-all_keys l r (start_states left) (start_states right) (start-AreStates left)
                  (start-AreStates right))
          | inr z ↦ absurd z
        ]),
        refl,
      )
      (omega (arith, length-all_keys l r))

-- For two templates whose texts are ASCII, intersectionExample ends within as many rounds as there are
-- pairs of sets of states, and one more. An example that it returns is a key of both templates, and
-- where it returns none the templates have no key in common.
pub intersection_example_exact :
    (left right : Template)
    → IsAscii (left.prefix ++ left.suffix)
    → IsAscii (right.prefix ++ right.suffix)
    → (result : Option Bytes) × (intersection_example left right ≡ some result)
      × IsOverlap left right result
intersection_example_exact left right ascii_left ascii_right =
    let (result, e) = intersection_example_ends left right in (result, e, overlap result e)
  where
    overlap :
        (result : Option Bytes)
        → intersection_example left right ≡ some result
        → IsOverlap left right result
    overlap none e = intersection_example_complete left right e
    overlap (some example) e =
        intersection_example_sound left right ascii_left ascii_right example e
