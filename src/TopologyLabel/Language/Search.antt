-- ===== src/TopologyLabel/Language/Search.antt =====
-- The search of `intersectionExample` takes no more rounds than there are pairs of sets of states.
use unifabric.Common.{
  List, [], ◌∷◌, ◌++◌, Map, ℕ, zero, suc, ◌+◌, ◌<◌, Bool, true, ◌&&◌, ◌||◌, Option, none, some,
  length, length-append, keys, put, foldl, elem, elem_iff, Member, Member-keys-put, Distinct,
  Distinct-keys-put, length-le_of_Distinct, ◌==◌, nat_eq, ==_iff, Bool-cases, ◌≡◌, ◌⊎◌, refl, sym,
  subst, inl, inr, arith, foldl_keeps,
}
use unifabric.TopologyLabel.Types.{Bytes, bytes_eq, Template}
use unifabric.TopologyLabel.Language.{
  TierLanguage, new_tier_language, transition, accepts, text_of_byte, pair_state_key,
  LanguagePairState, visit_character, search_example,
}
use unifabric.TopologyLabel.Language.Subsets.{transition-AreStates, all_keys, Member-all_keys}

abbrev pub Search : Type 0
Search = Map Bytes (Unit {0}) × List LanguagePairState

abbrev pub key_of_pair : LanguagePairState → Bytes
key_of_pair s = pair_state_key s.left s.right

length-put :
    (m : Map Bytes (Unit {0})) (k : Bytes)
    → ¬ Member k (keys m)
    → length (keys (put m k tt)) ≡ length (keys m) + 1
unfolding put
length-put [] k a = refl
length-put ((j, v) ∷ m) k a = ground (arith, ==_iff j k, length-put m k, a)

module _ (left right : Template) where
  abbrev l : TierLanguage
  l = new_tier_language left

  abbrev r : TierLanguage
  r = new_tier_language right

  abbrev pub next_of : LanguagePairState → ℕ → LanguagePairState
  next_of current c = record {
    left = transition l current.left c;
    right = transition r current.right c;
    example = current.example ++ text_of_byte c;
  }

  abbrev pub are_empty : LanguagePairState → Bool
  are_empty s = length s.left == 0 || length s.right == 0

  abbrev pub with_pair : Search → LanguagePairState → Search
  with_pair (visited, queue) s = (put visited (key_of_pair s) tt, queue ++ s ∷ [])

  pub visit_cases :
      (current : LanguagePairState) (v : Search) (c : ℕ)
      → let s = next_of current c in
        ((visit_character l r current v c ≡ v)
          × ((are_empty s ≡ true) ⊎ Member (key_of_pair s) (keys (v.0))))
        ⊎ ((visit_character l r current v c ≡ with_pair v s)
            × (¬ Member (key_of_pair s) (keys (v.0))))
  unfolding visit_character
  visit_cases current (visited, queue) c =
      let s = next_of current c in
      elim (Bool-cases (are_empty s)) [
        | inl b ↦ inl (rw (b, visit_character) refl, inl b)
        | inr b ↦ elim (Bool-cases (elem (key_of_pair s) (keys visited))) [
          | inl d ↦
              inl (
                rw (b, d, visit_character) refl,
                inr ((elem_iff (key_of_pair s) (keys visited)).0 d),
              )
          | inr d ↦ inr (
            rw (b, d, visit_character) refl,
            λ m. let t = (elem_iff (key_of_pair s) (keys visited)).1 m in absurd cc,
          )
        ]
      ]

  -- the visited keys are distinct keys of pairs, and each new one is in the queue
  abbrev pub IsSearch : ℕ → Search → Type 0
  IsSearch surplus v =
      Distinct (keys (v.0))
      × ((k : Bytes) → Member k (keys (v.0)) → Member k (all_keys l r))
      × (length (v.1) + surplus ≡ length (keys (v.0)))

  visit_character-IsSearch :
      (current : LanguagePairState) (surplus : ℕ) (v : Search) (c : ℕ)
      → IsSearch surplus v
      → IsSearch surplus (visit_character l r current v c)
  visit_character-IsSearch current surplus v c (d, within, count) =
      let s = next_of current c in
      elim (visit_cases current v c) [
        | inl (e, _) ↦ subst (IsSearch surplus) (sym e) (d, within, count)
        | inr (e, a) ↦ subst (IsSearch surplus) (sym e) (
          Distinct-keys-put (v.0) (key_of_pair s) tt d,
          (λ k m. elim ((Member-keys-put (v.0) (key_of_pair s) k tt).0 m) [
            | inl i ↦ within k i
            | inr q ↦
                subst (λ x. Member x (all_keys l r)) (sym q)
                  (Member-all_keys l r s.left s.right (transition-AreStates left current.left c)
                    (transition-AreStates right current.right c))
          ]),
          omega (arith, count, length-put (v.0) (key_of_pair s) a, length-append (v.1) (s ∷ [])),
        )
      ]

  -- The fuel is enough: a round takes one pair from the queue, and no key enters twice.
  pub search_ends :
      (alphabet : List ℕ) (fuel surplus : ℕ) (visited : Map Bytes (Unit {0}))
      (queue : List LanguagePairState)
      → IsSearch surplus (visited, queue)
      → length (all_keys l r) < fuel + surplus
      → (result : Option Bytes) × (search_example l r alphabet fuel visited queue ≡ some result)
  unfolding search_example
  search_ends alphabet zero surplus visited queue (d, within, count) enough =
      absurd
        (omega (arith, enough, count, length-le_of_Distinct (keys visited) (all_keys l r) d within))
  search_ends alphabet (suc fuel) surplus visited [] h enough = (none, refl)
  search_ends alphabet (suc fuel) surplus visited (current ∷ queue) (d, within, count) enough =
      elim (Bool-cases (accepts l current.left && accepts r current.right)) [
        | inl b ↦ (some current.example, rw (b, search_example) refl)
        | inr b ↦
            let next = foldl (visit_character l r current) (visited, queue) alphabet in
            let (result, e) =
              search_ends alphabet fuel (surplus + 1) (next.0) (next.1)
                (foldl_keeps (IsSearch (surplus + 1)) (visit_character l r current) alphabet
                  (visited, queue) (λ v c m h. visit_character-IsSearch current (surplus + 1) v c h)
                  (d, within, omega (arith, count)))
                (omega (arith, enough)) in
            (result, rw (b, search_example) e)
      ]
