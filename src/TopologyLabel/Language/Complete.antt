-- ===== src/TopologyLabel/Language/Complete.antt =====
-- The search of `intersectionExample`: a word that two templates share is found.
use unifabric.Common.{
  List, [], ◌∷◌, Map, ℕ, zero, suc, ◌<◌, ◌≤◌, false, ◌&&◌, none, some, length, length-map, keys,
  foldl, Member, ◌==◌, nat_eq, Bool-cases, ◌≡◌, refl, sym, subst, ap, ◌∙◌, inl, inr, arith,
}
use unifabric.TopologyLabel.Types.{Bytes, bytes_eq, Template}
use unifabric.TopologyLabel.Language.{
  TierLanguage, new_tier_language, States, accepts, pair_state_key, LanguagePairState,
  visit_character, search_example,
}
use unifabric.TopologyLabel.Language.Accepts.States.{
  Accepting, IsClosed, Accepting-step, accepts-Accepting,
}
use unifabric.TopologyLabel.Language.Keys.{SameStates, pair_state_key-SameStates}
use unifabric.TopologyLabel.Language.Search.{Search, key_of_pair, next_of, are_empty}
use unifabric.TopologyLabel.Language.Rounds.{AllClosed, visits-Opened}

Accepting-SameStates :
    (t : Template) (states others : States) (w : Bytes)
    → SameStates states others
    → Accepting t states w
    → Accepting t others w
Accepting-SameStates t states others w same (s, m, a) = (s, same s m, a)

length_of_Member : {A : Type 0} (a : A) (xs : List A) → Member a xs → (length xs == 0) ≡ false
length_of_Member a [] m = absurd m
length_of_Member a (x ∷ xs) m = ground arith

length-keys : (states : States) → (length states == 0) ≡ (length (keys states) == 0)
length-keys states = ap (λ n. n == 0) (sym (length-map (λ (e : ℕ × Unit {0}). e.0) states))

module _ (left right : Template) (alphabet : List ℕ) where
  abbrev l : TierLanguage
  l = new_tier_language left

  abbrev r : TierLanguage
  r = new_tier_language right

  abbrev pub IsSpelled : Bytes → Type 0
  IsSpelled w = (c : ℕ) → Member c w → Member c alphabet

  -- a word that leads from both sets of states to the accepting ones
  abbrev pub Shared : States → States → Bytes → Type 0
  Shared states others w = IsSpelled w × Accepting left states w × Accepting right others w

  -- Where the states behind a visited key share a word, a pair in the queue shares one that is no longer.
  abbrev pub IsComplete : Search → Type 0
  IsComplete v =
      (states others : States) (w : Bytes)
      → Member (pair_state_key states others) (keys (v.0))
      → Shared states others w
      → (s : LanguagePairState) × Member s (v.1)
        × (w' : Bytes) × Shared s.left s.right w'
        × (length w' ≤ length w)

  pub Shared-of_key :
      (s : LanguagePairState) (states others : States) (w : Bytes)
      → key_of_pair s ≡ pair_state_key states others
      → Shared states others w
      → Shared s.left s.right w
  Shared-of_key s states others w e (spelled, a, b) =
      let (p, q) = pair_state_key-SameStates states others s.left s.right (sym e) in
      (
        spelled,
        Accepting-SameStates left states s.left w p a,
        Accepting-SameStates right others s.right w q b,
      )

  not_empty :
      (s : LanguagePairState) (w : Bytes) → Shared s.left s.right w → are_empty left right s ≡ false
  not_empty s w (spelled, (x, m, a), (y, n, b)) =
      let p = length-keys s.left ∙ length_of_Member x (keys s.left) m in
      let q = length-keys s.right ∙ length_of_Member y (keys s.right) n in rw (p, q) refl

  module _ (current : LanguagePairState)
      (closed : IsClosed left current.left × IsClosed right current.right)
      (rejects : (accepts l current.left && accepts r current.right) ≡ false) where
    -- a word that the current pair shares: the next pair shares the rest of it
    next_shares :
        (w : Bytes)
        → Shared current.left current.right w
        → (c : ℕ) × (rest : Bytes) × (w ≡ c ∷ rest)
          × Member c alphabet
          × (let s = next_of left right current c in Shared s.left s.right rest)
    next_shares [] (spelled, a, b) =
        let p = (accepts-Accepting left current.left closed.0).1 a in
        let q = (accepts-Accepting right current.right closed.1).1 b in absurd (ground arith)
    next_shares (c ∷ rest) (spelled, a, b) = (
      c,
      rest,
      refl,
      spelled c (inl refl),
      (
        (λ d m. spelled d (inr m)),
        (Accepting-step left current.left c rest closed.0).1 a,
        (Accepting-step right current.right c rest closed.1).1 b,
      ),
    )

    module _ (visited : Map Bytes (Unit {0})) (queue : List LanguagePairState)
        (complete : IsComplete (visited, current ∷ queue)) where
      abbrev after : Search
      after = foldl (visit_character l r current) (visited, queue) alphabet

      abbrev Served : Bytes → Type 0
      Served w =
          (s : LanguagePairState) × Member s (after.1)
          × (w' : Bytes) × Shared s.left s.right w'
          × (length w' ≤ length w)

      -- down to a pair that is still in the queue, along shorter words
      descend_from :
          (states others : States) (w : Bytes)
          → ((p q : States) (w' : Bytes)
              → length w' < length w
              → Member (pair_state_key p q) (keys (after.0))
              → Shared p q w'
              → Served w')
          → Member (pair_state_key states others) (keys (after.0))
          → Shared states others w
          → Served w
      descend_from states others w deeper m shared =
          let (stay, keep, new, reach, _) =
            visits-Opened left right current alphabet (visited, queue) in
          elim (new (pair_state_key states others) m) [
            | inr (s, i, e) ↦ (s, i, w, Shared-of_key s states others w e shared, omega arith)
            | inl old ↦
                let (s, i, w₁, shared₁, less) = complete states others w old shared in
                elim i [
                  | inr j ↦ (s, stay s j, w₁, shared₁, less)
                  | inl q ↦
                      let (c, rest, e, known, shared₂) =
                        next_shares w₁
                          (subst (λ (x : LanguagePairState). Shared x.left x.right w₁) q shared₁) in
                      let next = next_of left right current c in
                      let found = reach c known (not_empty next rest shared₂) in
                      let long = ap (λ (x : Bytes). length x) e in
                      let (s', i', w', shared', less') =
                        deeper next.left next.right rest (omega (arith, long, less)) found
                          shared₂ in
                      (s', i', w', shared', omega (arith, long, less, less'))
                ]
          ]

      descend :
          (bound : ℕ) (states others : States) (w : Bytes)
          → length w ≤ bound
          → Member (pair_state_key states others) (keys (after.0))
          → Shared states others w
          → Served w
      descend zero states others w short m shared =
          descend_from states others w (λ p q w' less. absurd (omega (arith, less, short))) m shared
      descend (suc bound) states others w short m shared =
          descend_from states others w
            (λ p q w' less k h. descend bound p q w' (omega (arith, less, short)) k h) m shared

      after-IsComplete : IsComplete after
      after-IsComplete states others w m shared =
          descend (length w) states others w (omega arith) m shared

  -- A search that ends without an example has visited no pair that shares a word.
  pub search_complete :
      (fuel : ℕ) (visited : Map Bytes (Unit {0})) (queue : List LanguagePairState)
      → AllClosed left right queue
      → IsComplete (visited, queue)
      → search_example l r alphabet fuel visited queue ≡ some none
      → (states others : States) (w : Bytes) → Member (pair_state_key states others) (keys visited)
      → ¬ Shared states others w
  unfolding search_example
  search_complete zero visited queue closed complete e states others w m shared = cc
  search_complete (suc fuel) visited [] closed complete e states others w m shared =
      let found = complete states others w m shared in absurd (found.1)
  search_complete (suc fuel) visited (current ∷ queue) closed complete e states others w m shared =
      elim (Bool-cases (accepts l current.left && accepts r current.right)) [
        | inl b ↦
            absurd
              (let q : some (some current.example) ≡ some none = rw (b, search_example) at e in cc)
        | inr b ↦
            let next = foldl (visit_character l r current) (visited, queue) alphabet in
            let (stay, keep, new, reach, close) =
              visits-Opened left right current alphabet (visited, queue) in
            search_complete fuel (next.0) (next.1) (close (λ s i. closed s (inr i)))
              (after-IsComplete current (closed current (inl refl)) b visited queue complete)
              (rw (b, search_example) at e) states others w (keep (pair_state_key states others) m)
              shared
      ]
