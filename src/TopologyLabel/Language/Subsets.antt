-- ===== src/TopologyLabel/Language/Subsets.antt =====
-- The keys of the pairs of sets of states, which are at most as many as the rounds of the search.
use unifabric.Common.{
  List, [], ◌∷◌, ◌++◌, map, ℕ, zero, suc, ◌+◌, ◌*◌, ◌^◌, ◌<◌, ◌≤◌, true, false, length,
  length-append, length-map, keys, foldl, sort_by, ltb, Member, Member-append, Member-map,
  Member-sort_by, Distinct, Distinct-keys-put, Increasing, Increasing-sort_by, ==_cases, nat_eq,
  ◌≡◌, refl, sym, subst, ap, ◌∙◌, inl, inr, arith, Option-cases, Bool-cases, some, elem,
  Member-keys-put, foldl_keeps,
}
use unifabric.TopologyLabel.Types.{Bytes, Template}
use unifabric.TopologyLabel.Language.{
  TierLanguage, new_tier_language, States, closure, next_state, add_next, transition,
  pair_state_key, example_fuel,
}
use unifabric.TopologyLabel.Language.Keys.{key_text, pair_state_key-key_text}

-- the increasing lists of numbers from `k` on, below `k + n`
abbrev subsets : ℕ → ℕ → List (List ℕ)
subsets k zero = [] ∷ []
subsets k (suc n) = map (λ l. k ∷ l) (subsets (k + 1) n) ++ subsets (k + 1) n

length-subsets : (n k : ℕ) → length (subsets k n) ≡ 2 ^ n
length-subsets zero k = refl
length-subsets (suc n) k =
    let half = length-subsets n (k + 1) in
    grind (
      arith,
      half,
      length-append (map (λ (l : List ℕ). k ∷ l) (subsets (k + 1) n)) (subsets (k + 1) n),
      length-map (λ (l : List ℕ). k ∷ l) (subsets (k + 1) n),
    )

Member-subsets :
    (n k : ℕ) (xs : List ℕ)
    → Increasing ltb xs
    → ((x : ℕ) → Member x xs → (k ≤ x) × (x < k + n))
    → Member xs (subsets k n)
Member-subsets zero k [] up in_range = inl refl
Member-subsets zero k (x ∷ xs) up in_range = absurd (omega (arith, in_range x (inl refl)))
Member-subsets (suc n) k [] up in_range =
    (Member-append [] (map (λ l. k ∷ l) (subsets (k + 1) n)) (subsets (k + 1) n)).1
      (inr (Member-subsets n (k + 1) [] tt (λ x m. absurd m)))
Member-subsets (suc n) k (x ∷ xs) up in_range =
    let above : (y : ℕ) → Member y xs → x < y = λ y m. let h = up.0 y m in ground arith in
    elim (==_cases x k) [
      | inl (e, b) ↦
          (Member-append (x ∷ xs) (map (λ l. k ∷ l) (subsets (k + 1) n)) (subsets (k + 1) n)).1 (
            inl (
              subst (λ z. Member (z ∷ xs) (map (λ l. k ∷ l) (subsets (k + 1) n))) (sym e)
                (Member-map (λ l. k ∷ l) xs (subsets (k + 1) n)
                  (Member-subsets n (k + 1) xs up.1
                    (λ y m. (omega (arith, above y m, e), omega (arith, in_range y (inr m))))))))
      | inr (ne, b) ↦
          (Member-append (x ∷ xs) (map (λ l. k ∷ l) (subsets (k + 1) n)) (subsets (k + 1) n)).1 (
            inr (
              Member-subsets n (k + 1) (x ∷ xs) up (λ y m. elim m [
                | inl e ↦ (
                  omega (arith, in_range x (inl refl), ne, e),
                  omega (arith, in_range x (inl refl), e),
                )
                | inr i ↦ (
                  omega (arith, above y i, in_range x (inl refl)),
                  omega (arith, in_range y (inr i)),
                )
              ])))
    ]

ltb_irrefl : (a : ℕ) → ltb a a ≡ false
ltb_irrefl a = ground arith

ltb_trans : (a b c : ℕ) → ltb a b ≡ true → ltb b c ≡ true → ltb a c ≡ true
ltb_trans a b c h k = ground arith

ltb_total : (a b : ℕ) → ltb a b ≡ false → ltb b a ≡ false → a ≡ b
ltb_total a b h k = ground arith

-- a text for each pair of two lists
abbrev crossed : List (List ℕ) → List (List ℕ) → List Bytes
crossed [] ys = []
crossed (a ∷ xs) ys = map (key_text a) ys ++ crossed xs ys

length-crossed : (xs ys : List (List ℕ)) → length (crossed xs ys) ≡ length xs * length ys
length-crossed [] ys = omega arith
length-crossed (a ∷ xs) ys =
    let rest = length-crossed xs ys in
    grind
      (arith, rest, length-append (map (key_text a) ys) (crossed xs ys), length-map (key_text a) ys)

Member-crossed :
    (a b : List ℕ) (xs ys : List (List ℕ))
    → Member a xs
    → Member b ys
    → Member (key_text a b) (crossed xs ys)
Member-crossed a b [] ys m n = absurd m
Member-crossed a b (x ∷ xs) ys (inl e) n =
    (Member-append (key_text a b) (map (key_text x) ys) (crossed xs ys)).1 (
      inl (
        subst (λ z. Member (key_text a b) (map (key_text z) ys)) e
          (Member-map (key_text a) b ys n)))
Member-crossed a b (x ∷ xs) ys (inr m) n =
    (Member-append (key_text a b) (map (key_text x) ys) (crossed xs ys)).1
      (inr (Member-crossed a b xs ys m n))

-- distinct states of the automaton
abbrev pub AreStates : TierLanguage → States → Type 0
AreStates n states =
    Distinct (keys states) × ((s : ℕ) → Member s (keys states) → s ≤ n.accept_state)

sorted_subset :
    (n : TierLanguage) (states : States)
    → AreStates n states
    → Member (sort_by ltb (keys states)) (subsets 0 (n.accept_state + 1))
sorted_subset n states (d, small) =
    Member-subsets (n.accept_state + 1) 0 (sort_by ltb (keys states))
      (Increasing-sort_by
        (record { less = ltb; irrefl = ltb_irrefl; trans = ltb_trans; total = ltb_total })
        (keys states) d)
      (λ s m. (omega arith, omega (arith, small s ((Member-sort_by ltb s (keys states)).0 m))))

abbrev pub all_keys : TierLanguage → TierLanguage → List Bytes
all_keys left right =
    crossed (subsets 0 (left.accept_state + 1)) (subsets 0 (right.accept_state + 1))

pub Member-all_keys :
    (left right : TierLanguage) (states others : States)
    → AreStates left states
    → AreStates right others
    → Member (pair_state_key states others) (all_keys left right)
Member-all_keys left right states others h k =
    subst (λ x. Member x (all_keys left right)) (sym (pair_state_key-key_text states others))
      (Member-crossed (sort_by ltb (keys states)) (sort_by ltb (keys others))
        (subsets 0 (left.accept_state + 1)) (subsets 0 (right.accept_state + 1))
        (sorted_subset left states h) (sorted_subset right others k))

pub length-all_keys :
    (left right : TierLanguage) → length (all_keys left right) + 1 ≡ example_fuel left right
length-all_keys left right =
    let both =
      length-crossed (subsets 0 (left.accept_state + 1)) (subsets 0 (right.accept_state + 1)) in
    ap (λ x. x + 1)
      (both
        ∙ ap (λ x. x * length (subsets 0 (right.accept_state + 1)))
            (length-subsets (left.accept_state + 1) 0)
        ∙ ap (λ x. 2 ^ (left.accept_state + 1) * x) (length-subsets (right.accept_state + 1) 0))

module _ (t : Template) where
  abbrev n : TierLanguage
  n = new_tier_language t

  next_state-le : (c s x : ℕ) → next_state n c s ≡ some x → x ≤ n.accept_state
  unfolding next_state new_tier_language
  next_state-le c s x e = ground arith

  closure-AreStates : (states : States) → AreStates n states → AreStates n (closure n states)
  unfolding closure new_tier_language
  closure-AreStates states (d, small) =
      elim (Bool-cases (elem (length t.prefix + 1) (keys states))) [
        | inl b ↦
            rw (b, closure)
              (
                Distinct-keys-put states (length t.prefix + 1 + 1) tt d,
                λ s m. elim ((Member-keys-put states (length t.prefix + 1 + 1) s tt).0 m) [
                  | inl k ↦ small s k
                  | inr e ↦ omega (arith, e)
                ],
              )
        | inr b ↦ rw (b, closure) (d, small)
      ]

  add_next-AreStates :
      (c : ℕ) (states : States) (s : ℕ) → AreStates n states → AreStates n (add_next n c states s)
  unfolding add_next
  add_next-AreStates c states s (d, small) = elim (Option-cases (next_state n c s)) [
    | inl e ↦ rw (e, add_next) (d, small)
    | inr (x, e) ↦
        rw (e, add_next)
          (
            Distinct-keys-put states x tt d,
            λ y m. elim ((Member-keys-put states x y tt).0 m) [
              | inl k ↦ small y k
              | inr q ↦ let b = next_state-le c s x e in subst (λ z. z ≤ n.accept_state) (sym q) b
            ],
          )
  ]

  pub transition-AreStates : (states : States) (c : ℕ) → AreStates n (transition n states c)
  unfolding transition
  transition-AreStates states c = closure-AreStates (foldl (add_next n c) [] (keys states)) (
      foldl_keeps (AreStates n) (add_next n c) (keys states) []
        (λ next s m h. add_next-AreStates c next s h) (tt, λ s m. absurd m))

  pub start-AreStates : AreStates n (closure n ((0, tt) ∷ []))
  unfolding new_tier_language
  start-AreStates =
      closure-AreStates ((0, tt) ∷ [])
        (((λ m. m), tt), λ s m. elim m [ inl e ↦ omega (arith, e) | inr z ↦ absurd z ])
