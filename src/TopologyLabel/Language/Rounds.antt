-- ===== src/TopologyLabel/Language/Rounds.antt =====
-- One round of the search of `intersectionExample`: the pairs that it adds.
use unifabric.Common.{
  List, [], ◌∷◌, ℕ, false, keys, put, foldl, Member, Member-append, Member-keys-put, nat_eq, ◌≡◌,
  ◌⊎◌, refl, sym, subst, inl, inr,
}
use unifabric.TopologyLabel.Types.{Bytes, bytes_eq, Template}
use unifabric.TopologyLabel.Language.{
  TierLanguage, new_tier_language, LanguagePairState, visit_character,
}
use unifabric.TopologyLabel.Language.Accepts.States.{IsClosed, IsClosed-transition}
use unifabric.TopologyLabel.Language.Search.{Search, key_of_pair, next_of, are_empty, visit_cases}

module _ (left right : Template) where
  abbrev l : TierLanguage
  l = new_tier_language left

  abbrev r : TierLanguage
  r = new_tier_language right

  abbrev pub AllClosed : List LanguagePairState → Type 0
  AllClosed queue =
      (s : LanguagePairState) → Member s queue → IsClosed left s.left × IsClosed right s.right

  -- what the loop over the characters `cs` makes of `v`
  abbrev pub Opened : LanguagePairState → List ℕ → Search → Search → Type 0
  Opened current cs v after =
      ((s : LanguagePairState) → Member s (v.1) → Member s (after.1))
      × ((k : Bytes) → Member k (keys (v.0)) → Member k (keys (after.0)))
      × ((k : Bytes)
          → Member k (keys (after.0))
          → Member k (keys (v.0))
            ⊎ ((s : LanguagePairState) × Member s (after.1) × (key_of_pair s ≡ k)))
      × ((c : ℕ)
          → Member c cs
          → are_empty left right (next_of left right current c) ≡ false
          → Member (key_of_pair (next_of left right current c)) (keys (after.0)))
      × (AllClosed (v.1) → AllClosed (after.1))

  visit-Opened :
      (current : LanguagePairState) (v : Search) (c : ℕ)
      → Opened current (c ∷ []) v (visit_character l r current v c)
  visit-Opened current v c =
      let s = next_of left right current c in
      elim (visit_cases left right current v c) [
        | inl (e, why) ↦ subst (Opened current (c ∷ []) v) (sym e) (
          (λ x m. m),
          (λ k m. m),
          (λ k m. inl m),
          (λ d i full. elim i [
            | inl q ↦ elim why [
              | inl b ↦ absurd (
                  let z =
                    subst (λ x. are_empty left right (next_of left right current x) ≡ false) q
                      full in
                  cc)
              | inr m ↦
                  subst (λ x. Member (key_of_pair (next_of left right current x)) (keys (v.0)))
                    (sym q) m
            ]
            | inr z ↦ absurd z
          ]),
          λ closed. closed,
        )
        | inr (e, fresh) ↦ subst (Opened current (c ∷ []) v) (sym e) (
          (λ x m. (Member-append x (v.1) (s ∷ [])).1 (inl m)),
          (λ k m. (Member-keys-put (v.0) (key_of_pair s) k tt).1 (inl m)),
          (λ k m. elim ((Member-keys-put (v.0) (key_of_pair s) k tt).0 m) [
            | inl i ↦ inl i
            | inr q ↦ inr (s, (Member-append s (v.1) (s ∷ [])).1 (inr (inl refl)), sym q)
          ]),
          (λ d i full. elim i [
            | inl q ↦
                subst
                  (λ x.
                    Member (key_of_pair (next_of left right current x))
                      (keys (put (v.0) (key_of_pair s) tt)))
                  (sym q) ((Member-keys-put (v.0) (key_of_pair s) (key_of_pair s) tt).1 (inr refl))
            | inr z ↦ absurd z
          ]),
          λ closed x m. elim ((Member-append x (v.1) (s ∷ [])).0 m) [
            | inl i ↦ closed x i
            | inr (inl q) ↦
                subst (λ (y : LanguagePairState). IsClosed left y.left × IsClosed right y.right)
                  (sym q)
                  (
                    IsClosed-transition left current.left c,
                    IsClosed-transition right current.right c,
                  )
            | inr (inr z) ↦ absurd z
          ],
        )
      ]

  pub visits-Opened :
      (current : LanguagePairState) (cs : List ℕ) (v : Search)
      → Opened current cs v (foldl (visit_character l r current) v cs)
  visits-Opened current [] v =
      ((λ x m. m), (λ k m. m), (λ k m. inl m), (λ c z. absurd z), λ closed. closed)
  visits-Opened current (c ∷ cs) v =
      let (stay, keep, new, reach, closed) = visit-Opened current v c in
      let (stay', keep', new', reach', closed') =
        visits-Opened current cs (visit_character l r current v c) in
      (
        (λ x m. stay' x (stay x m)),
        (λ k m. keep' k (keep k m)),
        (λ k m. elim (new' k m) [
          | inl i ↦ elim (new k i) [ inl j ↦ inl j | inr (s, j, e) ↦ inr (s, stay' s j, e) ]
          | inr found ↦ inr found
        ]),
        (λ d i full. elim i [ inl q ↦ keep' _ (reach d (inl q) full) | inr j ↦ reach' d j full ]),
        λ h. closed' (closed h),
      )
