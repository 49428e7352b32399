-- ===== src/Status/Labels/Exact.antt =====
-- What `labelsByTier` returns.
use unifabric.Common.{
  String, List, [], ◌∷◌, Map, ℕ, some, get, get_or, put, keys, sort_by, string_less, value_or,
  string_eq, nat_eq, Member, Member-sort_by, Option-cases, ==_cases, get-put, get-put_self, ◌≡◌,
  ◌≢◌, ◌↔◌, ◌⊎◌, inl, inr, refl, sym, ap, ◌∙◌, subst, arith, ⊎_elim,
}
use unifabric.Status.Types.{
  TierMatcher, BuildError, Outcome, Outcome-imp, Outcome-fold_result, conflicting_labels,
}
use unifabric.Status.Labels.{add_label, labels_by_tier}

module _ (match_tier : TierMatcher) (labels : Map String String) where
  -- `key` is a label of `tier` with the value `value`
  abbrev pub Labels : String → ℕ → String → Type 0
  Labels key tier value =
      Member key (keys labels)
      × (match_tier key ≡ some tier)
      × (get_or labels key "" ≡ value)
      × (value ≢ "")

  -- the error, with two labels of one tier that have different values
  abbrev pub IsConflict : BuildError → Type 0
  IsConflict e =
      (e ≡ conflicting_labels)
      × ((j : String) × (k : String) × (tier : ℕ) × (u : String) × (v : String) × Labels j tier u
          × Labels k tier v
          × (u ≢ v))

  -- what the loop has when `left` are the keys that it has not read
  record Read (left : List String) (result : Map ℕ String) : Type 0 where
    pub within : (key : String) → Member key left → Member key (keys labels)
    pub sound :
        (tier : ℕ) (value : String)
        → get result tier ≡ some value
        → (key : String) × Labels key tier value
    pub complete :
        (key : String) (tier : ℕ) (value : String)
        → Labels key tier value
        → (get result tier ≡ some value) ⊎ Member key left

  module _ (key : String) (left : List String) (result : Map ℕ String)
      (r : Read (key ∷ left) result) where
    -- a key that adds nothing
    Read-skip : ((tier : ℕ) (value : String) → Labels key tier value → ⊥) → Read left result
    Read-skip no_label = record {
      within = λ k m. r.within k (inr m);
      sound = r.sound;
      complete = λ k tier value l. elim (r.complete k tier value l) [
        | inl e ↦ inl e
        | inr (inl e) ↦ absurd (no_label tier value (subst (λ k. Labels k tier value) e l))
        | inr (inr m) ↦ inr m
      ];
    }

    Read-put :
        (tier : ℕ) (value : String)
        → Labels key tier value
        → value_or value (get result tier) ≡ value
        → Read left (put result tier value)
    Read-put tier value l same = record {
      within = λ k m. r.within k (inr m);
      sound = λ t v e. elim (==_cases tier t) [
        | inl (p, b) ↦
            let q : value ≡ v = ground (arith, get-put result tier t value, e, b) in
            (key, rw (← p, ← q) l)
        | inr (p, b) ↦ r.sound t v (ground (arith, get-put result tier t value, e, b))
      ];
      complete = λ k t v m. elim (r.complete k t v m) [
        | inl e ↦ inl (elim (==_cases tier t) [
          | inl (p, b) ↦
              rw (get-put result tier t value, b)
                (ap some (sym same ∙ ap (value_or value) (ap (get result) p ∙ e)))
          | inr (p, b) ↦ rw (get-put result tier t value, b) e
        ])
        | inr (inl e) ↦
            let (_, at_key, value_key, _) = subst (λ k. Labels k t v) e m in
            let (_, at, own, _) = l in
            let p : tier ≡ t = ground (arith, at_key, at) in
            let q : value ≡ v = sym own ∙ value_key in
            inl (rw (← p, ← q) (get-put_self result tier value))
        | inr (inr k) ↦ inr k
      ];
    }

  Outcome-add_label :
      (key : String) (left : List String) (result : Map ℕ String)
      → Read (key ∷ left) result
      → Outcome (Read left) IsConflict (add_label match_tier labels result key)
  unfolding add_label
  Outcome-add_label key left result r = elim (Option-cases (match_tier key)) [
    | inl e ↦ rw (e, add_label) (Read-skip key left result r (λ tier value (_, h, _, _). cc (e, h)))
    | inr (tier, e) ↦
        let value = get_or labels key "" in
        elim (==_cases value "") [
          | inl (p, b) ↦
              rw (e, b, add_label)
                (Read-skip key left result r (λ t v (_, _, g, ne). ne (sym g ∙ p)))
          | inr (p, b) ↦ elim (==_cases (value_or value (get result tier)) value) [
            | inl (q, c) ↦
                rw (e, b, c, add_label)
                  (Read-put key left result r tier value (r.within key (inl refl), e, refl, p) q)
            | inr (q, c) ↦
                rw (e, b, c, add_label)
                  (elim (Option-cases (get result tier)) [
                    | inl g ↦ absurd (q (ap (value_or value) g))
                    | inr (other, g) ↦
                        let (j, l) = r.sound tier other g in
                        let k : Labels key tier value = (r.within key (inl refl), e, refl, p) in
                        (
                          refl,
                          (
                            j,
                            key,
                            tier,
                            other,
                            value,
                            l,
                            k,
                            λ same. q (ap (value_or value) g ∙ same),
                          ),
                        )
                  ])
          ]
        ]
  ]

  Outcome-Read : Outcome (Read []) IsConflict (labels_by_tier match_tier labels)
  unfolding labels_by_tier get
  Outcome-Read =
      Outcome-fold_result Read IsConflict (add_label match_tier labels) Outcome-add_label
        (sort_by string_less (keys labels)) []
        (record {
          within = λ key m. (Member-sort_by string_less key (keys labels)).0 m;
          sound = λ tier value e. cc;
          complete = λ key tier value l. inr ((Member-sort_by string_less key (keys labels)).1 l.0);
        })

  -- `labelsByTier` returns the map from each tier to the one value, not empty, that the labels of that
  -- tier have, or the error of conflicting labels, and then two labels of one tier have different
  -- values that are not empty.
  pub labels_by_tier_exact :
      Outcome
        (λ result.
          (tier : ℕ) (value : String)
          → (get result tier ≡ some value) ↔ ((key : String) × Labels key tier value))
        IsConflict
        (labels_by_tier match_tier labels)
  labels_by_tier_exact =
      Outcome-imp (Read []) _ IsConflict IsConflict
        (λ result r tier value. (
          r.sound tier value,
          λ (key, l). ⊎_elim (λ e. e) (λ m. absurd m) (r.complete key tier value l),
        ))
        (λ e h. h) (labels_by_tier match_tier labels) Outcome-Read
