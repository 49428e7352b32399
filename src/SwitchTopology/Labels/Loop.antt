-- ===== src/SwitchTopology/Labels/Loop.antt =====
-- The loop of `reconcileLabelMap` over the desired labels.
use unifabric.Common.{
  String, [], ◌∷◌, false, Option, none, some, get, keys, get-put, Member_of_get, Distinct, Member,
  string_eq, ◌==◌, ==_cases, ==_self, if◌then◌else◌, Bool-cases, Option-cases, ◌≡◌, ◌≢◌, refl, sym,
  subst, ap, ◌∙◌, ◌⊎◌, inl, inr,
}
use unifabric.SwitchTopology.Types.{fold_attempt, locked_label, Gives, Gives->>=, Gives-imp}
use unifabric.SwitchTopology.Labels.{Labels, locked_value, Reconciled, set_desired}
use unifabric.SwitchTopology.Labels.Kept.{or_else}

-- a desired label whose key is locked to another value
abbrev pub Conflict : Labels → Labels → Type 0
Conflict labels desired =
    (k : String) × (v : String) × (current : String) × (get desired k ≡ some v)
    × (locked_value labels k ≡ some current)
    × (current ≢ v)

-- what setting one label does
abbrev SetsOne : Reconciled → String → String → Reconciled → Type 0
SetsOne s key value t =
    ((k : String) → get t.labels k ≡ (if key == k then some value else get s.labels k))
    × ((current : String) → locked_value s.labels key ≡ some current → current ≡ value)
    × (t.changed ≡ false → (k : String) → (s.changed ≡ false) × (get t.labels k ≡ get s.labels k))

locked_value_cases :
    (labels : Labels) (key : String)
    → (locked_value labels key ≡ none)
      ⊎ ((current : String) × (locked_value labels key ≡ some current)
          × (get labels key ≡ some current))
unfolding locked_value
locked_value_cases labels key = elim (Option-cases (get labels key)) [
  | inl e ↦ inl (rw (e, locked_value) refl)
  | inr (current, e) ↦ elim (Bool-cases (current == "")) [
    | inl b ↦ inl (rw (e, b, locked_value) refl)
    | inr b ↦ inr (current, rw (e, b, locked_value) refl, e)
  ]
]

set_desired-SetsOne :
    (s : Reconciled) (key value : String)
    → Gives
        (SetsOne s key value)
        (λ e.
          (e ≡ locked_label)
          × ((current : String) × (locked_value s.labels key ≡ some current) × (current ≢ value)))
        (set_desired s (key, value))
unfolding set_desired
set_desired-SetsOne s key value = elim (locked_value_cases s.labels key) [
  | inl e ↦
      rw (e, Gives)
        (
          (λ k. get-put s.labels key k value),
          (λ c h. absurd (let x : Option.none ≡ some c = sym e ∙ h in cc)),
          λ h. absurd cc,
        )
  | inr (current, e, g) ↦ elim (==_cases current value) [
    | inl (q, b) ↦
        rw (e, b, Gives)
          (
            (λ k. elim (==_cases key k) [
              | inl (e', b') ↦ rw b' (ap (get s.labels) (sym e') ∙ g ∙ ap some q)
              | inr (n, b') ↦ rw b' refl
            ]),
            (λ c h.
                let x : Option.some current ≡ some c = sym e ∙ h in
                let y : current ≡ c = cc in sym y ∙ q),
            λ h k. (h, refl),
          )
    | inr (ne, b) ↦ rw (e, b, Gives) (refl, (current, e, ne))
  ]
]

-- What the loop over the desired labels gives from the state `s`.
abbrev pub SetsAll : Reconciled → Labels → Reconciled → Type 0
SetsAll s desired t =
    ((k : String) → get t.labels k ≡ or_else (get desired k) (get s.labels k))
    × (¬ Conflict s.labels desired)
    × (t.changed ≡ false → (k : String) → (s.changed ≡ false) × (get t.labels k ≡ get s.labels k))

locked_value_by :
    (a b : Labels) (k : String) → get a k ≡ get b k → locked_value a k ≡ locked_value b k
unfolding locked_value
locked_value_by a b k e = rw (e, locked_value) refl

module _ (s t : Reconciled) (key value : String) (desired : Labels)
    (d : Distinct (keys ((key, value) ∷ desired))) (one : SetsOne s key value t) where
  other_key : (k v : String) → get desired k ≡ some v → key ≢ k
  other_key k v g e =
      d.0 (subst (λ j. Member j (keys desired)) (sym e) (Member_of_get desired k v g))

  same_label : (k : String) → key ≢ k → get t.labels k ≡ get s.labels k
  same_label k ne =
      one.0 k ∙ elim (==_cases key k) [ inl (e, b) ↦ absurd (ne e) | inr (n, b) ↦ rw b refl ]

  get_cons : (k : String) → key ≢ k → get ((key, value) ∷ desired) k ≡ get desired k
  unfolding get
  get_cons k ne = elim (==_cases key k) [ inl (e, b) ↦ absurd (ne e) | inr (n, b) ↦ rw b refl ]

  earlier-Conflict : Conflict t.labels desired → Conflict s.labels ((key, value) ∷ desired)
  earlier-Conflict (k, v, current, g, l, ne) =
      let other = other_key k v g in
      (
        k,
        v,
        current,
        get_cons k other ∙ g,
        locked_value_by s.labels t.labels k (sym (same_label k other)) ∙ l,
        ne,
      )

  no-Conflict : ¬ Conflict t.labels desired → ¬ Conflict s.labels ((key, value) ∷ desired)
  unfolding get
  no-Conflict none_later (k, v, current, g, l, ne) = elim (==_cases key k) [
    | inl (e, b) ↦
        let same : value ≡ v = let g' : some value ≡ some v = rw b at g in cc in
        ne (one.1 current (ap (locked_value s.labels) e ∙ l) ∙ same)
    | inr (n, b) ↦ none_later (
      k,
      v,
      current,
      sym (get_cons k n) ∙ g,
      locked_value_by t.labels s.labels k (same_label k n) ∙ l,
      ne,
    )
  ]

  all_labels :
      (u : Reconciled) (k : String)
      → get u.labels k ≡ or_else (get desired k) (get t.labels k)
      → get u.labels k ≡ or_else (get ((key, value) ∷ desired) k) (get s.labels k)
  unfolding get
  all_labels u k q = elim (==_cases key k) [
    | inl (e, b) ↦ elim (Option-cases (get desired k)) [
      | inl n ↦ q ∙ ap (λ o. or_else o (get t.labels k)) n ∙ one.0 k ∙ rw b refl
      | inr (v, g) ↦ absurd (other_key k v g e)
    ]
    | inr (n, b) ↦ q ∙ ap (or_else (get desired k)) (same_label k n) ∙ rw b refl
  ]

pub desired_loop :
    (desired : Labels) (s : Reconciled)
    → Distinct (keys desired)
    → Gives
        (SetsAll s desired)
        (λ e. (e ≡ locked_label) × Conflict s.labels desired)
        (fold_attempt set_desired s desired)
unfolding fold_attempt get
desired_loop [] s d =
    ((λ k. refl), (λ c. let (k, v, current, g, l, ne) = c in absurd cc), λ h k. (h, refl))
desired_loop ((key, value) ∷ desired) s d =
    Gives->>= (SetsOne s key value) (SetsAll s ((key, value) ∷ desired)) _
      (set_desired s (key, value)) _
      (Gives-imp _ _ _ _ (set_desired s (key, value)) (λ t one. one)
        (λ e x.
          let (current, l, ne) = x.1 in (x.0, (key, value, current, rw (==_self key) refl, l, ne)))
        (set_desired-SetsOne s key value))
      (λ t one.
        Gives-imp (SetsAll t desired) _ _ _ (fold_attempt set_desired t desired)
          (λ u all. (
            (λ k. all_labels s t key value desired d one u k (all.0 k)),
            no-Conflict s t key value desired d one all.1,
            λ h k.
                let later = all.2 h k in
                let earlier = one.2 later.0 k in (earlier.0, later.1 ∙ earlier.1),
          ))
          (λ e x. (x.0, earlier-Conflict s t key value desired d one x.1))
          (desired_loop desired t d.1))
