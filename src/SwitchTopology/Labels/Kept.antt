-- ===== src/SwitchTopology/Labels/Kept.antt =====
-- The maps of `reconcileLabelMap`: the copy of the labels, and the labels that are kept.
use unifabric.Common.{
  String, [], ◌∷◌, Bool, true, false, not, Option, none, some, get, put, keys, get-put_self,
  get-put_ne, Member_of_get, Distinct, string_eq, ==_cases, if◌then◌else◌, foldl, any, filter,
  if_same, Bool-cases, Option-cases, ◌≡◌, ◌≢◌, refl, sym, ap, ◌∙◌, arith, inl, inr,
}
use unifabric.SwitchTopology.Labels.{Labels, copy_labels, remove_labels}

-- a value of a map, or else another
abbrev pub or_else : Option String → Option String → Option String
or_else none other = other
or_else (some v) other = some v

pub get-copied :
    (m acc : Labels) (k : String)
    → Distinct (keys m)
    → get (foldl (λ result (e : String × String). put result (e.0) (e.1)) acc m) k
      ≡ or_else (get m k) (get acc k)
unfolding get
get-copied [] acc k d = refl
get-copied ((j, v) ∷ m) acc k d = elim (==_cases j k) [
  | inl (e, b) ↦ elim (Option-cases (get m k)) [
    | inl n ↦ rw b (
        get-copied m (put acc j v) k d.1
        ∙ ap (λ o. or_else o (get (put acc j v) k)) n
        ∙ (ap (get (put acc j v)) (sym e) ∙ get-put_self acc j v))
    | inr (w, g) ↦ absurd (d.0 (rw e (Member_of_get m k w g)))
  ]
  | inr (ne, b) ↦
      rw b (get-copied m (put acc j v) k d.1 ∙ ap (or_else (get m k)) (get-put_ne acc j k v ne))
]

pub or_else-none : (o : Option String) → or_else o none ≡ o
or_else-none none = refl
or_else-none (some v) = refl

pub get-filter :
    (p : String → Bool) (m : Labels) (k : String)
    → get (filter (λ (e : String × String). not (p (e.0))) m) k ≡ (if p k then none else get m k)
unfolding get filter
get-filter p [] k = ground arith
get-filter p ((j, v) ∷ m) k = elim (==_cases j k) [
  | inl (e, b) ↦ elim (Bool-cases (p j)) [
    | inl q ↦
        let q' : p k ≡ true = ap p (sym e) ∙ q in
        rw (q, q') (get-filter p m k ∙ ap (λ c. if c then none else get m k) q')
    | inr q ↦ let q' : p k ≡ false = ap p (sym e) ∙ q in rw (q, q', b) refl
  ]
  | inr (ne, b) ↦ ground (arith, get-filter p m k, b)
]

-- the label of an object after the removal
abbrev pub kept_label : Labels → Option (String → Bool) → String → Option String
kept_label existing none k = get existing k
kept_label existing (some remove_label) k = if remove_label k then none else get existing k

pub get-remove_labels :
    (existing : Labels) (remove_label : Option (String → Bool)) (k : String)
    → get (remove_labels remove_label existing).labels k ≡ kept_label existing remove_label k
unfolding remove_labels
get-remove_labels existing none k = refl
get-remove_labels existing (some p) k = get-filter p existing k

pub get-copy_labels :
    (m : Labels) (k : String) → Distinct (keys m) → get (copy_labels m) k ≡ get m k
unfolding copy_labels get
get-copy_labels m k d = get-copied m [] k d ∙ or_else-none (get m k)

-- Where nothing is removed every label is kept.
any-get :
    (p : String → Bool) (m : Labels) (k : String)
    → any (λ (e : String × String). p (e.0)) m ≡ false
    → get m k ≢ none
    → p k ≡ false
unfolding any get
any-get p [] k h some_label = absurd (some_label refl)
any-get p ((j, v) ∷ m) k h some_label = elim (==_cases j k) [
  | inl (e, b) ↦ elim (Bool-cases (p j)) [
    | inl q ↦ absurd (let h' = rw q at h in cc)
    | inr q ↦ ap p (sym e) ∙ q
  ]
  | inr (ne, b) ↦ any-get p m k (ground (arith, h)) (rw b at some_label)
]

kept_unchanged :
    (m : Labels) (remove_label : Option (String → Bool)) (k : String)
    → (remove_labels remove_label m).changed ≡ false
    → kept_label m remove_label k ≡ get m k
unfolding remove_labels
kept_unchanged m none k h = refl
kept_unchanged m (some p) k h = elim (Option-cases (get m k)) [
  | inl e ↦ rw e (if_same (p k) none)
  | inr (v, e) ↦
      rw (any-get p m k h (λ n. let x : Option.none ≡ some v = sym n ∙ e in absurd cc)) refl
]

kept_label_by :
    (a b : Labels) (remove_label : Option (String → Bool)) (k : String)
    → get a k ≡ get b k
    → kept_label a remove_label k ≡ kept_label b remove_label k
kept_label_by a b none k e = e
kept_label_by a b (some p) k e = ap (λ o. if p k then none else o) e

module _ (existing : Labels) (remove_label : Option (String → Bool))
    (d : Distinct (keys existing)) where
  -- the map before the loop over the desired labels
  pub get_before :
      (k : String)
      → get (remove_labels remove_label (copy_labels existing)).labels k
        ≡ kept_label existing remove_label k
  get_before k =
      get-remove_labels (copy_labels existing) remove_label k
      ∙ kept_label_by (copy_labels existing) existing remove_label k (get-copy_labels existing k d)

  pub get_before_unchanged :
      (k : String)
      → (remove_labels remove_label (copy_labels existing)).changed ≡ false
      → get (remove_labels remove_label (copy_labels existing)).labels k ≡ get existing k
  get_before_unchanged k h =
      get-remove_labels (copy_labels existing) remove_label k
      ∙ kept_unchanged (copy_labels existing) remove_label k h
      ∙ get-copy_labels existing k d
