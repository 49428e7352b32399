-- ===== src/SwitchTopology/Labels/Exact.antt =====
-- What `reconcileLabelMap` returns.
use unifabric.Common.{
  String, Bool, false, Option, some, get, keys, Distinct, string_eq, ==_cases, Option-cases, ◌≡◌,
  ◌≢◌, ◌↔◌, sym, ap, ◌∙◌, inl, inr,
}
use unifabric.SwitchTopology.Types.{fold_attempt, locked_label, Gives, Gives-imp}
use unifabric.SwitchTopology.Labels.{
  Labels, copy_labels, locked_value, set_desired, remove_labels, reconcile_label_map,
}
use unifabric.SwitchTopology.Labels.Kept.{or_else, kept_label, get_before, get_before_unchanged}
use unifabric.SwitchTopology.Labels.Loop.{Conflict, SetsAll, desired_loop}

-- a desired label whose key has another value already, which is not empty and is not removed
abbrev pub IsLocked : Labels → Labels → Option (String → Bool) → Type 0
IsLocked existing desired remove_label =
    (k : String) × (v : String) × (current : String) × (get desired k ≡ some v)
    × (kept_label existing remove_label k ≡ some current)
    × (current ≢ "")
    × (current ≢ v)

locked_value_iff :
    (labels : Labels) (k current : String)
    → (locked_value labels k ≡ some current) ↔ ((get labels k ≡ some current) × (current ≢ ""))
unfolding locked_value
locked_value_iff labels k current = elim (Option-cases (get labels k)) [
  | inl e ↦ rw (e, locked_value) ((λ h. absurd cc), λ h. absurd cc)
  | inr (v, e) ↦ elim (==_cases v "") [
    | inl (q, b) ↦
        rw (e, b, locked_value)
          (
            (λ h. absurd cc),
            λ h. let x : v ≡ current = let y = h.0 in cc in absurd (h.1 (sym x ∙ q)),
          )
    | inr (ne, b) ↦
        rw (e, b, locked_value) ((λ h. (h, λ q. ne (let x : v ≡ current = cc in x ∙ q))), λ h. h.0)
  ]
]

module _ (existing desired : Labels) (remove_label : Option (String → Bool))
    (d : Distinct (keys existing)) where
  abbrev before : Labels
  before = (remove_labels remove_label (copy_labels existing)).labels

  Conflict-iff : Conflict before desired ↔ IsLocked existing desired remove_label
  Conflict-iff = (
    λ c.
        let (k, v, current, g, l, ne) = c in
        let (q, nonempty) = (locked_value_iff before k current).0 l in
        (k, v, current, g, sym (get_before existing remove_label d k) ∙ q, nonempty, ne),
    λ c.
        let (k, v, current, g, q, nonempty, ne) = c in
        (
          k,
          v,
          current,
          g,
          (locked_value_iff before k current).1
              (get_before existing remove_label d k ∙ q, nonempty),
          ne,
        ),
  )

-- reconcileLabelMap, for label maps with distinct keys: it returns an error exactly where some desired
-- label is locked, that is, the object keeps another, nonempty value under its key; the error is the
-- one of a locked label. Otherwise each key has the desired value, or else its old value unless the
-- key was removed; and where `changed` is false every label is as it was.
pub reconcile_label_map_exact :
    (existing desired : Labels) (remove_label : Option (String → Bool))
    → Distinct (keys existing)
    → Distinct (keys desired)
    → Gives
        (λ t.
          ((k : String)
            → get t.labels k ≡ or_else (get desired k) (kept_label existing remove_label k))
          × (¬ IsLocked existing desired remove_label)
          × (t.changed ≡ false → (k : String) → get t.labels k ≡ get existing k))
        (λ e. (e ≡ locked_label) × IsLocked existing desired remove_label)
        (reconcile_label_map existing desired remove_label)
unfolding reconcile_label_map
reconcile_label_map_exact existing desired remove_label d d' =
    let start = remove_labels remove_label (copy_labels existing) in
    let conflict = Conflict-iff existing desired remove_label d in
    Gives-imp (SetsAll start desired) _ _ _ (fold_attempt set_desired start desired)
      (λ t all. (
        (λ k. all.0 k ∙ ap (or_else (get desired k)) (get_before existing remove_label d k)),
        (λ locked. all.1 (conflict.1 locked)),
        λ h k.
            let later = all.2 h k in
            later.1 ∙ get_before_unchanged existing remove_label d k later.0,
      ))
      (λ e x. (x.0, conflict.0 x.1)) (desired_loop desired start d')
