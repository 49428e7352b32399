-- ===== src/SwitchTopology/Apply/Sets.antt =====
-- Applying a plan that fits the objects sets every label of the plan.
use unifabric.Common.{
  String, List, [], ◌∷◌, Bool, false, Option, none, some, get, get_or, keys, value_or, get-put_self,
  get-put_ne, get_of_Member, if_keeps, Member_of_get, string_eq, ==_cases, Member, Distinct,
  sort_by, string_less, Member-sort_by, Distinct-sort_by, Bool-cases, ◌≡◌, ◌≢◌, refl, sym, subst,
  ap, ◌∙◌, inl, inr,
}
use unifabric.SwitchTopology.Types.{
  Attempt, fails, fold_attempt, Gives, Gives->>=, Gives-imp, Gives-fold_attempt, missing_node,
  missing_switch, write_failed,
}
use unifabric.SwitchTopology.Labels.{Labels, Reconciled, reconcile_label_map}
use unifabric.SwitchTopology.Labels.Kept.{or_else}
use unifabric.SwitchTopology.Labels.Exact.{reconcile_label_map_exact}
use unifabric.SwitchTopology.Plan.{LabelsByName, AutoLabelPlan}
use unifabric.SwitchTopology.Plan.Fits.{FitsObject, Fits}
use unifabric.SwitchTopology.Apply.{sorted_nested_map_keys, patch_labels, apply_labels, apply_plan}

-- every label map of the objects has distinct keys
abbrev pub AreObjects : LabelsByName → Type 0
AreObjects objects =
    (name : String) (labels : Labels) → get objects name ≡ some labels → Distinct (keys labels)

-- the object has the labels
abbrev pub HasLabels : Option Labels → Labels → Type 0
HasLabels own labels =
    (have : Labels) × (own ≡ some have)
    × ((key : String) (value : String) → get labels key ≡ some value → get have key ≡ some value)

-- the objects have all labels that are desired
abbrev pub HaveAll : LabelsByName → LabelsByName → Type 0
HaveAll desired objects =
    (name : String) (labels : Labels)
    → get desired name ≡ some labels
    → HasLabels (get objects name) labels

module _ (accepts : String → Labels → Bool) where
  patch_labels-HasLabels :
      (objects : LabelsByName) (name : String) (labels have : Labels)
      → get objects name ≡ some have
      → Distinct (keys have)
      → FitsObject (some have) labels
      → Gives
          (λ t.
            HasLabels (get t name) labels
            × ((other : String) → name ≢ other → get t other ≡ get objects other))
          (λ e. e ≡ write_failed)
          (patch_labels accepts objects name have labels none)
  unfolding patch_labels
  patch_labels-HasLabels objects name labels have g d (have', e, d', free) =
      let same : have' ≡ have = let x : Option.some have ≡ some have' = e in cc in
      Gives->>= _ _ (λ e. e ≡ write_failed) (reconcile_label_map have labels none) _
        (Gives-imp _
          (λ (r : Reconciled).
            ((k : String) (v : String) → get labels k ≡ some v → get r.labels k ≡ some v)
            × (r.changed ≡ false → (k : String) → get r.labels k ≡ get have k))
          _ (λ e. e ≡ write_failed) (reconcile_label_map have labels none)
          (λ r k. ((λ key v h. k.0 key ∙ ap (λ o. or_else o (get have key)) h), k.2))
          (λ err x.
            let (k, v, current, h, l, nonempty, ne) = x.1 in
            absurd (
              nonempty
                (sym (ap (value_or "") l) ∙ subst (λ hs. get_or hs k "" ≡ "") same (free k v h))))
          (reconcile_label_map_exact have labels none d d'))
        (λ r k. elim (Bool-cases r.changed) [
          | inr c ↦
              rw (c, Gives) ((have, g, λ key v h. sym (k.1 c key) ∙ k.0 key v h), λ other ne. refl)
          | inl c ↦
              rw (c, Gives)
                (if_keeps
                  (Gives
                    (λ t.
                      HasLabels (get t name) labels
                      × ((other : String) → name ≢ other → get t other ≡ get objects other))
                    (λ e. e ≡ write_failed))
                  (accepts name r.labels)
                  (
                    (r.labels, get-put_self objects name r.labels, k.0),
                    λ other ne. get-put_ne objects name other r.labels ne,
                  )
                  refl)
        ])

  -- what holds when the names in `left` are still to come
  abbrev Applied : LabelsByName → LabelsByName → List String → LabelsByName → Type 0
  Applied objects desired left t =
      Distinct left
      × ((name : String)
          → Member name left
          → (get t name ≡ get objects name) × Member name (keys desired))
      × ((name : String) (labels : Labels)
          → get desired name ≡ some labels
          → ¬ Member name left
          → HasLabels (get t name) labels)

  apply_labels-Applied :
      (missing : Attempt LabelsByName) (objects desired : LabelsByName) (x : String)
      (xs : List String) (t : LabelsByName)
      → AreObjects objects
      → Fits (get objects) desired
      → Applied objects desired (x ∷ xs) t
      → Gives
          (Applied objects desired xs)
          (λ e. e ≡ write_failed)
          (apply_labels accepts missing desired t x)
  unfolding apply_labels
  apply_labels-Applied missing objects desired x xs t distinct fits (d, left, set) =
      let (labels, g) = get_of_Member desired x (left x (inl refl)).1 in
      let (have, q, dl, free) = fits.1 x labels g in
      let at_x : get t x ≡ some have = (left x (inl refl)).0 ∙ q in
      let want : get_or desired x [] ≡ labels = ap (value_or []) g in
      let one =
        patch_labels-HasLabels t x labels have at_x (distinct x have q)
          (subst (λ o. FitsObject o labels) q (have, q, dl, free)) in
      rw (at_x, want, Gives)
        (Gives-imp _ _ _ _ (patch_labels accepts t x have labels none)
          (λ u k. (
            d.1,
            (λ name m.
                let ne : x ≢ name = λ e. d.0 (subst (λ n. Member n xs) (sym e) m) in
                (k.1 name ne ∙ (left name (inr m)).0, (left name (inr m)).1)),
            λ name ls h no. elim (==_cases x name) [
              | inl (e, b) ↦
                  let same : labels ≡ ls =
                    let y : some labels ≡ some ls = sym g ∙ ap (get desired) e ∙ h in cc in
                  subst (λ l. HasLabels (get u name) l) same
                    (subst (λ n. HasLabels (get u n) labels) e (k.0))
              | inr (ne, b) ↦
                  subst (λ o. HasLabels o ls) (sym (k.1 name ne))
                    (set name ls h (λ m. elim m [ inl e ↦ ne (sym e) | inr i ↦ no i ]))
            ],
          ))
          (λ e q'. q') one)

  apply_all :
      (missing : Attempt LabelsByName) (objects desired : LabelsByName)
      → AreObjects objects
      → Fits (get objects) desired
      → Gives
          (HaveAll desired)
          (λ e. e ≡ write_failed)
          (fold_attempt
            (apply_labels accepts missing desired)
            objects
            (sorted_nested_map_keys desired))
  unfolding sorted_nested_map_keys
  apply_all missing objects desired distinct fits =
      let names = sort_by string_less (keys desired) in
      Gives-imp (Applied objects desired []) (HaveAll desired) _ (λ e. e ≡ write_failed)
        (fold_attempt (apply_labels accepts missing desired) objects names)
        (λ t k name labels h. k.2 name labels h (λ m. m)) (λ e q. q)
        (Gives-fold_attempt (Applied objects desired) (λ e. e ≡ write_failed)
          (apply_labels accepts missing desired)
          (λ x xs t k. apply_labels-Applied missing objects desired x xs t distinct fits k) names
          objects
          (
            Distinct-sort_by string_less (keys desired) fits.0,
            (λ name m. (refl, (Member-sort_by string_less name (keys desired)).0 m)),
            λ name labels h no. absurd (
                no (
                  (Member-sort_by string_less name (keys desired)).1
                    (Member_of_get desired name labels h))),
          ))

  -- applyPlan with a plan that fits the objects, as buildAutoLabelPlan makes it: it fails only where a
  -- patch is refused, never for an object that disappeared or for a locked label; and where it
  -- succeeds every Node and every Switch of the plan has all its planned labels.
  pub apply_plan_sets :
      (plan : AutoLabelPlan) (nodes switches : LabelsByName)
      → AreObjects nodes
      → AreObjects switches
      → Fits (get nodes) plan.nodes
      → Fits (get switches) plan.switches
      → Gives
          (λ r. HaveAll plan.nodes (r.0) × HaveAll plan.switches (r.1))
          (λ e. e ≡ write_failed)
          (apply_plan accepts plan nodes switches)
  unfolding apply_plan
  apply_plan_sets plan nodes switches d d' fits fits' =
      Gives->>= (HaveAll plan.nodes) _ (λ e. e ≡ write_failed)
        (fold_attempt (apply_labels accepts (fails missing_node) plan.nodes) nodes
          (sorted_nested_map_keys plan.nodes))
        _ (apply_all (fails missing_node) nodes plan.nodes d fits)
        (λ nodes' k.
          Gives->>= (HaveAll plan.switches) _ (λ e. e ≡ write_failed)
            (fold_attempt (apply_labels accepts (fails missing_switch) plan.switches) switches
              (sorted_nested_map_keys plan.switches))
            _ (apply_all (fails missing_switch) switches plan.switches d' fits')
            (λ switches' k'. (k, k')))
