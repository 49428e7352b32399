-- ===== src/SwitchTopology/Plan/Loops.antt =====
-- The two loops of `merge`, over the objects and over the labels of one object.
use unifabric.Common.{
  String, [], ◌∷◌, Option, get, keys, Member, Distinct, string_eq, ==_cases, ◌≡◌, refl, ◌∙◌, inl,
  inr,
}
use unifabric.SwitchTopology.Types.{
  AutoLabelError, Attempt, done, fails, fold_attempt, Gives, Gives-imp, ◌>>=◌,
}
use unifabric.SwitchTopology.Labels.{Labels}
use unifabric.SwitchTopology.Plan.{LabelsByName, AutoLabelPlan, merge_labels}
use unifabric.SwitchTopology.Plan.Puts.{
  label_of, only, one, Puts, Clashes, AreBoth, then-Puts, then-Clashes, first-Clashes,
  entries-AreBoth, objects-AreBoth, no-Puts,
}

-- the two loops, for Nodes and for Switches: `part` is the map that `add` changes, and `rest` the other
module _ (add : AutoLabelPlan → String → String → String → Attempt AutoLabelPlan)
    (part rest : AutoLabelPlan → LabelsByName) (conflict : AutoLabelError) where
  abbrev pub Loops :
      (String → String → Option String) → AutoLabelPlan → Attempt AutoLabelPlan → Type 0
  Loops more plan r =
      Gives (λ p. Puts (part plan) more (part p) × (rest p ≡ rest plan))
        (λ e. (e ≡ conflict) × Clashes (part plan) more) r

  Loops->>= :
      (first second both : String → String → Option String)
      → AreBoth first second both
      → (plan : AutoLabelPlan) (r : Attempt AutoLabelPlan)
        (next : AutoLabelPlan → Attempt AutoLabelPlan)
      → Loops first plan r
      → ((p : AutoLabelPlan) → Loops second p (next p))
      → Loops both plan (r >>= next)
  Loops->>= first second both are plan (fails e) next h step =
      (h.0, first-Clashes first second both are (part plan) h.1)
  Loops->>= first second both are plan (done p) next (puts, same) step =
      Gives-imp (λ q. Puts (part p) second (part q) × (rest q ≡ rest p))
        (λ q. Puts (part plan) both (part q) × (rest q ≡ rest plan))
        (λ e. (e ≡ conflict) × Clashes (part p) second)
        (λ e. (e ≡ conflict) × Clashes (part plan) both) (next p)
        (λ q (more, same').
          (then-Puts first second both are (part plan) (part p) puts (part q) more, same' ∙ same))
        (λ e (q, clash). (q, then-Clashes first second both are (part plan) (part p) puts clash))
        (step p)

  module _
      (adds : (plan : AutoLabelPlan) (name key value : String)
        → Loops (only name (one key value)) plan (add plan name key value)) where
    merge_labels-Loops :
        (name : String) (labels : Labels)
        → Distinct (keys labels)
        → (plan : AutoLabelPlan)
        → Loops (only name (get labels)) plan (merge_labels add plan (name, labels))
    unfolding merge_labels fold_attempt get
    merge_labels-Loops name [] d plan = (
      no-Puts (part plan) (only name (get []))
          (λ n k. elim (==_cases name n) [ inl (e, b) ↦ rw b refl | inr (ne, b) ↦ rw b refl ]),
      refl,
    )
    merge_labels-Loops name ((key, value) ∷ labels) (a, d) plan =
        Loops->>= (only name (one key value)) (only name (get labels))
          (only name (get ((key, value) ∷ labels))) (entries-AreBoth name key value labels a) plan
          (add plan name key value) _ (adds plan name key value) (merge_labels-Loops name labels d)

    pub merge_objects-Loops :
        (other : LabelsByName)
        → Distinct (keys other)
        → ((name : String) (labels : Labels) → Member (name, labels) other → Distinct (keys labels))
        → (plan : AutoLabelPlan)
        → Loops (label_of other) plan (fold_attempt (merge_labels add) plan other)
    unfolding fold_attempt get
    merge_objects-Loops [] d all plan = (no-Puts (part plan) (label_of []) (λ n k. refl), refl)
    merge_objects-Loops ((name, labels) ∷ other) (a, d) all plan =
        Loops->>= (only name (get labels)) (label_of other) (label_of ((name, labels) ∷ other))
          (objects-AreBoth name labels other a) plan (merge_labels add plan (name, labels)) _
          (merge_labels-Loops name labels (all name labels (inl refl)) plan)
          (merge_objects-Loops other d (λ n l i. all n l (inr i)))
