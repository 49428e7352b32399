-- ===== src/SwitchTopology/Plan/Fits.antt =====
-- Plans that fit the cluster: no label that an object has already is planned again.
use unifabric.Common.{
  String, [], false, Option, some, get, get_or, put, keys, get-put, Distinct, Distinct-keys-put,
  string_eq, ◌==◌, ==_cases, if_keeps, Option-cases, ◌≡◌, sym, subst, ◌∙◌, inl, inr,
}
use unifabric.SwitchTopology.Types.{AutoLabelError, Gives, is_internal}
use unifabric.SwitchTopology.Labels.{Labels}
use unifabric.SwitchTopology.Plan.{LabelsByName, add_desired}

-- an error that is neither a panic nor a loop without end
abbrev pub IsReported : AutoLabelError → Type 0
IsReported e = is_internal e ≡ false

-- The planned labels of an object: it exists, and has no value under the keys that are planned.
abbrev pub FitsObject : Option Labels → Labels → Type 0
FitsObject own labels =
    (have : Labels) × (own ≡ some have)
    × Distinct (keys labels)
    × ((key : String) (value : String) → get labels key ≡ some value → get_or have key "" ≡ "")

abbrev pub Fits : (String → Option Labels) → LabelsByName → Type 0
Fits own desired =
    Distinct (keys desired)
    × ((name : String) (labels : Labels)
        → get desired name ≡ some labels
        → FitsObject (own name) labels)

FitsObject-put :
    (own : Option Labels) (labels have : Labels) (key value : String)
    → own ≡ some have
    → get_or have key "" ≡ ""
    → Distinct (keys labels)
    → ((k v : String) → get labels k ≡ some v → get_or have k "" ≡ "")
    → FitsObject own (put labels key value)
FitsObject-put own labels have key value e free d all = (
  have,
  e,
  Distinct-keys-put labels key value d,
  λ k v g. elim (==_cases key k) [
    | inl (q, b) ↦ subst (λ j. get_or have j "" ≡ "") q free
    | inr (ne, b) ↦ all k v (rw b at (sym (get-put labels key k value) ∙ g))
  ],
)

put-Fits :
    (own : String → Option Labels) (desired : LabelsByName) (name : String) (labels : Labels)
    → Fits own desired
    → FitsObject (own name) labels
    → Fits own (put desired name labels)
put-Fits own desired name labels fits one = (
  Distinct-keys-put desired name labels fits.0,
  λ other ls g. elim (==_cases name other) [
    | inl (e, b) ↦
        let q : some labels ≡ some ls = rw b at (sym (get-put desired name other labels) ∙ g) in
        let q' : labels ≡ ls = cc in
        subst (λ n. FitsObject (own n) ls) e (subst (FitsObject (own name)) q' one)
    | inr (ne, b) ↦ fits.1 other ls (rw b at (sym (get-put desired name other labels) ∙ g))
  ],
)

-- addNode and addSwitch keep a plan that fits, where the object has no value under the key.
pub add_desired-Fits :
    (own : String → Option Labels) (conflict : AutoLabelError) (desired : LabelsByName)
    (name key value : String) (have : Labels)
    → IsReported conflict
    → own name ≡ some have
    → get_or have key "" ≡ ""
    → Fits own desired
    → Gives (Fits own) IsReported (add_desired conflict desired name key value)
unfolding add_desired get
add_desired-Fits own conflict desired name key value have reported e free fits =
    let labels = get_or desired name [] in
    let old : Distinct (keys labels)
        × ((k v : String) → get labels k ≡ some v → get_or have k "" ≡ "") =
      elim (Option-cases (get desired name)) [
        | inl n ↦ rw n (tt, λ k v g. absurd cc)
        | inr (ls, g) ↦
            let (have', e', d, all) = fits.1 name ls g in
            let q : have' ≡ have = let x : Option.some have' ≡ some have = sym e' ∙ e in cc in
            rw g (d, λ k v h. subst (λ hs. get_or hs k "" ≡ "") q (all k v h))
      ] in
    let next : Fits own (put desired name (put labels key value)) =
      put-Fits own desired name (put labels key value) fits
        (FitsObject-put (own name) labels have key value e free old.0 old.1) in
    elim (Option-cases (get labels key)) [
      | inl n ↦ rw (n, Gives) next
      | inr (existing, g) ↦
          rw (g, Gives) (if_keeps (Gives (Fits own) IsReported) (existing == value) next reported)
    ]
