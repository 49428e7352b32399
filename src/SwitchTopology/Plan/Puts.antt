-- ===== src/SwitchTopology/Plan/Puts.antt =====
-- What the loops of `merge` plan: the labels of the other plan, over those that there are.
use unifabric.Common.{
  String, [], ◌∷◌, Map, Option, none, some, get, get_or, value_or, put, keys, get-put,
  Member_of_get, Member, string_eq, ◌==◌, ==_iff, ==_cases, if◌then◌else◌, Option-cases, ◌≡◌, ◌≢◌,
  refl, sym, ap, ◌∙◌, arith, inl, inr,
}
use unifabric.SwitchTopology.Types.{AutoLabelError, Gives}
use unifabric.SwitchTopology.Labels.{Labels}
use unifabric.SwitchTopology.Plan.{LabelsByName, add_desired}

-- the label that is planned for an object
abbrev pub label_of : LabelsByName → String → String → Option String
label_of desired name key = get (get_or desired name []) key

-- the second label, or the first where there is none
abbrev pub or_old : Option String → Option String → Option String
or_old (some value) old = some value
or_old none old = old

-- `after` is `desired` with further labels of some objects, none of which has another value.
abbrev pub Puts : LabelsByName → (String → String → Option String) → LabelsByName → Type 0
Puts desired more after =
    ((name key : String)
      → label_of after name key ≡ or_old (more name key) (label_of desired name key))
    × ((name key v w : String)
        → label_of desired name key ≡ some v
        → more name key ≡ some w
        → v ≡ w)

-- Some label has two different values.
abbrev pub Clashes : LabelsByName → (String → String → Option String) → Type 0
Clashes desired more =
    (name : String) × (key : String) × (v : String) × (w : String) × (label_of desired name key
      ≡ some v)
    × (more name key ≡ some w)
    × (v ≢ w)

-- the labels of one object, and one label
abbrev pub only : String → (String → Option String) → String → String → Option String
only name labels n k = if name == n then labels k else none

abbrev pub one : String → String → String → Option String
one key value k = if key == k then some value else none

get_absent : {V : Type 0} (m : Map String V) (k : String) → ¬ Member k (keys m) → get m k ≡ none
get_absent m k a = elim (Option-cases (get m k)) [
  | inl e ↦ e
  | inr (v, e) ↦ absurd (a (Member_of_get m k v e))
]

label_of-put :
    (desired : LabelsByName) (name key value n k : String)
    → label_of (put desired name (put (get_or desired name []) key value)) n k
      ≡ or_old (only name (one key value) n k) (label_of desired n k)
label_of-put desired name key value n k = elim (==_cases name n) [
  | inl (e, b) ↦ elim (==_cases key k) [
    | inl (q, c) ↦
        rw
          (
            get-put desired name n (put (get_or desired name []) key value),
            b,
            get-put (get_or desired name []) key k value,
            c,
          )
          refl
    | inr (ne, c) ↦
        rw
          (
            get-put desired name n (put (get_or desired name []) key value),
            b,
            get-put (get_or desired name []) key k value,
            c,
          )
          (ap (λ x. label_of desired x k) e)
  ]
  | inr (ne, b) ↦ rw (get-put desired name n (put (get_or desired name []) key value), b) refl
]

-- addNode and addSwitch on their map
pub add_desired-Puts :
    (conflict : AutoLabelError) (desired : LabelsByName) (name key value : String)
    → Gives
        (Puts desired (only name (one key value)))
        (λ e. (e ≡ conflict) × Clashes desired (only name (one key value)))
        (add_desired conflict desired name key value)
unfolding add_desired
add_desired-Puts conflict desired name key value =
    let after = put desired name (put (get_or desired name []) key value) in
    let self : only name (one key value) name key ≡ some value =
      rw ((==_iff name name).1 refl, (==_iff key key).1 refl) refl in
    let only_there : (n k w : String)
        → only name (one key value) n k ≡ some w
        → (name ≡ n) × (key ≡ k) × (value ≡ w) =
      λ n k w g. ground (arith, ==_iff name n, ==_iff key k) in
    elim (Option-cases (get (get_or desired name []) key)) [
      | inl e ↦
          rw (e, Gives)
            (
              label_of-put desired name key value,
              λ n k v w g h.
                  let (p, q, r) = only_there n k w h in
                  absurd (
                    let x : label_of desired n k ≡ none =
                      ap (λ i. label_of desired i k) (sym p)
                      ∙ ap (label_of desired name) (sym q)
                      ∙ e in
                    cc),
            )
      | inr (old, e) ↦ elim (==_cases old value) [
        | inl (same, b) ↦
            rw (e, b, Gives)
              (
                label_of-put desired name key value,
                λ n k v w g h.
                    let (p, q, r) = only_there n k w h in
                    let x : label_of desired n k ≡ some old =
                      ap (λ i. label_of desired i k) (sym p)
                      ∙ ap (label_of desired name) (sym q)
                      ∙ e in
                    let y : some v ≡ some old = sym g ∙ x in let z : v ≡ old = cc in z ∙ same ∙ r,
              )
        | inr (ne, b) ↦ rw (e, b, Gives) (refl, (name, key, old, value, e, self, ne))
      ]
    ]

-- two sources of labels, of which no label is in both
abbrev pub AreBoth :
    (String → String → Option String)
    → (String → String → Option String)
    → (String → String → Option String)
    → Type 0
AreBoth first second both =
    ((n k : String) → both n k ≡ or_old (second n k) (first n k))
    × ((n k v : String) → first n k ≡ some v → second n k ≡ none)

module _ (first second both : String → String → Option String) (are : AreBoth first second both)
    (desired middle : LabelsByName) (puts : Puts desired first middle) where
  -- A label of the second source was planned before the first.
  before :
      (n k w : String)
      → second n k ≡ some w
      → (label_of middle n k ≡ label_of desired n k) × (both n k ≡ some w)
  before n k w h = elim (Option-cases (first n k)) [
    | inl e ↦ (puts.0 n k ∙ rw e refl, are.0 n k ∙ rw h refl)
    | inr (v, e) ↦ absurd (let q = are.1 n k v e in cc)
  ]

  only_first : (n k : String) → second n k ≡ none → both n k ≡ first n k
  only_first n k e = are.0 n k ∙ rw e refl

  pub then-Puts : (after : LabelsByName) → Puts middle second after → Puts desired both after
  then-Puts after next = (
    λ n k. elim (Option-cases (second n k)) [
      | inl e ↦
          next.0 n k
          ∙ rw e (puts.0 n k)
          ∙ ap (λ o. or_old o (label_of desired n k)) (sym (only_first n k e))
      | inr (w, e) ↦
          next.0 n k
          ∙ rw e refl
          ∙ ap (λ o. or_old o (label_of desired n k)) (sym (before n k w e).1)
    ],
    λ n k v w g h. elim (Option-cases (second n k)) [
      | inl e ↦ puts.1 n k v w g (sym (only_first n k e) ∙ h)
      | inr (u, e) ↦
          let (same, q) = before n k u e in
          let r : some u ≡ some w = sym q ∙ h in
          let s : u ≡ w = cc in next.1 n k v u (same ∙ g) e ∙ s
    ],
  )

  pub then-Clashes : Clashes middle second → Clashes desired both
  then-Clashes (n, k, v, w, g, h, ne) =
      let (same, q) = before n k w h in (n, k, v, w, sym same ∙ g, q, ne)

pub first-Clashes :
    (first second both : String → String → Option String)
    → AreBoth first second both
    → (desired : LabelsByName) → Clashes desired first
    → Clashes desired both
first-Clashes first second both are desired (n, k, v, w, g, h, ne) =
    (n, k, v, w, g, are.0 n k ∙ rw (are.1 n k w h) h, ne)

pub entries-AreBoth :
    (name key value : String) (labels : Labels)
    → ¬ Member key (keys labels)
    → AreBoth
        (only name (one key value))
        (only name (get labels))
        (only name (get ((key, value) ∷ labels)))
unfolding get
entries-AreBoth name key value labels a = (
  λ n k. elim (==_cases name n) [
    | inl (e, b) ↦ elim (==_cases key k) [
      | inl (q, c) ↦ rw (b, c, ap (get labels) (sym q) ∙ get_absent labels key a) refl
      | inr (ne, c) ↦
          rw (b, c)
            (elim (Option-cases (get labels k)) [ inl z ↦ rw z refl | inr (v, z) ↦ rw z refl ])
    ]
    | inr (ne, b) ↦ rw b refl
  ],
  λ n k v h. elim (==_cases name n) [
    | inl (e, b) ↦ elim (==_cases key k) [
      | inl (q, c) ↦ rw b (ap (get labels) (sym q) ∙ get_absent labels key a)
      | inr (ne, c) ↦ absurd (let z : Option.none ≡ some v = rw (b, c) at h in cc)
    ]
    | inr (ne, b) ↦ rw b refl
  ],
)

pub objects-AreBoth :
    (name : String) (labels : Labels) (other : LabelsByName)
    → ¬ Member name (keys other)
    → AreBoth (only name (get labels)) (label_of other) (label_of ((name, labels) ∷ other))
unfolding get
objects-AreBoth name labels other a =
    let absent : (n k : String) → name ≡ n → label_of other n k ≡ none = λ n k e.
      ap (λ (o : Option Labels). get (value_or [] o) k)
        (ap (get other) (sym e) ∙ get_absent other name a) in
    (
      λ n k. elim (==_cases name n) [
        | inl (e, b) ↦ rw (b, absent n k e) refl
        | inr (ne, b) ↦ rw b (elim (Option-cases (label_of other n k)) [
          | inl z ↦ rw z refl
          | inr (v, z) ↦ rw z refl
        ])
      ],
      λ n k v h. elim (==_cases name n) [
        | inl (e, b) ↦ absent n k e
        | inr (ne, b) ↦ absurd (let z : Option.none ≡ some v = rw b at h in cc)
      ],
    )

pub no-Puts :
    (desired : LabelsByName) (more : String → String → Option String)
    → ((n k : String) → more n k ≡ none)
    → Puts desired more desired
no-Puts desired more nothing =
    ((λ n k. rw (nothing n k) refl), λ n k v w g h. absurd (let z = nothing n k in cc))
