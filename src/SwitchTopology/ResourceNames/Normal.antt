-- ===== src/SwitchTopology/ResourceNames/Normal.antt =====
-- What `normalizeResourceName` returns, and that it changes nothing the second time.
use Prim.Native.Char.{Char, code}
use text.Mathlib.TextEquality.{Char-path}
use unifabric.Common.{
  String, Bool, true, false, ◌&&◌, none, nat_eq, string_eq, get, elem, Bool-cases, ◌≡◌, refl, sym,
  ap, ◌∙◌, arith, ◌⊎◌, inl, inr,
}
use unifabric.SwitchTopology.ResourceNames.{
  is_space, trim_left, is_empty, trim_right, trim_space, lower_letters, to_lower, lower_all,
  is_name_code, dash, is_dash, squeeze, normalize_resource_name,
}

-- Letters and digits with single dashes between them; no dash comes first where the argument is true.
abbrev pub IsSqueezed : Bool → String → Type 0
IsSqueezed b String.[] = Unit
IsSqueezed b (String.◌∷◌ c s) =
    (is_name_code (code c) ≡ true) × IsSqueezed false s
    ⊎ (code c ≡ 45) × (b ≡ false) × IsSqueezed true s

abbrev pub HasNoLastDash : String → Type 0
HasNoLastDash String.[] = Unit
HasNoLastDash (String.◌∷◌ c String.[]) = is_dash c ≡ false
HasNoLastDash (String.◌∷◌ c (String.◌∷◌ d s)) = HasNoLastDash (String.◌∷◌ d s)

-- lower case letters, digits and single dashes, none of them first or last
abbrev pub IsResourceName : String → Type 0
IsResourceName s = IsSqueezed true s × HasNoLastDash s

squeeze-IsSqueezed : (b : Bool) (s : String) → IsSqueezed b (squeeze b s)
unfolding squeeze
squeeze-IsSqueezed b String.[] = tt
squeeze-IsSqueezed b (String.◌∷◌ c s) = elim (Bool-cases (is_name_code (code c))) [
  | inl e ↦ rw (e, IsSqueezed) (inl (e, squeeze-IsSqueezed false s))
  | inr e ↦ elim (Bool-cases b) [
    | inl t ↦ rw (e, t, IsSqueezed) (squeeze-IsSqueezed true s)
    | inr f ↦ rw (e, f, IsSqueezed) (inr (refl, refl, squeeze-IsSqueezed true s))
  ]
]

weaken : (b : Bool) (s : String) → IsSqueezed true s → IsSqueezed b s
weaken b String.[] h = tt
weaken b (String.◌∷◌ c s) (inl h) = inl h
weaken b (String.◌∷◌ c s) (inr (e, t, h)) = absurd cc

name_no_dash : (c : Char) → is_name_code (code c) ≡ true → is_dash c ≡ false
name_no_dash c h = ground (arith, h)

trim_left-IsSqueezed :
    (b : Bool) (s : String) → IsSqueezed b s → IsSqueezed true (trim_left is_dash s)
unfolding trim_left
trim_left-IsSqueezed b String.[] h = tt
trim_left-IsSqueezed b (String.◌∷◌ c s) (inl h) = rw (name_no_dash c h.0, IsSqueezed) (inl h)
trim_left-IsSqueezed b (String.◌∷◌ c s) (inr (e, f, h)) =
    let d : is_dash c ≡ true = ground (arith, e) in
    rw (d, IsSqueezed) (trim_left-IsSqueezed true s h)

no_last_cons :
    (c : Char) (rest : String)
    → HasNoLastDash rest
    → (is_empty rest && is_dash c) ≡ false
    → HasNoLastDash (String.◌∷◌ c rest)
no_last_cons c String.[] h e = e
no_last_cons c (String.◌∷◌ d s) h e = h

trim_right-HasNoLastDash : (s : String) → HasNoLastDash (trim_right is_dash s)
unfolding trim_right
trim_right-HasNoLastDash String.[] = tt
trim_right-HasNoLastDash (String.◌∷◌ c s) =
    elim (Bool-cases (is_empty (trim_right is_dash s) && is_dash c)) [
      | inl e ↦ rw (e, HasNoLastDash) tt
      | inr e ↦
          rw (e, HasNoLastDash)
            (no_last_cons c (trim_right is_dash s) (trim_right-HasNoLastDash s) e)
    ]

trim_right-IsSqueezed :
    (b : Bool) (s : String) → IsSqueezed b s → IsSqueezed b (trim_right is_dash s)
unfolding trim_right
trim_right-IsSqueezed b String.[] h = tt
trim_right-IsSqueezed b (String.◌∷◌ c s) h =
    elim (Bool-cases (is_empty (trim_right is_dash s) && is_dash c)) [
      | inl e ↦ rw (e, IsSqueezed) tt
      | inr e ↦
          rw (e, IsSqueezed)
            (elim h [
              | inl (n, k) ↦ inl (n, trim_right-IsSqueezed false s k)
              | inr (d, f, k) ↦ inr (d, f, trim_right-IsSqueezed true s k)
            ])
    ]

normalize-IsResourceName : (s : String) → IsResourceName (normalize_resource_name s)
unfolding normalize_resource_name
normalize-IsResourceName s =
    let squeezed = squeeze false (lower_all (trim_space s)) in
    (
      trim_right-IsSqueezed true (trim_left is_dash squeezed) (
          trim_left-IsSqueezed false squeezed
            (squeeze-IsSqueezed false (lower_all (trim_space s)))),
      trim_right-HasNoLastDash (trim_left is_dash squeezed),
    )

-- a letter, a digit or a dash
abbrev IsNameOrDash : Char → Type 0
IsNameOrDash c = (is_name_code (code c) ≡ true) ⊎ (code c ≡ 45)

no_space : (c : Char) → IsNameOrDash c → is_space c ≡ false
unfolding is_space elem
no_space c h = ground (arith, h)

is_lower : (c : Char) → IsNameOrDash c → get lower_letters (code c) ≡ none
unfolding get
is_lower c h = ground (arith, h)

to_lower_same : (c : Char) → IsNameOrDash c → to_lower c ≡ c
unfolding to_lower
to_lower_same c h = rw (is_lower c h, to_lower) refl

head_cases :
    (b : Bool) (c : Char) (s : String)
    → IsSqueezed b (String.◌∷◌ c s)
    → IsNameOrDash c × ((d : Bool) × IsSqueezed d s)
head_cases b c s (inl (n, k)) = (inl n, (false, k))
head_cases b c s (inr (d, f, k)) = (inr d, (true, k))

trim_left_same :
    (cut : Char → Bool) (c : Char) (s : String)
    → cut c ≡ false
    → trim_left cut (String.◌∷◌ c s) ≡ String.◌∷◌ c s
unfolding trim_left
trim_left_same cut c s e = rw e refl

lower_all_same : (b : Bool) (s : String) → IsSqueezed b s → lower_all s ≡ s
unfolding lower_all
lower_all_same b String.[] h = refl
lower_all_same b (String.◌∷◌ c s) h =
    let (n, (d, k)) = head_cases b c s h in
    rw (to_lower_same c n) (ap (λ t. String.◌∷◌ c t) (lower_all_same d s k))

trim_right_no_space : (b : Bool) (s : String) → IsSqueezed b s → trim_right is_space s ≡ s
unfolding trim_right
trim_right_no_space b String.[] h = refl
trim_right_no_space b (String.◌∷◌ c s) h =
    let (n, (d, k)) = head_cases b c s h in
    let same = trim_right_no_space d s k in
    let e : (is_empty (trim_right is_space s) && is_space c) ≡ false =
      ground (arith, no_space c n) in
    rw e (ap (λ t. String.◌∷◌ c t) same)

trim_space_same : (b : Bool) (s : String) → IsSqueezed b s → trim_space s ≡ s
unfolding trim_space trim_left
trim_space_same b String.[] h = trim_right_no_space b String.[] h
trim_space_same b (String.◌∷◌ c s) h =
    let (n, rest) = head_cases b c s h in
    rw (no_space c n) (trim_right_no_space b (String.◌∷◌ c s) h)

is_dash_char : (c : Char) → code c ≡ 45 → c ≡ dash
is_dash_char c e = Char-path c dash e

squeeze_same : (b : Bool) (s : String) → IsSqueezed b s → squeeze b s ≡ s
unfolding squeeze
squeeze_same b String.[] h = refl
squeeze_same b (String.◌∷◌ c s) (inl (n, k)) =
    rw n (ap (λ t. String.◌∷◌ c t) (squeeze_same false s k))
squeeze_same b (String.◌∷◌ c s) (inr (e, f, k)) =
    let no : is_name_code (code c) ≡ false = ground (arith, e) in
    rw (no, f)
      (ap (λ t. String.◌∷◌ dash t) (squeeze_same true s k)
        ∙ ap (λ d. String.◌∷◌ d s) (sym (is_dash_char c e)))

trim_left_dashes : (s : String) → IsSqueezed true s → trim_left is_dash s ≡ s
unfolding trim_left
trim_left_dashes String.[] h = refl
trim_left_dashes (String.◌∷◌ c s) (inl (n, k)) = rw (name_no_dash c n) refl
trim_left_dashes (String.◌∷◌ c s) (inr (e, t, k)) = absurd cc

trim_right_cons :
    (c : Char) (s : String)
    → trim_right is_dash s ≡ s
    → is_empty s ≡ false
    → trim_right is_dash (String.◌∷◌ c s) ≡ String.◌∷◌ c s
unfolding trim_right
trim_right_cons c s e n =
    let k : (is_empty (trim_right is_dash s) && is_dash c) ≡ false =
      ground (arith, ap is_empty e, n) in
    rw k (ap (λ t. String.◌∷◌ c t) e)

trim_right_dashes : (s : String) → HasNoLastDash s → trim_right is_dash s ≡ s
unfolding trim_right
trim_right_dashes String.[] h = refl
trim_right_dashes (String.◌∷◌ c String.[]) h = rw h refl
trim_right_dashes (String.◌∷◌ c (String.◌∷◌ d s)) h =
    trim_right_cons c (String.◌∷◌ d s) (trim_right_dashes (String.◌∷◌ d s) h) refl

normal_same : (name : String) → IsResourceName name → normalize_resource_name name ≡ name
unfolding normalize_resource_name
normal_same name (q, l) =
    ap (λ t. trim_right is_dash (trim_left is_dash (squeeze false (lower_all t))))
      (trim_space_same true name q)
    ∙ ap (λ t. trim_right is_dash (trim_left is_dash (squeeze false t)))
        (lower_all_same true name q)
    ∙ ap (λ t. trim_right is_dash (trim_left is_dash t))
        (squeeze_same false name (weaken false name q))
    ∙ ap (trim_right is_dash) (trim_left_dashes name q)
    ∙ trim_right_dashes name l

-- normalizeResourceName returns lower case letters, digits and single dashes, with no dash first or
-- last, and it returns such a name as it is, so normalizing twice is normalizing once.
pub normalize_resource_name_normal :
    (s : String)
    → IsResourceName (normalize_resource_name s)
      × (normalize_resource_name (normalize_resource_name s) ≡ normalize_resource_name s)
      × ((name : String) → IsResourceName name → normalize_resource_name name ≡ name)
normalize_resource_name_normal s = (
  normalize-IsResourceName s,
  normal_same (normalize_resource_name s) (normalize-IsResourceName s),
  normal_same,
)
