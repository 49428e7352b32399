-- ===== src/TopologyLabel/Language/Accepts/Steps.antt =====
-- What one byte does to the words that lead from a state to the accepting one.
use unifabric.Common.{
  ◌∷◌, ℕ, suc, ◌+◌, ◌-◌, ◌≤◌, ◌<◌, true, none, some, length, ltb, ◌==◌, nat_eq, ==_iff, ==_cases,
  if◌then◌else◌, Bool-cases, ◌≡◌, ◌⊎◌, refl, sym, ap, ◌∙◌, subst, inl, inr, arith,
}
use unifabric.TopologyLabel.Types.{Bytes, Template, is_digit, is_positive_digit}
use unifabric.TopologyLabel.Language.{TierLanguage, new_tier_language, next_state, byte_at}
use unifabric.TopologyLabel.Language.Accepts.{
  drop, Tail, Number, Key, drop_less, drop_all, drop_cons,
}

module _ (t : Template) where
  abbrev p : Bytes
  p = t.prefix

  abbrev f : Bytes
  f = t.suffix

  abbrev n : TierLanguage
  n = new_tier_language t

  module _ (c : ℕ) where
    next_in_prefix :
        (s : ℕ)
        → s < length p
        → next_state n c s ≡ (if byte_at p s == c then some (s + 1) else none)
    unfolding next_state new_tier_language
    next_in_prefix s h = ground arith

    next_at_number :
        (s : ℕ)
        → s ≡ length p
        → next_state n c s ≡ (if is_positive_digit c then some (length p + 1) else none)
    unfolding next_state new_tier_language
    next_at_number s h = ground (arith, ==_iff s (length p))

    next_at_digit :
        (s : ℕ)
        → s ≡ length p + 1
        → next_state n c s ≡ (if is_digit c then some (length p + 1) else none)
    unfolding next_state new_tier_language
    next_at_digit s h = ground (arith, ==_iff s (length p), ==_iff s (length p + 1))

    next_in_suffix :
        (s k : ℕ)
        → s ≡ length p + 2 + k
        → next_state n c s
          ≡ (if ltb k (length f) then (if byte_at f k == c then some (s + 1) else none) else none)
    unfolding next_state new_tier_language
    next_in_suffix s k h =
        let e : s - (length p + 1 + 1) ≡ k = omega arith in ground (arith, ap (byte_at f) e)

  -- The words that lead from a state to the accepting one.
  pub data Accepted (w : Bytes) (s : ℕ) : Type 0 where
    in_prefix : s ≤ length p → Key (drop s p) f w → Accepted w s
    in_number : s ≡ length p + 1 → Tail f w → Accepted w s
    in_suffix : (k : ℕ) → s ≡ length p + 2 + k → k ≤ length f → w ≡ drop k f → Accepted w s

  -- an accepted word with a first byte: the state moves on, or the number ends
  pub Accepted-forward :
      (c : ℕ) (w : Bytes) (s : ℕ)
      → Accepted (c ∷ w) s
      → ((s' : ℕ) × (next_state n c s ≡ some s') × Accepted w s')
        ⊎ ((s ≡ length p + 1) × (c ∷ w ≡ f))
  Accepted-forward c w s (in_prefix h k) = elim (==_cases s (length p)) [
    | inl (e, _) ↦
        let (d, tail) : Number f (c ∷ w) =
          subst (λ q. Key q f (c ∷ w)) (ap (λ i. drop i p) e ∙ drop_all p) k in
        inl (length p + 1, ground (arith, next_at_number c s e, d), in_number refl tail)
    | inr (ne, _) ↦
        let less : s < length p = ground arith in
        let (b, rest) : Key (byte_at p s ∷ drop (suc s) p) f (c ∷ w) =
          subst (λ q. Key q f (c ∷ w)) (drop_less p s less) k in
        inl (
          suc s,
          ground (arith, next_in_prefix c s less, b, ==_iff (byte_at p s) c),
          in_prefix (omega arith) rest,
        )
  ]
  Accepted-forward c w s (in_number e (inl q)) = inr (e, q)
  Accepted-forward c w s (in_number e (inr (d, tail))) =
      inl (length p + 1, ground (arith, next_at_digit c s e, d), in_number refl tail)
  Accepted-forward c w s (in_suffix k e h q) =
      let (less, b, rest) = drop_cons f k c w q in
      inl (
        suc s,
        ground (arith, next_in_suffix c s k e, b, less, ==_iff (byte_at f k) c),
        in_suffix (suc k) (omega arith) (omega arith) rest,
      )

  position :
      (s : ℕ)
      → (s < length p) ⊎ (s ≡ length p) ⊎ (s ≡ length p + 1) ⊎ ((k : ℕ) × (s ≡ length p + 2 + k))
  position s = elim (==_cases s (length p)) [
    | inl (e, _) ↦ inr (inl e)
    | inr (e, _) ↦ elim (==_cases s (length p + 1)) [
      | inl (e', _) ↦ inr (inr (inl e'))
      | inr (e', _) ↦ elim (Bool-cases (ltb s (length p))) [
        | inl b ↦ inl (ground arith)
        | inr b ↦ inr (inr (inr (s - (length p + 2), ground arith)))
      ]
    ]
  ]

  pub Accepted-suffix :
      (w : Bytes) (k : ℕ) → k ≤ length f → Accepted w (length p + 2 + k) → w ≡ drop k f
  Accepted-suffix w k h (in_prefix less key) = absurd (omega arith)
  Accepted-suffix w k h (in_number e tail) = absurd (omega arith)
  Accepted-suffix w k h (in_suffix j e less q) = q ∙ ap (λ i. drop i f) (omega arith)

  Accepted-number : (w : Bytes) (s : ℕ) → s ≡ length p + 1 → Accepted w s → Tail f w
  Accepted-number w s h (in_prefix less key) = absurd (omega arith)
  Accepted-number w s h (in_number e tail) = tail
  Accepted-number w s h (in_suffix j e less q) = absurd (omega arith)

  pub Accepted-prefix : (w : Bytes) (s : ℕ) → s ≤ length p → Accepted w s → Key (drop s p) f w
  Accepted-prefix w s h (in_prefix less key) = key
  Accepted-prefix w s h (in_number e tail) = absurd (omega arith)
  Accepted-prefix w s h (in_suffix j e less q) = absurd (omega arith)

  pub Accepted-back :
      (c : ℕ) (w : Bytes) (s s' : ℕ)
      → next_state n c s ≡ some s'
      → Accepted w s'
      → Accepted (c ∷ w) s
  Accepted-back c w s s' e a = elim (position s) [
    | inl less ↦
        let (b, q) : (byte_at p s ≡ c) × (suc s ≡ s') =
          ground (arith, next_in_prefix c s less, e, ==_iff (byte_at p s) c) in
        let key = Accepted-prefix w (suc s) (omega arith) (subst (Accepted w) (sym q) a) in
        in_prefix (omega arith) (subst (λ l. Key l f (c ∷ w)) (sym (drop_less p s less)) (b, key))
    | inr (inl at) ↦
        let (d, q) : (is_positive_digit c ≡ true) × (length p + 1 ≡ s') =
          ground (arith, next_at_number c s at, e) in
        let tail = Accepted-number w s' (sym q) a in
        in_prefix (omega arith)
          (subst (λ l. Key l f (c ∷ w)) (sym (ap (λ i. drop i p) at ∙ drop_all p)) (d, tail))
    | inr (inr (inl at)) ↦
        let (d, q) : (is_digit c ≡ true) × (length p + 1 ≡ s') =
          ground (arith, next_at_digit c s at, e) in
        in_number at (inr (d, Accepted-number w s' (sym q) a))
    | inr (inr (inr (k, at))) ↦
        let (less, b, q) : (k < length f) × (byte_at f k ≡ c) × (length p + 2 + suc k ≡ s') =
          ground (arith, next_in_suffix c s k at, e, ==_iff (byte_at f k) c) in
        let rest = Accepted-suffix w (suc k) (omega arith) (subst (Accepted w) (sym q) a) in
        in_suffix k at (omega arith)
          (ap (λ l. c ∷ l) rest ∙ ap (λ x. x ∷ drop (suc k) f) (sym b) ∙ sym (drop_less f k less))
  ]
