-- ===== src/TopologyLabel/Language/Accepts/States.antt =====
-- What the automaton accepts from a set of states.
use unifabric.Common.{
  List, [], ◌∷◌, ℕ, ◌+◌, true, some, length, keys, foldl, elem_iff, Member, Member-keys-put, nat_eq,
  Option-cases, ◌≡◌, ◌↔◌, ◌⊎◌, refl, sym, ap, subst, inl, inr, arith, ⊎_elim,
}
use unifabric.TopologyLabel.Types.{Bytes, Template}
use unifabric.TopologyLabel.Language.{
  TierLanguage, new_tier_language, States, closure, next_state, add_next, transition, accepts,
}
use unifabric.TopologyLabel.Language.Accepts.{
  drop, Tail, IsKey, Key-iff, Key-nil, Tail-self, drop_all, drop_empty,
}
use unifabric.TopologyLabel.Language.Accepts.Steps.{
  Accepted, in_prefix, in_number, in_suffix, Accepted-forward, Accepted-back, Accepted-suffix,
  Accepted-prefix,
}

module _ (t : Template) where
  abbrev p : Bytes
  p = t.prefix

  abbrev f : Bytes
  f = t.suffix

  abbrev n : TierLanguage
  n = new_tier_language t

  Member-add_one :
      (c x s : ℕ) (next : States)
      → Member x (keys (add_next n c next s)) ↔ (Member x (keys next) ⊎ (next_state n c s ≡ some x))
  unfolding add_next
  Member-add_one c x s next = elim (Option-cases (next_state n c s)) [
    | inl e ↦ rw (e, add_next) ((λ m. inl m), ⊎_elim (λ m. m) (λ h. cc))
    | inr (y, e) ↦ rw (e, add_next) (ground (arith, Member-keys-put next y x tt))
  ]

  Member-add_next :
      (c x : ℕ) (states : List ℕ) (next : States)
      → Member x (keys (foldl (add_next n c) next states))
        ↔ (Member x (keys next) ⊎ ((s : ℕ) × Member s states × (next_state n c s ≡ some x)))
  Member-add_next c x [] next = ((λ m. inl m), ⊎_elim (λ m. m) (λ (s, m, e). absurd m))
  Member-add_next c x (s ∷ states) next =
      let step = Member-add_one c x s next in
      let rest = Member-add_next c x states (add_next n c next s) in
      (
        λ m. elim (rest.0 m) [
          | inl k ↦ elim (step.0 k) [ inl old ↦ inl old | inr e ↦ inr (s, inl refl, e) ]
          | inr (u, mu, e) ↦ inr (u, inr mu, e)
        ],
        λ h. elim h [
          | inl old ↦ rest.1 (inl (step.1 (inl old)))
          | inr (u, inl q, e) ↦
              rest.1 (inl (step.1 (inr (subst (λ i. next_state n c i ≡ some x) q e))))
          | inr (u, inr mu, e) ↦ rest.1 (inr (u, mu, e))
        ],
      )

  pub Member-closure :
      (x : ℕ) (states : States)
      → Member x (keys (closure n states))
        ↔ (Member x (keys states) ⊎ (Member (length p + 1) (keys states) × (x ≡ length p + 1 + 1)))
  unfolding closure new_tier_language
  Member-closure x states =
      ground (
        arith,
        elem_iff (length p + 1) (keys states),
        Member-keys-put states (length p + 1 + 1) x tt,
      )

  -- the states hold the start of the suffix where they hold the digits
  abbrev pub IsClosed : States → Type 0
  IsClosed states = Member (length p + 1) (keys states) → Member (length p + 1 + 1) (keys states)

  pub IsClosed-closure : (states : States) → IsClosed (closure n states)
  IsClosed-closure states m = elim ((Member-closure (length p + 1) states).0 m) [
    | inl k ↦ (Member-closure (length p + 1 + 1) states).1 (inr (k, refl))
    | inr (k, e) ↦ absurd (omega arith)
  ]

  pub IsClosed-transition : (states : States) (c : ℕ) → IsClosed (transition n states c)
  unfolding transition
  IsClosed-transition states c = IsClosed-closure (foldl (add_next n c) [] (keys states))

  pub Member-transition :
      (x c : ℕ) (states : States)
      → Member x (keys (transition n states c)) ↔ (
          ((s : ℕ) × Member s (keys states) × (next_state n c s ≡ some x))
          ⊎ (((s : ℕ) × Member s (keys states) × (next_state n c s ≡ some (length p + 1)))
              × (x ≡ length p + 1 + 1)))
  unfolding transition
  Member-transition x c states =
      let after = foldl (add_next n c) [] (keys states) in
      let close = Member-closure x after in
      let here = Member-add_next c x (keys states) [] in
      let digits = Member-add_next c (length p + 1) (keys states) [] in
      (
        λ m. elim (close.0 m) [
          | inl k ↦ inl (⊎_elim (λ z. absurd z) (λ h. h) (here.0 k))
          | inr (k, e) ↦ inr (⊎_elim (λ z. absurd z) (λ h. h) (digits.0 k), e)
        ],
        λ h. elim h [
          | inl k ↦ close.1 (inl (here.1 (inr k)))
          | inr (k, e) ↦ close.1 (inr (digits.1 (inr k), e))
        ],
      )

  -- the loop over the bytes of a key
  abbrev pub run : States → Bytes → States
  run states [] = states
  run states (c ∷ w) = run (transition n states c) w

  -- some state accepts the word
  abbrev pub Accepting : States → Bytes → Type 0
  Accepting states w = (s : ℕ) × Member s (keys states) × Accepted t w s

  pub Accepting-step :
      (states : States) (c : ℕ) (w : Bytes)
      → IsClosed states
      → Accepting (transition n states c) w ↔ Accepting states (c ∷ w)
  Accepting-step states c w closed = (
    λ (x, m, a). elim ((Member-transition x c states).0 m) [
      | inl (s, k, e) ↦ (s, k, Accepted-back t c w s x e a)
      | inr ((s, k, e), q) ↦
          let rest =
            Accepted-suffix t w 0 (omega arith)
              (subst (Accepted t w) (let r : x ≡ length p + 2 + 0 = omega arith in r) a) in
          (
            s,
            k,
            Accepted-back t c w s (length p + 1) e
                (in_number refl (subst (Tail f) (sym rest) (Tail-self f))),
          )
    ],
    λ (s, m, a). elim (Accepted-forward t c w s a) [
      | inl (x, e, b) ↦ (x, (Member-transition x c states).1 (inl (s, m, e)), b)
      | inr (at, e) ↦
          let start = closed (subst (λ i. Member i (keys states)) at m) in
          elim (Accepted-forward t c w (length p + 1 + 1)
            (in_suffix 0 (omega arith) (omega arith) e)) [
              | inl (x, q, b) ↦
                  (x, (Member-transition x c states).1 (inl (length p + 1 + 1, start, q)), b)
              | inr (q, _) ↦ absurd (omega arith)
            ]
    ],
  )

  pub accepts-Accepting :
      (states : States) → IsClosed states → (accepts n states ≡ true) ↔ Accepting states []
  unfolding accepts new_tier_language
  accepts-Accepting states closed =
      let last = length p + 1 + 1 + length f in
      let there = elem_iff last (keys states) in
      (
        λ h. (last, there.0 h, in_suffix (length f) (omega arith) (omega arith) (sym (drop_all f))),
        λ (s, m, a). there.1 (elim a [
          | in_prefix less key ↦ absurd (Key-nil (drop s p) f key)
          | in_number e tail ↦
              let start = closed (subst (λ i. Member i (keys states)) e m) in
              subst (λ i. Member i (keys states)) (ground (arith, ap (λ l. length l) tail)) start
          | in_suffix k e less q ↦
              let full = drop_empty f k less q in
              subst (λ i. Member i (keys states)) (omega (arith, e, full)) m
        ]),
      )

  pub run-Accepting :
      (w : Bytes) (states : States)
      → IsClosed states
      → (accepts n (run states w) ≡ true) ↔ Accepting states w
  run-Accepting [] states closed = accepts-Accepting states closed
  run-Accepting (c ∷ w) states closed =
      let rest = run-Accepting w (transition n states c) (IsClosed-transition states c) in
      let step = Accepting-step states c w closed in
      ((λ h. step.0 (rest.0 h)), λ h. rest.1 (step.1 h))

  abbrev pub start_states : States
  start_states = closure n ((0, tt) ∷ [])

  -- The automaton of a template, run over the bytes of a key from its start states, accepts the key
  -- exactly where the key is the template's prefix, a decimal number that does not start with 0, and
  -- the template's suffix.
  pub accepts_exact : (w : Bytes) → (accepts n (run start_states w) ≡ true) ↔ IsKey p f w
  accepts_exact w =
      let all = run-Accepting w start_states (IsClosed-closure ((0, tt) ∷ [])) in
      let key = Key-iff p f w in
      (
        λ h.
            let (s, m, a) = all.0 h in
            key.0 (elim ((Member-closure s ((0, tt) ∷ [])).0 m) [
              | inl (inl e) ↦ Accepted-prefix t w 0 (omega arith) (subst (Accepted t w) e a)
              | inl (inr z) ↦ absurd z
              | inr (inl e, _) ↦ absurd (omega arith)
              | inr (inr z, _) ↦ absurd z
            ]),
        λ h. all.1 (
          0,
          (Member-closure 0 ((0, tt) ∷ [])).1 (inl (inl refl)),
          in_prefix (omega arith) (key.1 h),
        ),
      )
