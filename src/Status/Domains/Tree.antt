-- ===== src/Status/Domains/Tree.antt =====
-- What `ensureDomain` and the assignment to a domain's parents keep.
use unifabric.Common.{
  String, [], ℕ, ◌+◌, ◌≤◌, some, get, put, keys, ltb, length, Member, Distinct, Option-cases,
  Bool-cases, ==_cases, string_eq, nat_eq, get-put, get-put_self, Distinct-keys-put, length-sort_by,
  length-map, Member-sort_by, string_less, ◌≡◌, ◌≢◌, refl, sym, ◌∙◌, subst, arith, inl, inr,
}
use unifabric.Status.Types.{DomainState, NameSet, Safe}
use unifabric.Status.Domains.{Domains, sorted_set, ensure_domain, max_int32}

pub length-sorted_set : (values : NameSet) → length (sorted_set values) ≡ length values
unfolding sorted_set
length-sorted_set values = length-sort_by string_less (keys values) ∙ length-map (λ e. e.0) values

pub Member-sorted_set :
    (p : String) (values : NameSet) → Member p (sorted_set values) → Member p (keys values)
unfolding sorted_set
Member-sorted_set p values m = (Member-sort_by string_less p (keys values)).0 m

-- `name` is a domain of `tier`
abbrev pub HasTier : Domains → String → ℕ → Type 0
HasTier domains name tier = (s : DomainState) × (get domains name ≡ some s) × (s.domain.tier ≡ tier)

abbrev pub Keeps : Domains → Domains → Type 0
Keeps a b = (name : String) (tier : ℕ) → HasTier a name tier → HasTier b name tier

pub record Tree (domains : Domains) : Type 0 where
  pub distinct : Distinct (keys domains)
  pub named :
      (name : String) (s : DomainState)
      → get domains name ≡ some s
      → (s.domain.name ≡ name) × (name ≢ "") × (s.domain.parent ≡ "") × (length s.parents ≤ 1)
  pub parents :
      (name p : String) (s : DomainState)
      → get domains name ≡ some s
      → Member p (keys s.parents)
      → HasTier domains p (s.domain.tier + 1)

pub Tree-empty : Tree []
unfolding get
Tree-empty = record { distinct = tt; named = λ name s e. cc; parents = λ name p s e m. cc }

module _ (domains : Domains) (name : String) (state : DomainState) where
  pub Keeps-put :
      ((s : DomainState) → get domains name ≡ some s → s.domain.tier ≡ state.domain.tier)
      → Keeps domains (put domains name state)
  Keeps-put same n tier (s, e, h) = elim (==_cases name n) [
    | inl (p, b) ↦ (state, rw (get-put domains name n state, b) refl, sym (same s (rw p e)) ∙ h)
    | inr (p, b) ↦ (s, rw (get-put domains name n state, b) e, h)
  ]

  pub Tree-put :
      Tree domains
      → Keeps domains (put domains name state)
      → (state.domain.name ≡ name)
        × (name ≢ "")
        × (state.domain.parent ≡ "")
        × (length state.parents ≤ 1)
      → ((p : String) → Member p (keys state.parents) → HasTier domains p (state.domain.tier + 1))
      → Tree (put domains name state)
  Tree-put tree keeps new above = record {
    distinct = Distinct-keys-put domains name state tree.distinct;
    named = λ n s e. elim (==_cases name n) [
      | inl (p, b) ↦
          let q : state ≡ s = ground (arith, get-put domains name n state, e, b) in
          rw (← q, ← p) new
      | inr (p, b) ↦ tree.named n s (ground (arith, get-put domains name n state, e, b))
    ];
    parents = λ n p s e m. elim (==_cases name n) [
      | inl (_, b) ↦
          let q : state ≡ s = ground (arith, get-put domains name n state, e, b) in
          keeps p (s.domain.tier + 1) (
            subst (λ t. HasTier domains p (t.domain.tier + 1)) q
              (above p (subst (λ t. Member p (keys t.parents)) (sym q) m)))
      | inr (_, b) ↦
          keeps p (s.domain.tier + 1)
            (tree.parents n p s (ground (arith, get-put domains name n state, e, b)) m)
    ];
  }

-- `ensureDomain` makes the domain where it is missing, and returns an error for a domain of another
-- tier.
pub Safe-ensure_domain :
    (domains : Domains) (name : String) (tier : ℕ)
    → Tree domains
    → name ≢ ""
    → Safe
        (λ later. Tree later × Keeps domains later × HasTier later name tier)
        (ensure_domain domains name tier)
unfolding ensure_domain
Safe-ensure_domain domains name tier tree nonempty = elim (Bool-cases (ltb max_int32 tier)) [
  | inl b ↦ rw b (λ e. cc)
  | inr b ↦ elim (Option-cases (get domains name)) [
    | inr (s, e) ↦ elim (==_cases (s.domain.tier) tier) [
      | inl (p, q) ↦ rw (b, e, q) (tree, (λ n t h. h), (s, e, p))
      | inr (p, q) ↦ rw (b, e, q) (λ h. cc)
    ]
    | inl e ↦
        rw (b, e)
          (let fresh : DomainState = record {
            domain = record { name = name; tier = tier; parent = ""; switch_member = [] };
            parents = [];
            members = [];
          } in
            let keeps = Keeps-put domains name fresh (λ s h. cc (e, h)) in
            (
              Tree-put domains name fresh tree keeps (refl, nonempty, refl, omega arith)
                  (λ p m. absurd m),
              keeps,
              (fresh, get-put_self domains name fresh, refl),
            ))
  ]
]
