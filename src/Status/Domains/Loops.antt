-- ===== src/Status/Domains/Loops.antt =====
-- The two loops over the tiers of a Node keep the tree of domains and do not panic.
use unifabric.Common.{
  String, Bool, List, [], ◌∷◌, Map, ℕ, zero, suc, ◌+◌, ◌≤◌, ◌<◌, get_or, put, keys, ltb, length,
  Bool-cases, ==_cases, string_eq, nat_eq, ◌≡◌, ◌≢◌, sym, subst, arith, inl, inr, length-sort_by,
  Member-keys-put, length-map,
}
use unifabric.Status.Types.{ok, Safe, Safe->>=, Safe-fold_result}
use unifabric.Status.Domains.{
  Domains, ensure_domain, validate_domain_name, check_tier, check_tiers, sorted_tiers, link_parent,
  link_parents,
}
use unifabric.Status.Domains.Tree.{HasTier, Keeps, Tree, Keeps-put, Tree-put, Safe-ensure_domain}

abbrev value_at : Map ℕ String → ℕ → String
value_at values tier = get_or values tier ""

-- a tree in which the values of the tiers up to `n` are domains of their tiers
pub record HasPath (values : Map ℕ String) (n : ℕ) (domains : Domains) : Type 0 where
  pub tree : Tree domains
  pub placed : (t : ℕ) → 0 < t → t ≤ n → HasTier domains (value_at values t) t

HasPath-next :
    (values : Map ℕ String) (n : ℕ) (a b : Domains)
    → HasPath values n a
    → Tree b × Keeps a b × HasTier b (value_at values (n + 1)) (n + 1)
    → HasPath values (n + 1) b
HasPath-next values n a b h (tree, keeps, last) = record {
  tree = tree;
  placed = λ t lo hi. elim (==_cases t (n + 1)) [
    | inl (e, _) ↦ subst (λ k. HasTier b (value_at values k) k) (sym e) last
    | inr (e, _) ↦ keeps (value_at values t) t (h.placed t lo (ground arith))
  ];
}

module _ (is_valid_label_value : String → Bool) where
  pub Safe-validate_domain_name :
      (name : String) → Safe (λ _. name ≢ "") (validate_domain_name is_valid_label_value name)
  unfolding validate_domain_name
  Safe-validate_domain_name name = elim (==_cases name "") [
    | inl (e, b) ↦ rw b (λ h. cc)
    | inr (e, b) ↦ elim (Bool-cases (is_valid_label_value name)) [
      | inl c ↦ rw (b, c) e
      | inr c ↦ rw (b, c) (λ h. cc)
    ]
  ]

  module _ (values : Map ℕ String) where
    abbrev Going : List ℕ → ℕ × Domains → Type 0
    Going tiers s = HasPath values s.0 s.1 × (s.0 + length tiers ≡ length values)

    Safe-check_tier :
        (tier : ℕ) (tiers : List ℕ) (s : ℕ × Domains)
        → Going (tier ∷ tiers) s
        → Safe (Going tiers) (check_tier is_valid_label_value values s tier)
    unfolding check_tier
    Safe-check_tier tier tiers (index, domains) (h, left) = elim (==_cases tier (index + 1)) [
      | inr (e, b) ↦ rw b (λ p. cc)
      | inl (e, b) ↦ rw b (
          Safe->>= (λ _. value_at values tier ≢ "") (Going tiers) _ _
            (Safe-validate_domain_name (value_at values tier))
            (λ _ nonempty.
              Safe->>=
                (λ later.
                  Tree later × Keeps domains later × HasTier later (value_at values tier) tier)
                (Going tiers) (ensure_domain domains (value_at values tier) tier)
                (λ later. ok (index + 1, later))
                (Safe-ensure_domain domains (value_at values tier) tier h.tree nonempty)
                (λ later (tree, keeps, has). (
                  HasPath-next values index domains later h
                      (tree, keeps, subst (λ k. HasTier later (value_at values k) k) e has),
                  ground (arith, left),
                ))))
    ]

    -- After the loop every tier from 1 to the number of values is a domain of that tier.
    pub Safe-check_tiers :
        (domains : Domains)
        → Tree domains
        → Safe (HasPath values (length values)) (check_tiers is_valid_label_value values domains)
    unfolding check_tiers sorted_tiers
    Safe-check_tiers domains tree =
        Safe->>= (Going []) (HasPath values (length values)) _ _
          (Safe-fold_result Going (check_tier is_valid_label_value values) Safe-check_tier
            (sorted_tiers values) (0, domains)
            (
              record { tree = tree; placed = λ t lo hi. absurd (omega arith) },
              omega (arith, length-sort_by ltb (keys values), length-map (λ e. e.0) values),
            ))
          (λ s (h, e). subst (λ n. HasPath values n s.1) (omega (arith, e)) h)

module _ (values : Map ℕ String) (n : ℕ) where
  Safe-link_parent :
      (domains : Domains) (tier : ℕ)
      → HasPath values n domains
      → 0 < tier
      → tier < n
      → Safe (HasPath values n) (link_parent values domains tier)
  unfolding link_parent
  Safe-link_parent domains tier h lo hi =
      let (s, e, here) = h.placed tier lo (omega arith) in
      let link = record s { parents = put s.parents (value_at values (tier + 1)) tt } in
      let keeps = Keeps-put domains (value_at values tier) link (λ r q. ground (arith, e, q)) in
      let tree = h.tree in
      elim (Bool-cases (ltb 1 (length link.parents))) [
        | inl b ↦ rw (e, b, link_parent) (λ p. cc)
        | inr b ↦
            rw (e, b, link_parent)
              (record {
                tree =
                    Tree-put domains (value_at values tier) link tree keeps
                      (let (a, c, d, f) = tree.named (value_at values tier) s e in
                        (a, c, d, ground (arith, b)))
                      (λ p m.
                        elim ((Member-keys-put s.parents (value_at values (tier + 1)) p tt).0 m) [
                          | inl old ↦ tree.parents (value_at values tier) p s e old
                          | inr new ↦
                              let next = h.placed (tier + 1) (omega arith) (omega arith) in
                              subst (λ k. HasTier domains p (k + 1)) (sym here)
                                (subst (λ q. HasTier domains q (tier + 1)) (sym new) next)
                        ]);
                placed = λ t a c. keeps (value_at values t) t (h.placed t a c);
              })
      ]

  pub Safe-link_parents :
      (rounds tier : ℕ) (domains : Domains)
      → 0 < tier
      → tier + rounds ≤ n
      → HasPath values n domains
      → Safe (HasPath values n) (link_parents values rounds tier domains)
  unfolding link_parents
  Safe-link_parents zero tier domains lo hi h = h
  Safe-link_parents (suc rounds) tier domains lo hi h =
      Safe->>= (HasPath values n) (HasPath values n) (link_parent values domains tier) _
        (Safe-link_parent domains tier h lo (ground arith))
        (λ later k. Safe-link_parents rounds (tier + 1) later (omega arith) (omega arith) k)
