-- ===== src/Topology/Parents/Chain.antt =====
-- What `QueryParentChain` returns.
use unifabric.Common.{
  length-le_of_Distinct, String, List, [], ◌∷◌, ◌++◌, ℕ, zero, suc, ◌+◌, ◌≤◌, Option, none, some,
  keys, elem, elem_iff, length, length-append, length-map, Member, Member-keys_iff, Distinct,
  Distinct-append_one, string_eq, Bool-cases, List-cases, ◌≡◌, ◌⊎◌, refl, sym, ap, ◌∙◌, subst, inl,
  inr, arith,
}
use unifabric.Topology.Types.{Topology}
use unifabric.Topology.Parents.{query_parents, parent_chain, query_parent_chain}

module _ (t : Topology) where
  abbrev first_of : List String → Option String
  first_of [] = none
  first_of (p ∷ ps) = some p

  -- the first parent of a name
  abbrev pub first_parent : String → Option String
  first_parent x = first_of (query_parents t x)

  -- each name is the first parent of the one before it
  abbrev pub IsParentChain : String → List String → Type 0
  IsParentChain x [] = Unit
  IsParentChain x (p ∷ ps) = (first_parent x ≡ some p) × IsParentChain p ps

  abbrev pub last_of : String → List String → String
  last_of x [] = x
  last_of x (p ∷ ps) = last_of p ps

  IsParentChain-append :
      (x p : String) (ps : List String)
      → IsParentChain x ps
      → first_parent (last_of x ps) ≡ some p
      → IsParentChain x (ps ++ p ∷ [])
  IsParentChain-append x p [] c h = (h, tt)
  IsParentChain-append x p (q ∷ ps) c h = (c.0, IsParentChain-append q p ps c.1 h)

  last_of-append : (x p : String) (ps : List String) → last_of x (ps ++ p ∷ []) ≡ p
  last_of-append x p [] = refl
  last_of-append x p (q ∷ ps) = last_of-append q p ps

  Member-keys_of_parent : (x p : String) → first_parent x ≡ some p → Member x (keys t.parent_index)
  unfolding query_parents
  Member-keys_of_parent x p h = (Member-keys_iff t.parent_index x).1 (λ e. ground (arith, e, h))

  chain_within :
      (x : String) (ps : List String)
      → IsParentChain x ps
      → (y : String) → Member y ps
      → Member y (last_of x ps ∷ keys t.parent_index)
  chain_within x [] c y m = absurd m
  chain_within x (p ∷ []) c y m = ground (arith, m)
  chain_within x (p ∷ q ∷ ps) c y (inl e) =
      inr (subst (λ s. Member s (keys t.parent_index)) (sym e) (Member-keys_of_parent p q c.1.0))
  chain_within x (p ∷ q ∷ ps) c y (inr m) = chain_within p (q ∷ ps) c.1 y m

  -- what the loop returns for `x`
  pub record IsWholeChain (x : String) (ps : List String) : Type 0 where
    pub chain : IsParentChain x ps
    pub distinct : Distinct ps
    pub ends :
        (first_parent (last_of x ps) ≡ none)
        ⊎ ((p : String) × (first_parent (last_of x ps) ≡ some p) × Member p ps)

  parent_chain_lem :
      (fuel : ℕ) (x current : String) (result : List String)
      → IsParentChain x result
      → Distinct result
      → last_of x result ≡ current
      → length t.parent_index + 2 ≤ fuel + length result
      → IsWholeChain x (parent_chain fuel t current result)
  unfolding parent_chain
  parent_chain_lem zero x current result c d e h = absurd (
      omega (
        arith,
        h,
        length-map (λ entry. entry.0) t.parent_index,
        length-le_of_Distinct result (last_of x result ∷ keys t.parent_index) d
            (chain_within x result c),
      ))
  parent_chain_lem (suc fuel) x current result c d e h =
      elim (List-cases (query_parents t current)) [
        | inl q ↦
            rw (q, parent_chain)
              (record { chain = c; distinct = d; ends = inl (ap first_parent e ∙ ap first_of q) })
        | inr (parent, more, q) ↦
            let found : first_parent (last_of x result) ≡ some parent =
              ap first_parent e ∙ ap first_of q in
            elim (Bool-cases (elem parent result)) [
              | inl b ↦
                  rw (q, b, parent_chain)
                    (record {
                      chain = c;
                      distinct = d;
                      ends = inr (parent, found, (elem_iff parent result).0 b);
                    })
              | inr b ↦
                  rw (q, b, parent_chain)
                    (parent_chain_lem fuel x parent (result ++ parent ∷ [])
                      (IsParentChain-append x parent result c found)
                      (Distinct-append_one parent result (λ m. cc (b, (elem_iff parent result).1 m))
                        d)
                      (last_of-append x parent result)
                      (omega (arith, h, length-append result (parent ∷ []))))
            ]
      ]

  -- `QueryParentChain` returns the chain of first parents of a name: each name is the first parent of
  -- the one before, no name occurs twice, and the last name has no parent or its first parent is
  -- already in the chain.
  pub query_parent_chain-IsWholeChain :
      (name : String) → IsWholeChain name (query_parent_chain t name)
  unfolding query_parent_chain
  query_parent_chain-IsWholeChain name =
      parent_chain_lem (suc (suc (length t.parent_index))) name name [] tt tt refl (omega arith)
