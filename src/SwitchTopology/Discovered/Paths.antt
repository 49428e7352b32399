-- ===== src/SwitchTopology/Discovered/Paths.antt =====
-- The walk up from a host: its end, and the groups that it meets.
use unifabric.Common.{
  String, List, [], ◌∷◌, Map, ℕ, zero, suc, ◌+◌, ◌≤◌, Option, none, some, get, get_or, value_or,
  put, keys, get-put_self, get-put_ne, Member-keys-put, string_eq, int_eq, ==_cases, length,
  length-map, length-le_of_Distinct, elem, elem_iff, Member, Member_of_get, Distinct, pos,
  Bool-cases, Option-cases, ◌≡◌, ◌≢◌, ◌↔◌, ◌⊎◌, refl, subst, sym, ap, arith, inl, inr,
}
use unifabric.Topology.Types.{Topology, TopologyGroup}
use unifabric.SwitchTopology.Types.{
  AutoLabelError, Attempt, Gives, Gives-imp, Gives->>=, multiple_parents, parent_cycle,
  unknown_parent, discontinuous_path,
}
use unifabric.SwitchTopology.Discovered.{NodesByGroup, check_parent, go_on, walk_up}

-- the parents of a name
abbrev pub parents_of : Topology → String → List String
parents_of discovered name = get_or discovered.parent_index name []

-- The parent is a group of the expected tier.
abbrev pub IsGroupAt : Map String TopologyGroup → ℕ → String → Type 0
IsGroupAt groups expected parent =
    (group : TopologyGroup) × (get groups parent ≡ some group) × (group.tier ≡ pos expected)

-- The groups above `current`, whose tiers are `expected` and up without a gap: each is the only parent
-- of the one before it, and the last has no parent.
abbrev pub IsPath : Topology → Map String TopologyGroup → String → ℕ → List String → Type 0
IsPath discovered groups current expected [] = parents_of discovered current ≡ []
IsPath discovered groups current expected (parent ∷ path) =
    (parents_of discovered current ≡ parent ∷ [])
    × IsGroupAt groups expected parent
    × IsPath discovered groups parent (expected + 1) path

-- The parents of a name are wrong behind the groups `seen`: there are two, or the one was met before,
-- is no group, or has another tier.
abbrev pub IsWrong :
    Map String TopologyGroup → ℕ → List String → AutoLabelError → List String → Type 0
IsWrong groups expected seen e [] = ⊥
IsWrong groups expected seen e (a ∷ b ∷ rest) = e ≡ multiple_parents
IsWrong groups expected seen e (parent ∷ []) =
    (Member parent seen × (e ≡ parent_cycle))
    ⊎ ((get groups parent ≡ none) × (e ≡ unknown_parent))
    ⊎ ((group : TopologyGroup) × (get groups parent ≡ some group)
        × (group.tier ≢ pos expected)
        × (e ≡ discontinuous_path))

-- The walk meets these groups, and then wrong parents.
abbrev pub IsBlocked :
    Topology
    → Map String TopologyGroup
    → String
    → ℕ
    → List String
    → AutoLabelError
    → List String
    → Type 0
IsBlocked discovered groups current expected seen e [] =
    IsWrong groups expected seen e (parents_of discovered current)
IsBlocked discovered groups current expected seen e (parent ∷ path) =
    (parents_of discovered current ≡ parent ∷ [])
    × IsGroupAt groups expected parent
    × IsBlocked discovered groups parent (expected + 1) (parent ∷ seen) e path

-- what a round finds
abbrev IsStep : Map String TopologyGroup → ℕ → List String → List String → Option String → Type 0
IsStep groups expected seen parents none = parents ≡ []
IsStep groups expected seen parents (some parent) =
    (parents ≡ parent ∷ []) × IsGroupAt groups expected parent × (¬ Member parent seen)

check_parent-IsStep :
    (groups : Map String TopologyGroup) (expected : ℕ) (seen parents : List String)
    → Gives
        (IsStep groups expected seen parents)
        (λ e. IsWrong groups expected seen e parents)
        (check_parent groups expected seen parents)
unfolding check_parent
check_parent-IsStep groups expected seen [] = refl
check_parent-IsStep groups expected seen (p ∷ q ∷ rest) = refl
check_parent-IsStep groups expected seen (p ∷ []) = elim (Bool-cases (elem p seen)) [
  | inl e ↦ rw (e, Gives) (inl ((elem_iff p seen).0 e, refl))
  | inr e ↦ elim (Option-cases (get groups p)) [
    | inl n ↦ rw (e, n, Gives) (inr (inl (n, refl)))
    | inr (group, g) ↦ elim (==_cases group.tier (pos expected)) [
      | inl (same, b) ↦
          rw (e, g, b, Gives)
            (refl, (group, g, same), λ m. let t = (elem_iff p seen).1 m in absurd cc)
      | inr (ne, b) ↦ rw (e, g, b, Gives) (inr (inr (group, g, ne, refl)))
    ]
  ]
]

-- the groups of `after` with the host added to those of the path
abbrev pub AddsHost : NodesByGroup → String → List String → NodesByGroup → Type 0
AddsHost nodes host path after =
    (group name : String)
    → Member name (keys (get_or after group []))
      ↔ (Member name (keys (get_or nodes group [])) ⊎ ((name ≡ host) × Member group path))

AddsHost-put :
    (nodes : NodesByGroup) (host parent : String)
    → AddsHost nodes host (parent ∷ []) (put nodes parent (put (get_or nodes parent []) host tt))
AddsHost-put nodes host parent group name = elim (==_cases parent group) [
  | inl (e, b) ↦
      let now : get_or (put nodes parent (put (get_or nodes parent []) host tt)) group []
          ≡ put (get_or nodes group []) host tt =
        subst
          (λ x.
            get_or (put nodes parent (put (get_or nodes parent []) host tt)) x []
            ≡ put (get_or nodes x []) host tt)
          e (ap (value_or []) (get-put_self nodes parent (put (get_or nodes parent []) host tt))) in
      rw now (
        let put_host = Member-keys-put (get_or nodes group []) host name tt in
        (
          λ m. elim (put_host.0 m) [ inl k ↦ inl k | inr q ↦ inr (q, inl (sym e)) ],
          λ m. elim m [ inl k ↦ put_host.1 (inl k) | inr (q, i) ↦ put_host.1 (inr q) ],
        ))
  | inr (ne, b) ↦
      let now : get_or (put nodes parent (put (get_or nodes parent []) host tt)) group []
          ≡ get_or nodes group [] =
        ap (value_or [])
          (get-put_ne nodes parent group (put (get_or nodes parent []) host tt) ne) in
      rw now (
        (λ m. inl m),
        λ m. elim m [
          | inl k ↦ k
          | inr (q, inl e) ↦ absurd (ne (sym e))
          | inr (q, inr z) ↦ absurd z
        ],
      )
]

module _ (discovered : Topology) (groups : Map String TopologyGroup) (host : String) where
  abbrev pub IsWalk : String → ℕ → List String → NodesByGroup → NodesByGroup → Type 0
  IsWalk current expected seen nodes after =
      (path : List String) × IsPath discovered groups current expected path
      × Distinct path
      × ((name : String) → Member name path → ¬ Member name seen)
      × AddsHost nodes host path after

  abbrev pub IsStopped : String → ℕ → List String → AutoLabelError → Type 0
  IsStopped current expected seen e =
      (path : List String) × IsBlocked discovered groups current expected seen e path

  go_on-IsWalk :
      (current : String) (expected : ℕ) (seen : List String) (nodes : NodesByGroup)
      (next_round : String → Attempt NodesByGroup)
      → ((parent : String)
          → IsStep groups expected seen (parents_of discovered current) (some parent)
          → Gives
              (IsWalk parent
                (expected + 1)
                (parent ∷ seen)
                (put nodes parent (put (get_or nodes parent []) host tt)))
              (IsStopped parent (expected + 1) (parent ∷ seen))
              (next_round parent))
      → (o : Option String) → IsStep groups expected seen (parents_of discovered current) o
      → Gives
          (IsWalk current expected seen nodes)
          (IsStopped current expected seen)
          (go_on nodes next_round o)
  go_on-IsWalk current expected seen nodes next_round walk none step = (
    [],
    step,
    tt,
    (λ name m. absurd m),
    λ group name. (inl, λ m. elim m [ inl k ↦ k | inr (q, z) ↦ absurd z ]),
  )
  go_on-IsWalk current expected seen nodes next_round walk (some parent) (e, at, fresh) =
      let middle = put nodes parent (put (get_or nodes parent []) host tt) in
      Gives-imp (IsWalk parent (expected + 1) (parent ∷ seen) middle)
        (IsWalk current expected seen nodes) (IsStopped parent (expected + 1) (parent ∷ seen))
        (IsStopped current expected seen) (next_round parent)
        (λ after (path, up, unique, apart, adds). (
          parent ∷ path,
          (e, at, up),
          ((λ m. apart parent m (inl refl)), unique),
          (λ name m i. elim m [
            | inl q ↦ fresh (subst (λ x. Member x seen) q i)
            | inr k ↦ apart name k (inr i)
          ]),
          λ group name. ground (arith, adds group name, AddsHost-put nodes host parent group name),
        ))
        (λ f (path, blocked). (parent ∷ path, (e, at, blocked))) (walk parent (e, at, fresh))

  pub walk_up-IsWalk :
      (fuel : ℕ) (current : String) (expected : ℕ) (seen : List String) (nodes : NodesByGroup)
      → Distinct seen
      → ((name : String) → Member name seen → Member name (keys groups))
      → length groups + 1 ≤ fuel + length seen
      → Gives
          (IsWalk current expected seen nodes)
          (IsStopped current expected seen)
          (walk_up fuel discovered groups host current expected seen nodes)
  unfolding walk_up
  walk_up-IsWalk zero current expected seen nodes d within enough = absurd (
      omega (
        arith,
        enough,
        length-le_of_Distinct seen (keys groups) d within,
        length-map (λ (e : String × TopologyGroup). e.0) groups,
      ))
  walk_up-IsWalk (suc fuel) current expected seen nodes d within enough =
      let parents = parents_of discovered current in
      Gives->>= (IsStep groups expected seen parents) _ _
        (check_parent groups expected seen parents) _
        (Gives-imp (IsStep groups expected seen parents) (IsStep groups expected seen parents)
          (λ e. IsWrong groups expected seen e parents) (IsStopped current expected seen)
          (check_parent groups expected seen parents) (λ o h. h) (λ e h. ([], h))
          (check_parent-IsStep groups expected seen parents))
        (go_on-IsWalk current expected seen nodes
          (λ parent.
            walk_up fuel discovered groups host parent (expected + 1) (parent ∷ seen)
              (put nodes parent (put (get_or nodes parent []) host tt)))
          (λ parent h.
            let (e, (group, g, t), fresh) = h in
            walk_up-IsWalk fuel parent (expected + 1) (parent ∷ seen)
              (put nodes parent (put (get_or nodes parent []) host tt)) (fresh, d)
              (λ name m. elim m [
                | inl q ↦
                    subst (λ n. Member n (keys groups)) (sym q)
                      (Member_of_get groups parent group g)
                | inr i ↦ within name i
              ])
              (omega (arith, enough))))
