-- ===== src/SwitchTopology/Discovered/Ends.antt =====
-- `normalizeDiscoveredGroups`: the Nodes below each group, and its errors.
use unifabric.Common.{
  String, List, [], ◌∷◌, ◌++◌, Map, ℕ, ◌+◌, some, get, get_or, keys, string_eq, foldl, Member,
  Member-append, Member-sort_by, string_less, Option-cases, ◌≡◌, ◌↔◌, ◌⊎◌, refl, sym, subst, ap,
  ◌∙◌, inl, inr, ℤ,
}
use unifabric.Topology.Types.{Host, Topology, TopologyGroup}
use unifabric.SwitchTopology.Types.{AutoLabelError, Gives, Gives-imp, Gives->>=, fold_attempt}
use unifabric.SwitchTopology.Plan.Fits.{IsReported}
use unifabric.SwitchTopology.Discovered.{
  NodesByGroup, DiscoveredGroup, group_tier, sorted_string_set, discovered_group, discovered_tier,
  add_host_path, normalize_discovered_groups, index_discovered,
}
use unifabric.SwitchTopology.Discovered.Paths.{IsWrong, IsBlocked}
use unifabric.SwitchTopology.Discovered.Walks.{
  AllWalk, IsBelow, IsBlockedWalk, walks-IsWalked, IsWalked,
}

-- a loop that appends one result for each element
Member-appended :
    {A B : Type 0} (f : A → B) (b : B) (xs : List A) (start : List B)
    → Member b (foldl (λ r x. r ++ f x ∷ []) start xs)
      ↔ (Member b start ⊎ ((x : A) × Member x xs × (b ≡ f x)))
Member-appended f b [] start = (inl, λ m. elim m [ inl k ↦ k | inr found ↦ absurd (found.1) ])
Member-appended f b (x ∷ xs) start =
    let rest = Member-appended f b xs (start ++ f x ∷ []) in
    let here = Member-append b start (f x ∷ []) in
    (
      λ m. elim (rest.0 m) [
        | inl k ↦ elim (here.0 k) [
          | inl old ↦ inl old
          | inr (inl e) ↦ inr (x, inl refl, e)
          | inr (inr z) ↦ absurd z
        ]
        | inr (y, i, e) ↦ inr (y, inr i, e)
      ],
      λ m. elim m [
        | inl old ↦ rest.1 (inl (here.1 (inl old)))
        | inr (y, inl q, e) ↦ rest.1 (inl (here.1 (inr (inl (e ∙ ap f q)))))
        | inr (y, inr i, e) ↦ rest.1 (inr (y, i, e))
      ],
    )

-- The group is one of a positive tier of the topology.
abbrev pub IsTierGroup : List (ℤ × List TopologyGroup) → ℕ → TopologyGroup → Type 0
IsTierGroup tiers n group =
    (tier : ℤ) × (groups : List TopologyGroup) × Member (tier, groups) tiers
    × (group_tier tier ≡ some n)
    × Member group groups

module _ (of_device : Map String String) (nodes : NodesByGroup) where
  discovered_group_lem :
      (n : ℕ) (group : TopologyGroup)
      → let g = discovered_group of_device nodes n group in
        (g.internal_name ≡ group.name)
        × (g.tier ≡ n)
        × ((name : String) → Member name g.nodes ↔ Member name (keys (get_or nodes group.name [])))
  unfolding discovered_group sorted_string_set
  discovered_group_lem n group =
      (refl, refl, λ name. Member-sort_by string_less name (keys (get_or nodes group.name [])))

  Member-discovered_tier :
      (g : DiscoveredGroup) (tier : ℤ) (groups : List TopologyGroup) (start : List DiscoveredGroup)
      → Member g (discovered_tier of_device nodes start (tier, groups)) ↔ (
          Member g start
          ⊎ ((n : ℕ) × (group : TopologyGroup) × (group_tier tier ≡ some n)
              × Member group groups
              × (g ≡ discovered_group of_device nodes n group)))
  unfolding discovered_tier
  Member-discovered_tier g tier groups start = elim (Option-cases (group_tier tier)) [
    | inl e ↦
        rw (e, discovered_tier)
          (inl, λ m. elim m [ inl k ↦ k | inr (n, group, q, i, r) ↦ absurd cc ])
    | inr (n, e) ↦
        let all = Member-appended (discovered_group of_device nodes n) g groups start in
        rw (e, discovered_tier)
          (
            (λ m. elim (all.0 m) [
              | inl k ↦ inl k
              | inr (group, i, r) ↦ inr (n, group, refl, i, r)
            ]),
            λ m. elim m [
              | inl k ↦ all.1 (inl k)
              | inr (n', group, q, i, r) ↦
                  let same : n' ≡ n = cc in
                  all.1
                    (inr (group, i, r ∙ ap (λ k. discovered_group of_device nodes k group) same))
            ],
          )
  ]

  Member-discovered :
      (g : DiscoveredGroup) (tiers : List (ℤ × List TopologyGroup)) (start : List DiscoveredGroup)
      → Member g (foldl (discovered_tier of_device nodes) start tiers) ↔ (
          Member g start
          ⊎ ((n : ℕ) × (group : TopologyGroup) × IsTierGroup tiers n group
              × (g ≡ discovered_group of_device nodes n group)))
  Member-discovered g [] start =
      (inl, λ m. elim m [ inl k ↦ k | inr (n, group, (t, gs, z, q, i), s) ↦ absurd z ])
  Member-discovered g ((tier, groups) ∷ tiers) start =
      let rest = Member-discovered g tiers (discovered_tier of_device nodes start (tier, groups)) in
      let here = Member-discovered_tier g tier groups start in
      (
        λ m. elim (rest.0 m) [
          | inl k ↦ elim (here.0 k) [
            | inl old ↦ inl old
            | inr (n, group, q, i, r) ↦ inr (n, group, (tier, groups, inl refl, q, i), r)
          ]
          | inr (n, group, (t, gs, j, q, i), r) ↦ inr (n, group, (t, gs, inr j, q, i), r)
        ],
        λ m. elim m [
          | inl old ↦ rest.1 (inl (here.1 (inl old)))
          | inr (n, group, (t, gs, inl p, q, i), r) ↦
              let first : t ≡ tier = ap (λ (x : ℤ × List TopologyGroup). x.0) p in
              let second : gs ≡ groups = ap (λ (x : ℤ × List TopologyGroup). x.1) p in
              rest.1 (
                inl (
                  here.1 (
                    inr
                      (n, group, sym (ap group_tier first) ∙ q, subst (Member group) second i, r))))
          | inr (n, group, (t, gs, inr j, q, i), r) ↦ rest.1 (inr (n, group, (t, gs, j, q, i), r))
        ],
      )

abbrev groups_of : Topology → Map String TopologyGroup
groups_of discovered = (index_discovered discovered).by_name

-- one of the groups of the tiers, with the Nodes below it
abbrev pub IsGroup : Topology → Map String TopologyGroup → List Host → DiscoveredGroup → Type 0
IsGroup discovered groups hosts g =
    ((n : ℕ) × (group : TopologyGroup) × IsTierGroup discovered.groups_by_tier n group
      × (g.internal_name ≡ group.name)
      × (g.tier ≡ n))
    × ((name : String) → Member name g.nodes ↔ IsBelow discovered groups hosts name g.internal_name)

-- all of the groups
abbrev pub AreGroups :
    Topology → Map String TopologyGroup → List Host → List DiscoveredGroup → Type 0
AreGroups discovered groups hosts result =
    AllWalk discovered groups hosts
    × ((n : ℕ) (group : TopologyGroup)
        → IsTierGroup discovered.groups_by_tier n group
        → (g : DiscoveredGroup) × Member g result × (g.internal_name ≡ group.name) × (g.tier ≡ n))
    × ((g : DiscoveredGroup) → Member g result → IsGroup discovered groups hosts g)

-- normalizeDiscoveredGroups, for every topology and hosts; the walk of a host has one round more than
-- there are groups. Where it returns groups, the groups above each host are a path: each is the only
-- parent of the one below it, their tiers are 1, 2 and so on, no group is on it twice, and the last has
-- no parent. The result has the groups of the positive tiers, each with its name and its tier, and the
-- Nodes of a group are those hosts on whose path it is. Where it fails, the walk of some host meets two
-- parents, a group for the second time, a parent that is no group, or one of another tier than the next,
-- and the error says which of these it is.
pub normalize_discovered_groups_exact :
    (discovered : Topology) (hosts : List Host)
    → let groups = (index_discovered discovered).by_name in
      Gives
        (AreGroups discovered groups hosts)
        (IsBlockedWalk discovered groups hosts)
        (normalize_discovered_groups discovered hosts)
unfolding normalize_discovered_groups get
normalize_discovered_groups_exact discovered hosts =
    let groups = groups_of discovered in
    let of_device = (index_discovered discovered).of_device in
    Gives->>= (IsWalked discovered groups [] hosts) (AreGroups discovered groups hosts)
      (IsBlockedWalk discovered groups hosts)
      (fold_attempt (add_host_path discovered groups) [] hosts) _
      (walks-IsWalked discovered groups hosts [])
      (λ nodes (all, members). (
        all,
        (λ n group i. (
          discovered_group of_device nodes n group,
          (Member-discovered of_device nodes _ discovered.groups_by_tier []).1
              (inr (n, group, i, refl)),
          (discovered_group_lem of_device nodes n group).0,
          (discovered_group_lem of_device nodes n group).1,
        )),
        λ g m. elim ((Member-discovered of_device nodes g discovered.groups_by_tier []).0 m) [
          | inl z ↦ absurd z
          | inr (n, group, i, e) ↦ subst (IsGroup discovered groups hosts) (sym e) (
              let (named, tiered, below) = discovered_group_lem of_device nodes n group in
              (
                (n, group, i, named, tiered),
                λ name.
                    let found = members group.name name in
                    (
                      (λ k.
                          subst (IsBelow discovered groups hosts name) (sym named)
                            (elim (found.0 ((below name).0 k)) [ inl z ↦ absurd z | inr b ↦ b ])),
                      λ b.
                          (below name).1
                            (found.1 (inr (subst (IsBelow discovered groups hosts name) named b))),
                    ),
              ))
        ],
      ))

blocked-IsReported :
    (discovered : Topology) (groups : Map String TopologyGroup) (current : String) (expected : ℕ)
    (seen : List String) (e : AutoLabelError) (path : List String)
    → IsBlocked discovered groups current expected seen e path
    → IsReported e
blocked-IsReported discovered groups current expected seen e (parent ∷ path) (p, at, blocked) =
    blocked-IsReported discovered groups parent (expected + 1) (parent ∷ seen) e path blocked
blocked-IsReported discovered groups current expected seen e [] wrong =
    wrong-IsReported (get_or discovered.parent_index current []) wrong
  where
    wrong-IsReported :
        (parents : List String) → IsWrong groups expected seen e parents → IsReported e
    wrong-IsReported [] w = absurd w
    wrong-IsReported (a ∷ b ∷ rest) w = rw w refl
    wrong-IsReported (p ∷ []) (inl (m, w)) = rw w refl
    wrong-IsReported (p ∷ []) (inr (inl (m, w))) = rw w refl
    wrong-IsReported (p ∷ []) (inr (inr (group, g, ne, w))) = rw w refl

-- none of the errors stands for a loop without end
pub normalize_discovered_groups-IsReported :
    (discovered : Topology) (hosts : List Host)
    → Gives (λ groups. Unit {0}) IsReported (normalize_discovered_groups discovered hosts)
normalize_discovered_groups-IsReported discovered hosts =
    let groups = groups_of discovered in
    Gives-imp (AreGroups discovered groups hosts) (λ result. Unit {0})
      (IsBlockedWalk discovered groups hosts) IsReported
      (normalize_discovered_groups discovered hosts) (λ result h. tt)
      (λ e (host, m, path, blocked).
        blocked-IsReported discovered groups host.name 1 [] e path blocked)
      (normalize_discovered_groups_exact discovered hosts)
