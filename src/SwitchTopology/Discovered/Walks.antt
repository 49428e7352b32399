-- ===== src/SwitchTopology/Discovered/Walks.antt =====
-- The walks up from all the hosts, one after the other.
use unifabric.Common.{
  String, List, [], ◌∷◌, Map, ℕ, suc, ◌+◌, get_or, keys, string_eq, int_eq, length, Member,
  Distinct, ◌≡◌, ◌↔◌, ◌⊎◌, refl, subst, sym, ap, ◌∙◌, arith, inl, inr,
}
use unifabric.Topology.Types.{Host, Topology, TopologyGroup}
use unifabric.SwitchTopology.Types.{AutoLabelError, fold_attempt, Gives, Gives-imp, Gives->>=}
use unifabric.SwitchTopology.Discovered.{NodesByGroup, walk_up, add_host_path}
use unifabric.SwitchTopology.Discovered.Paths.{IsPath, IsBlocked, IsWalk, IsStopped, walk_up-IsWalk}

-- the walk up from each of the hosts
abbrev pub AllWalk : Topology → Map String TopologyGroup → List Host → Type 0
AllWalk discovered groups hosts =
    (host : Host)
    → Member host hosts
    → (path : List String) × IsPath discovered groups host.name 1 path × Distinct path

-- A host of this name is below the group.
abbrev pub IsBelow : Topology → Map String TopologyGroup → List Host → String → String → Type 0
IsBelow discovered groups hosts name group =
    (host : Host) × Member host hosts
    × (name ≡ host.name)
    × (path : List String) × IsPath discovered groups host.name 1 path
    × Member group path

-- The walk up from some host meets wrong parents.
abbrev pub IsBlockedWalk : Topology → Map String TopologyGroup → List Host → AutoLabelError → Type 0
IsBlockedWalk discovered groups hosts e =
    (host : Host) × Member host hosts
    × (path : List String) × IsBlocked discovered groups host.name 1 [] e path

module _ (discovered : Topology) (groups : Map String TopologyGroup) where
  abbrev pub IsWalked : NodesByGroup → List Host → NodesByGroup → Type 0
  IsWalked nodes hosts after =
      AllWalk discovered groups hosts
      × ((group name : String)
          → Member name (keys (get_or after group [])) ↔ (
              Member name (keys (get_or nodes group []))
              ⊎ IsBelow discovered groups hosts name group))

  -- A name has one path.
  IsPath-unique :
      (current : String) (expected : ℕ) (path other : List String)
      → IsPath discovered groups current expected path
      → IsPath discovered groups current expected other
      → path ≡ other
  IsPath-unique current expected [] [] h k = refl
  IsPath-unique current expected [] (q ∷ other) h k = absurd (let z = sym h ∙ k.0 in cc)
  IsPath-unique current expected (p ∷ path) [] h k = absurd (let z = sym k ∙ h.0 in cc)
  IsPath-unique current expected (p ∷ path) (q ∷ other) (h, at, up) (k, at', up') =
      let z : p ∷ [] ≡ q ∷ [] = sym h ∙ k in
      let e : p ≡ q = cc in
      let rest =
        IsPath-unique q (expected + 1) path other
          (subst (λ x. IsPath discovered groups x (expected + 1) path) e up) up' in
      cc

  IsBelow-cons :
      (host : Host) (hosts : List Host) (path : List String)
      → IsPath discovered groups host.name 1 path
      → (group name : String)
      → IsBelow discovered groups (host ∷ hosts) name group
        ↔ (((name ≡ host.name) × Member group path) ⊎ IsBelow discovered groups hosts name group)
  IsBelow-cons host hosts path up group name = (
    λ below.
        let (h, m, e, path', up', i) = below in
        elim m [
          | inl q ↦
              let same : path' ≡ path =
                IsPath-unique host.name 1 path' path
                  (subst (λ (x : Host). IsPath discovered groups x.name 1 path') q up') up in
              inl (e ∙ ap (λ (x : Host). x.name) q, subst (Member group) same i)
          | inr j ↦ inr (h, j, e, path', up', i)
        ],
    λ c. elim c [
      | inl (e, i) ↦ (host, inl refl, e, path, up, i)
      | inr below ↦ let (h, m, e, path', up', i) = below in (h, inr m, e, path', up', i)
    ],
  )

  pub walks-IsWalked :
      (hosts : List Host) (nodes : NodesByGroup)
      → Gives
          (IsWalked nodes hosts)
          (IsBlockedWalk discovered groups hosts)
          (fold_attempt (add_host_path discovered groups) nodes hosts)
  unfolding fold_attempt add_host_path
  walks-IsWalked [] nodes = (
    (λ host m. absurd m),
    λ group name. (inl, λ m. elim m [ inl k ↦ k | inr below ↦ absurd (below.1) ]),
  )
  walks-IsWalked (host ∷ hosts) nodes =
      Gives->>= (IsWalk discovered groups host.name host.name 1 [] nodes)
        (IsWalked nodes (host ∷ hosts)) _
        (walk_up (suc (length groups)) discovered groups host.name host.name 1 [] nodes) _
        (Gives-imp _ (IsWalk discovered groups host.name host.name 1 [] nodes)
          (IsStopped discovered groups host.name host.name 1 [])
          (IsBlockedWalk discovered groups (host ∷ hosts))
          (walk_up (suc (length groups)) discovered groups host.name host.name 1 [] nodes)
          (λ after h. h) (λ e (path, blocked). (host, inl refl, path, blocked))
          (walk_up-IsWalk discovered groups host.name (suc (length groups)) host.name 1 [] nodes tt
            (λ name m. absurd m) (omega arith)))
        (λ middle (path, up, unique, apart, adds).
          Gives-imp (IsWalked middle hosts) (IsWalked nodes (host ∷ hosts))
            (IsBlockedWalk discovered groups hosts) (IsBlockedWalk discovered groups (host ∷ hosts))
            (fold_attempt (add_host_path discovered groups) middle hosts)
            (λ after (all, members). (
              (λ h m. elim m [
                | inl e ↦ (
                  path,
                  subst (λ (x : Host). IsPath discovered groups x.name 1 path) (sym e) up,
                  unique,
                )
                | inr i ↦ all h i
              ]),
              λ group name. ground (
                arith,
                members group name,
                adds group name,
                IsBelow-cons host hosts path up group name,
              ),
            ))
            (λ e (h, m, path', blocked). (h, inr m, path', blocked)) (walks-IsWalked hosts middle))
