-- ===== src/SwitchTopology/Inputs/Builders.antt =====
-- The switch builders: every operation keeps the neighbors of a builder distinct and named.
use unifabric.Common.{
  String, [], ◌∷◌, ◌++◌, Map, true, false, not, ◌&&◌, ◌||◌, some, get, put, keys, value_or, get-put,
  Distinct-keys-put, Member-keys-put, Member_of_get, string_eq, ◌==◌, ==_iff, ==_cases,
  if◌then◌else◌, map, Member, Member-append, Distinct, Distinct-append_one, Bool-cases,
  Option-cases, ◌≡◌, ◌≢◌, ◌↔◌, refl, sym, subst, ap, ◌∙◌, arith, ◌⊎◌, inl, inr,
}
use mathlib.Core.List.{map-append}
use unifabric.Topology.Types.{Neighbor}
use unifabric.SwitchTopology.Types.{Gives, unknown_neighbor, self_reference}
use unifabric.SwitchTopology.Objects.{SwitchNeighbor, SwitchObject, kubernetes_node_type}
use unifabric.SwitchTopology.ResourceNames.{normalize_resource_name}
use unifabric.SwitchTopology.Inputs.{
  NameSet, is_in, TopologySwitchBuilder, Builders, new_builder, add_neighbor, ensure_switch_builder,
  add_link, resolve_switch_name, canonical_remote_system_name, add_manual_neighbor,
  add_reported_neighbor,
}

abbrev pub remote_of : Neighbor → String
remote_of n = n.remote_system_name

-- The neighbors belong to the switch and have names, no two the same, and `seen` has just these names.
abbrev pub IsBuilder : String → TopologySwitchBuilder → Type 0
IsBuilder name b =
    (b.data_of.name ≡ name)
    × ((n : Neighbor)
        → Member n b.data_of.neighbors
        → (n.local_device_name ≡ name) × (n.remote_system_name ≢ ""))
    × Distinct (map remote_of b.data_of.neighbors)
    × ((r : String) → (is_in b.seen r ≡ true) ↔ Member r (map remote_of b.data_of.neighbors))

abbrev pub AreBuilders : Builders → Type 0
AreBuilders builders =
    Distinct (keys builders)
    × ((name : String) (b : TopologySwitchBuilder) → get builders name ≡ some b → IsBuilder name b)

new_builder-IsBuilder : (name : String) → IsBuilder name (new_builder name)
unfolding get
new_builder-IsBuilder name = (refl, (λ n m. absurd m), tt, λ r. ((λ h. absurd cc), λ m. absurd m))

pub is_in-put :
    (set : NameSet) (name r : String)
    → (is_in (put set name true) r ≡ true) ↔ ((is_in set r ≡ true) ⊎ (r ≡ name))
is_in-put set name r = elim (==_cases name r) [
  | inl (e, b) ↦
      ((λ h. inr (sym e)), λ h. ap (value_or false) (get-put set name r true) ∙ rw b refl)
  | inr (ne, b) ↦
      let same : is_in (put set name true) r ≡ is_in set r =
        ap (value_or false) (get-put set name r true) ∙ rw b refl in
      ((λ h. inl (sym same ∙ h)), λ h. elim h [ inl i ↦ same ∙ i | inr e ↦ absurd (ne (sym e)) ])
]

add_neighbor-IsBuilder :
    (name remote : String) (b : TopologySwitchBuilder)
    → IsBuilder name b
    → IsBuilder name
        (add_neighbor b (record { local_device_name = name; remote_system_name = remote }))
unfolding add_neighbor
add_neighbor-IsBuilder name remote b (own, links, distinct, seen) =
    elim (Bool-cases (remote == "" || is_in b.seen remote)) [
      | inl e ↦ rw (e, IsBuilder) (own, links, distinct, seen)
      | inr e ↦
          let n : Neighbor = record { local_device_name = name; remote_system_name = remote } in
          let named : remote ≢ "" = ground (arith, e, ==_iff remote "") in
          let unseen : is_in b.seen remote ≡ false = ground (arith, e) in
          let fresh : ¬ Member remote (map remote_of b.data_of.neighbors) =
            λ m. let t = (seen remote).1 m in absurd cc in
          let longer : map remote_of (b.data_of.neighbors ++ n ∷ [])
              ≡ map remote_of b.data_of.neighbors ++ remote ∷ [] =
            map-append remote_of b.data_of.neighbors (n ∷ []) in
          rw (e, IsBuilder)
            (
              own,
              (λ m i. elim ((Member-append m b.data_of.neighbors (n ∷ [])).0 i) [
                | inl j ↦ links m j
                | inr j ↦ elim j [
                  | inl q ↦ (
                    ap (λ x. x.local_device_name) q,
                    λ z. named (sym (ap (λ x. x.remote_system_name) q) ∙ z),
                  )
                  | inr k ↦ absurd k
                ]
              ]),
              rw longer
                  (Distinct-append_one remote (map remote_of b.data_of.neighbors) fresh distinct),
              λ r. rw longer (
                  ground (
                    arith,
                    is_in-put b.seen remote r,
                    seen r,
                    Member-append r (map remote_of b.data_of.neighbors) (remote ∷ []),
                  )),
            )
    ]

put-AreBuilders :
    (builders : Builders) (name : String) (b : TopologySwitchBuilder)
    → AreBuilders builders
    → IsBuilder name b
    → AreBuilders (put builders name b)
put-AreBuilders builders name b (d, all) h = (
  Distinct-keys-put builders name b d,
  λ other c g. elim (==_cases name other) [
    | inl (e, t) ↦
        let q : some b ≡ some c = rw t at (sym (get-put builders name other b) ∙ g) in
        let q' : b ≡ c = cc in subst (λ n. IsBuilder n c) e (subst (IsBuilder name) q' h)
    | inr (ne, t) ↦ all other c (rw t at (sym (get-put builders name other b) ∙ g))
  ],
)

-- What an operation on the builders keeps: they are builders, and no switch is lost.
abbrev pub Keeps : Builders → Builders → Type 0
Keeps builders builders' =
    AreBuilders builders'
    × ((name : String) → Member name (keys builders) → Member name (keys builders'))

pub ensure_switch_builder-Keeps :
    (builders : Builders) (name : String)
    → AreBuilders builders
    → Keeps builders ((ensure_switch_builder builders name).0)
      × IsBuilder name ((ensure_switch_builder builders name).1)
      × Member name (keys ((ensure_switch_builder builders name).0))
unfolding ensure_switch_builder
ensure_switch_builder-Keeps builders name h = elim (Option-cases (get builders name)) [
  | inr (b, e) ↦
      rw (e, ensure_switch_builder, Keeps, AreBuilders, IsBuilder, keys)
        ((h, λ n m. m), h.1 name b e, Member_of_get builders name b e)
  | inl e ↦
      rw (e, ensure_switch_builder, Keeps, AreBuilders, IsBuilder, keys)
        (
          (
            put-AreBuilders builders name (new_builder name) h (new_builder-IsBuilder name),
            λ n m. (Member-keys-put builders name n (new_builder name)).1 (inl m),
          ),
          new_builder-IsBuilder name,
          (Member-keys-put builders name name (new_builder name)).1 (inr refl),
        )
]

Keeps-trans : (a b c : Builders) → Keeps a b → Keeps b c → Keeps a c
Keeps-trans a b c h k = (k.0, λ name m. k.1 name (h.1 name m))

pub add_link-Keeps :
    (builders : Builders) (name remote : String)
    → AreBuilders builders
    → Keeps builders (add_link builders name remote)
unfolding add_link
add_link-Keeps builders name remote h =
    let (builders', b) = ensure_switch_builder builders name in
    let ensured = ensure_switch_builder-Keeps builders name h in
    let link : Neighbor = record { local_device_name = name; remote_system_name = remote } in
    (
      put-AreBuilders builders' name (add_neighbor b link) ensured.0.0
          (add_neighbor-IsBuilder name remote b ensured.1),
      λ n m. (Member-keys-put builders' name n (add_neighbor b link)).1 (inl (ensured.0.1 n m)),
    )

module _ (normalized : Map String String) where
  pub add_manual_neighbor-Keeps :
      (synthetic : NameSet) (sw : SwitchObject) (builders : Builders) (neighbor_name : String)
      → AreBuilders builders
      → Gives
          (Keeps builders)
          (λ e. (e ≡ unknown_neighbor) ⊎ (e ≡ self_reference))
          (add_manual_neighbor normalized synthetic sw builders neighbor_name)
  unfolding add_manual_neighbor
  add_manual_neighbor-Keeps synthetic sw builders neighbor_name h =
      let resolved = resolve_switch_name neighbor_name normalized builders in
      let name = if resolved.1 then resolved.0 else normalize_resource_name neighbor_name in
      elim (Bool-cases (not (resolved.1) && not (is_in synthetic name))) [
        | inl e ↦ rw (e, Gives) (inl refl)
        | inr e ↦ elim (Bool-cases (name == sw.name)) [
          | inl e' ↦ rw (e, e', Gives) (inr refl)
          | inr e' ↦ rw (e, e', Gives) (add_link-Keeps builders sw.name name h)
        ]
      ]

  pub add_reported_neighbor-Keeps :
      (hosts : NameSet) (sw : SwitchObject) (builders : Builders) (neighbor : SwitchNeighbor)
      → AreBuilders builders
      → Keeps builders (add_reported_neighbor hosts normalized sw builders neighbor)
  unfolding add_reported_neighbor
  add_reported_neighbor-Keeps hosts sw builders neighbor h =
      let remote = canonical_remote_system_name neighbor.remote_system_name hosts normalized in
      elim (Bool-cases
        (neighbor.remote_system_type == kubernetes_node_type || is_in hosts remote)) [
          | inl e ↦ rw (e, Keeps, AreBuilders, keys) (h, λ n m. m)
          | inr e ↦ rw (e, Keeps, AreBuilders, keys) (add_link-Keeps builders sw.name remote h)
        ]
