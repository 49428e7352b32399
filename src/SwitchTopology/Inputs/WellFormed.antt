-- ===== src/SwitchTopology/Inputs/WellFormed.antt =====
-- The steps of `buildTopologyInputsForRole` keep its maps well formed.
use unifabric.Common.{
  String, List, [], ◌∷◌, Map, Bool, true, false, Option, put, keys, Distinct-keys-put,
  Member-keys-put, get_of_Member, string_eq, ◌==◌, if_keeps, get_or, foldl, foldl_keeps, map,
  Member, Distinct, sort_by, string_less, string_order, Increasing, Increasing-sort_by,
  Member-sort_by, insert_sorted, Bool-cases, Option-cases, ◌≡◌, ◌≢◌, refl, sym, subst, ap, ◌∙◌, ◌⊎◌,
  inl, inr,
}
use unifabric.Topology.Types.{Switch, Neighbor}
use unifabric.SwitchTopology.Types.{
  AutoLabelError, Gives, Gives->>=, Gives-imp, Gives-fold_attempt, unknown_neighbor, self_reference,
  not_string_array, empty_neighbor_name,
}
use unifabric.SwitchTopology.Objects.{
  NicInfo, FabricNode, SwitchObject, switch_neighbors_annotation,
}
use unifabric.SwitchTopology.ResourceNames.{trim_space, normalize_resource_name}
use unifabric.SwitchTopology.Inputs.{
  NameSet, TopologySwitchBuilder, Builders, ensure_switch_builder, add_link, resolve_switch_name,
  trim_names, parse_manual_switch_neighbors, Scan, scan_nic, scan_node, node_nics_for_role,
  add_manual_neighbor, add_reported_neighbor, sorted_switch, topology_switches,
  add_switch_neighbors,
}
use unifabric.SwitchTopology.Inputs.Builders.{
  remote_of, IsBuilder, AreBuilders, Keeps, ensure_switch_builder-Keeps, add_link-Keeps,
  add_manual_neighbor-Keeps, add_reported_neighbor-Keeps,
}

-- The neighbors of a switch belong to it, have names, and stand in the strict order of their names.
abbrev pub IsSortedSwitch : Switch → Type 0
IsSortedSwitch sw =
    ((n : Neighbor)
      → Member n sw.neighbors
      → (n.local_device_name ≡ sw.name) × (n.remote_system_name ≢ ""))
    × Increasing string_less (map remote_of sw.neighbors)

-- the order of the neighbors is the order of their names
insert_sorted-map :
    (n : Neighbor) (ns : List Neighbor)
    → map remote_of (insert_sorted (λ a b. string_less (remote_of a) (remote_of b)) n ns)
      ≡ insert_sorted string_less (remote_of n) (map remote_of ns)
unfolding insert_sorted
insert_sorted-map n [] = refl
insert_sorted-map n (m ∷ ns) = elim (Bool-cases (string_less (remote_of m) (remote_of n))) [
  | inl e ↦ rw e (ap (λ l. remote_of m ∷ l) (insert_sorted-map n ns))
  | inr e ↦ rw e refl
]

sort_by-map :
    (ns : List Neighbor)
    → map remote_of (sort_by (λ a b. string_less (remote_of a) (remote_of b)) ns)
      ≡ sort_by string_less (map remote_of ns)
unfolding sort_by
sort_by-map [] = refl
sort_by-map (n ∷ ns) =
    insert_sorted-map n (sort_by (λ a b. string_less (remote_of a) (remote_of b)) ns)
    ∙ ap (insert_sorted string_less (remote_of n)) (sort_by-map ns)

sorted_switch-IsSortedSwitch :
    (name : String) (b : TopologySwitchBuilder)
    → IsBuilder name b
    → ((sorted_switch b).name ≡ name) × IsSortedSwitch (sorted_switch b)
unfolding sorted_switch
sorted_switch-IsSortedSwitch name b (own, links, distinct, seen) = (
  own,
  (
    λ n m.
        let link = links n (
          (Member-sort_by (λ a c. string_less (remote_of a) (remote_of c)) n b.data_of.neighbors).0
            m) in
        (link.0 ∙ sym own, link.1),
    rw (sort_by-map b.data_of.neighbors)
        (Increasing-sort_by string_order (map remote_of b.data_of.neighbors) distinct),
  ),
)

-- the switches of sorted names that all have builders
pub topology_switches-IsSorted :
    (builders : Builders) (names : List String)
    → AreBuilders builders
    → ((name : String) → Member name names → Member name (keys builders))
    → Gives
        (λ switches.
          (map (λ (sw : Switch). sw.name) switches ≡ names)
          × ((sw : Switch) → Member sw switches → IsSortedSwitch sw))
        (λ e. ⊥)
        (topology_switches builders names)
unfolding topology_switches
topology_switches-IsSorted builders [] h k = (refl, λ sw m. absurd m)
topology_switches-IsSorted builders (name ∷ names) h k =
    let (b, g) = get_of_Member builders name (k name (inl refl)) in
    let sorted = sorted_switch-IsSortedSwitch name b (h.1 name b g) in
    rw (g, Gives)
      (Gives->>= _ _ (λ e. ⊥) (topology_switches builders names) _
        (topology_switches-IsSorted builders names h (λ n m. k n (inr m)))
        (λ rest q. (
          ap (λ l. (sorted_switch b).name ∷ l) (q.0) ∙ ap (λ n. n ∷ names) sorted.0,
          λ sw m. elim m [ inl e ↦ subst IsSortedSwitch (sym e) sorted.1 | inr j ↦ q.1 sw j ],
        )))

module _ (role_names node_names : List String) where
  -- The builders hold the switches of the role, and the hosts are FabricNodes.
  abbrev pub IsScan : Scan → Type 0
  IsScan s =
      AreBuilders s.builders
      × ((name : String) → Member name role_names → Member name (keys s.builders))
      × Distinct (keys s.participating)
      × ((name : String) → Member name (keys s.participating) → Member name node_names)

  -- the same with other builders
  kept_scan :
      (s t : Scan)
      → IsScan s
      → Keeps s.builders t.builders
      → t.participating ≡ s.participating
      → IsScan t
  kept_scan s t (b, r, d, p) k e = (
    k.0,
    (λ name m. k.1 name (r name m)),
    subst (λ set. Distinct (keys set)) (sym e) d,
    λ name m. p name (subst (λ set. Member name (keys set)) e m),
  )

  module _ (normalized : Map String String) (synthesize : Bool) where
    pub scan_nic-IsScan :
        (node_name : String) (s : Scan) (matched : Bool) (nic : NicInfo)
        → IsScan s
        → IsScan ((scan_nic normalized synthesize node_name (s, matched) nic).0)
    unfolding scan_nic
    scan_nic-IsScan node_name s matched nic h =
        let hostname = nic.lldp_neighbor.hostname in
        let resolved = resolve_switch_name hostname normalized s.builders in
        let name = normalize_resource_name hostname in
        let linked : (n : String)
            → (set : NameSet)
            → IsScan (record s { builders = add_link s.builders n node_name; synthetic = set }) =
          λ n set.
            kept_scan s (record s { builders = add_link s.builders n node_name; synthetic = set }) h
              (add_link-Keeps s.builders n node_name h.0) refl in
        let P : Scan × Bool → Type 0 = λ r. IsScan (r.0) in
        if_keeps P _ h (
          if_keeps P (resolved.1) (linked (resolved.0) s.synthetic) (
            if_keeps P synthesize
              (if_keeps P (name == "") h (linked name (put s.synthetic name true))) h))

    pub scan_node-IsScan :
        (role : String) (s : Scan) (node : FabricNode)
        → Member node.name node_names
        → IsScan s
        → IsScan (scan_node role normalized synthesize s node)
    unfolding scan_node
    scan_node-IsScan role s node m h =
        let nics = node_nics_for_role node role in
        let scanned = foldl (scan_nic normalized synthesize node.name) (s, false) nics in
        let kept : IsScan (scanned.0) =
          foldl_keeps (λ (r : Scan × Bool). IsScan (r.0)) (scan_nic normalized synthesize node.name)
            nics (s, false) (λ r nic i k. scan_nic-IsScan node.name (r.0) (r.1) nic k) h in
        if_keeps IsScan (scanned.1)
          (
            kept.0,
            kept.1,
            Distinct-keys-put (scanned.0).participating node.name true kept.2,
            λ name k. elim ((Member-keys-put (scanned.0).participating node.name name true).0 k) [
              | inl i ↦ kept.3 name i
              | inr e ↦ subst (λ n. Member n node_names) (sym e) m
            ],
          )
          kept

-- the errors of an annotation that is not understood or names no switch
abbrev pub IsInputError : AutoLabelError → Type 0
IsInputError e =
    (e ≡ unknown_neighbor)
    ⊎ (e ≡ self_reference)
    ⊎ (e ≡ not_string_array)
    ⊎ (e ≡ empty_neighbor_name)

trim_names-IsInputError :
    (names : List String) → Gives (λ trimmed. Unit {0}) IsInputError (trim_names names)
unfolding trim_names
trim_names-IsInputError [] = tt
trim_names-IsInputError (name ∷ names) =
    if_keeps (Gives (λ trimmed. Unit {0}) IsInputError) (trim_space name == "")
      (inr (inr (inr refl)))
      (Gives->>= (λ trimmed. Unit {0}) _ IsInputError (trim_names names) _
        (trim_names-IsInputError names) (λ rest k. tt))

module _ (unmarshal_strings : String → Option (List String)) where
  parse_manual-IsInputError :
      (sw : SwitchObject)
      → Gives (λ names. Unit {0}) IsInputError (parse_manual_switch_neighbors unmarshal_strings sw)
  unfolding parse_manual_switch_neighbors
  parse_manual-IsInputError sw =
      let raw = trim_space (get_or sw.annotations switch_neighbors_annotation "") in
      if_keeps (Gives (λ names. Unit {0}) IsInputError) (raw == "") tt
        (elim (Option-cases (unmarshal_strings raw)) [
          | inl e ↦ rw (e, Gives) (inr (inr (inl refl)))
          | inr (names, e) ↦
              rw (e, Gives)
                (Gives->>= (λ trimmed. Unit {0}) _ IsInputError (trim_names names) _
                  (trim_names-IsInputError names) (λ trimmed k. tt))
        ])

  pub add_switch_neighbors-Keeps :
      (semi_automatic : Bool) (hosts : NameSet) (normalized : Map String String)
      (synthetic : NameSet) (builders : Builders) (sw : SwitchObject)
      → AreBuilders builders
      → Gives (Keeps builders) IsInputError (
          add_switch_neighbors unmarshal_strings semi_automatic hosts normalized synthetic builders
            sw)
  unfolding add_switch_neighbors
  add_switch_neighbors-Keeps semi_automatic hosts normalized synthetic builders sw h =
      let ensured = ensure_switch_builder-Keeps builders sw.name h in
      let start = (ensure_switch_builder builders sw.name).0 in
      if_keeps (Gives (Keeps builders) IsInputError) semi_automatic
        (Gives->>= (λ names. Unit {0}) (Keeps builders) IsInputError
          (parse_manual_switch_neighbors unmarshal_strings sw) _ (parse_manual-IsInputError sw)
          (λ names k.
            Gives-fold_attempt (λ left. Keeps builders) IsInputError
              (add_manual_neighbor normalized synthetic sw)
              (λ x xs s kept.
                Gives-imp (Keeps s) (Keeps builders) _ IsInputError
                  (add_manual_neighbor normalized synthetic sw s x)
                  (λ t later. (later.0, λ name m. later.1 name (kept.1 name m)))
                  (λ e q. elim q [ inl a ↦ inl a | inr b ↦ inr (inl b) ])
                  (add_manual_neighbor-Keeps normalized synthetic sw s x kept.0))
              names start ensured.0))
        (foldl_keeps (Keeps builders) (add_reported_neighbor hosts normalized sw) sw.lldp_neighbors
          start
          (λ s x m kept.
            let later = add_reported_neighbor-Keeps normalized hosts sw s x kept.0 in
            (later.0, λ name i. later.1 name (kept.1 name i)))
          ensured.0)
