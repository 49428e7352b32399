-- ===== src/SwitchTopology/Inputs/Returns.antt =====
-- What `buildTopologyInputsForRole` returns, on every path.
use unifabric.Common.{
  String, List, [], ◌∷◌, Bool, true, false, not, ◌&&◌, ◌||◌, Option, get, keys, string_eq, ◌==◌,
  ==_iff, foldl, foldl_keeps, map, filter, any, Member, Member-filter, Member-map, Member-map_inv,
  sort_by, string_less, string_order, Increasing, Increasing-sort_by, Member-sort_by, ◌≡◌, refl,
  sym, subst, ap, inl, inr,
}
use unifabric.Topology.Types.{Host, Switch}
use unifabric.SwitchTopology.Types.{fold_attempt, Gives, Gives->>=, Gives-imp, Gives-fold_attempt}
use unifabric.SwitchTopology.Objects.{FabricNode, SwitchObject, effective_switch_role}
use unifabric.SwitchTopology.Inputs.{
  TopologyInputs, Builders, ensure_switch_builder, sorted_map_keys, Scan, add_switch_names,
  managed_hosts, scan_node, topology_switches, host_of, add_switch_neighbors,
  has_manual_switch_neighbors, build_topology_inputs_for_role,
}
use unifabric.SwitchTopology.Inputs.Builders.{AreBuilders, Keeps, ensure_switch_builder-Keeps}
use unifabric.SwitchTopology.Inputs.WellFormed.{
  IsSortedSwitch, topology_switches-IsSorted, IsScan, scan_node-IsScan, IsInputError,
  add_switch_neighbors-Keeps,
}

ensure_all : Builders → List SwitchObject → Builders
ensure_all builders role_switches =
    foldl (λ bs (sw : SwitchObject). (ensure_switch_builder bs sw.name).0) builders role_switches

ensure_all-Keeps :
    (role_switches : List SwitchObject) (builders : Builders)
    → AreBuilders builders
    → Keeps builders (ensure_all builders role_switches)
      × ((sw : SwitchObject)
          → Member sw role_switches
          → Member sw.name (keys (ensure_all builders role_switches)))
unfolding ensure_all
ensure_all-Keeps [] builders h = ((h, λ name m. m), λ sw m. absurd m)
ensure_all-Keeps (x ∷ xs) builders h =
    let one = ensure_switch_builder-Keeps builders x.name h in
    let rest = ensure_all-Keeps xs ((ensure_switch_builder builders x.name).0) one.0.0 in
    (
      (rest.0.0, λ name m. rest.0.1 name (one.0.1 name m)),
      λ sw m. elim m [
        | inl e ↦ rest.0.1 sw.name (
            subst
              (λ (o : SwitchObject).
                Member o.name (keys ((ensure_switch_builder builders x.name).0)))
              (sym e) one.2)
        | inr i ↦ rest.1 sw i
      ],
    )

-- the hosts and switches of well-formed inputs
abbrev pub AreInputs : String → List FabricNode → List SwitchObject → TopologyInputs → Type 0
AreInputs role fabric_nodes switches inputs =
    Increasing string_less (map (λ (h : Host). h.name) inputs.hosts)
    × ((h : Host)
        → Member h inputs.hosts
        → Member h.name (map (λ (n : FabricNode). n.name) fabric_nodes))
    × Increasing string_less (map (λ (sw : Switch). sw.name) inputs.switches)
    × ((sw : SwitchObject)
        → Member sw switches
        → effective_switch_role sw ≡ role
        → Member sw.name (map (λ (s : Switch). s.name) inputs.switches))
    × ((sw : Switch) → Member sw inputs.switches → IsSortedSwitch sw)

host_names : (names : List String) → map (λ (h : Host). h.name) (map host_of names) ≡ names
unfolding host_of
host_names [] = refl
host_names (name ∷ names) = ap (λ l. name ∷ l) (host_names names)

-- buildTopologyInputsForRole never dereferences a missing builder: it returns inputs, or the error of
-- an annotation that is no JSON array of names or that names no known switch or the switch itself.
-- The inputs have hosts and switches in the strict order of their names; every host is a FabricNode;
-- every Switch of the role is a switch; and the neighbors of a switch belong to it, have names, and
-- stand in the strict order of their names.
pub build_topology_inputs_for_role_lem :
    (unmarshal_strings : String → Option (List String)) (role : String)
    (fabric_nodes : List FabricNode) (switches : List SwitchObject)
    → Gives
        (AreInputs role fabric_nodes switches)
        IsInputError
        (build_topology_inputs_for_role unmarshal_strings role fabric_nodes switches)
unfolding build_topology_inputs_for_role ensure_all sorted_map_keys get
build_topology_inputs_for_role_lem unmarshal_strings role fabric_nodes switches =
    let hosts = managed_hosts fabric_nodes in
    let role_switches = filter (λ sw. effective_switch_role sw == role) switches in
    let normalized = foldl add_switch_names [] role_switches in
    let node_only : Bool = elim role_switches [ [] ↦ true | sw ∷ rest ↦ false ] in
    let semi =
      not node_only && not (any (λ sw. not (has_manual_switch_neighbors sw)) role_switches) in
    let node_names = map (λ (n : FabricNode). n.name) fabric_nodes in
    let role_names = map (λ (sw : SwitchObject). sw.name) role_switches in
    let begun = ensure_all-Keeps role_switches [] (tt, λ name b g. absurd cc) in
    let start : Scan = record {
      builders = ensure_all [] role_switches;
      synthetic = [];
      participating = [];
    } in
    let scanned : IsScan role_names node_names
        (foldl (scan_node role normalized (node_only || semi)) start fabric_nodes) =
      foldl_keeps (IsScan role_names node_names) (scan_node role normalized (node_only || semi))
        fabric_nodes start
        (λ s node m h.
          scan_node-IsScan role_names node_names normalized (node_only || semi) role s node
            (Member-map (λ (n : FabricNode). n.name) node fabric_nodes m) h)
        (
          begun.0.0,
          (λ name m.
              let (sw, i, e) = Member-map_inv (λ (o : SwitchObject). o.name) name role_switches m in
              subst (λ n. Member n (keys (ensure_all [] role_switches))) (sym e) (begun.1 sw i)),
          tt,
          λ name m. absurd m,
        ) in
    let s = foldl (scan_node role normalized (node_only || semi)) start fabric_nodes in
    Gives->>= (Keeps s.builders) _ IsInputError
      (fold_attempt (add_switch_neighbors unmarshal_strings semi hosts normalized s.synthetic)
        s.builders role_switches)
      _
      (Gives-fold_attempt (λ left. Keeps s.builders) IsInputError
        (add_switch_neighbors unmarshal_strings semi hosts normalized s.synthetic)
        (λ x xs t kept.
          Gives-imp (Keeps t) (Keeps s.builders) IsInputError IsInputError
            (add_switch_neighbors unmarshal_strings semi hosts normalized s.synthetic t x)
            (λ u later. (later.0, λ name m. later.1 name (kept.1 name m))) (λ e q. q)
            (add_switch_neighbors-Keeps unmarshal_strings semi hosts normalized s.synthetic t x
              kept.0))
        role_switches s.builders (scanned.0, λ name m. m))
      (λ builders kept.
        let sorted_keys = sort_by string_less (keys builders) in
        Gives->>= _ _ IsInputError (topology_switches builders sorted_keys) _
          (Gives-imp _ _ (λ e. ⊥) IsInputError (topology_switches builders sorted_keys) (λ l q. q)
            (λ e q. absurd q)
            (topology_switches-IsSorted builders sorted_keys kept.0
              (λ name m. (Member-sort_by string_less name (keys builders)).0 m)))
          (λ topo q. (
            rw (host_names (sort_by string_less (keys s.participating)))
                (Increasing-sort_by string_order (keys s.participating) scanned.2),
            (λ h m.
                let h' =
                  Member-map (λ (o : Host). o.name) h
                    (map host_of (sort_by string_less (keys s.participating))) m in
                scanned.3 h.name (
                  (Member-sort_by string_less h.name (keys s.participating)).0 (
                    subst (Member h.name) (host_names (sort_by string_less (keys s.participating)))
                      h'))),
            subst (Increasing string_less) (sym (q.0))
                (Increasing-sort_by string_order (keys builders) kept.0.0),
            (λ sw m r.
                let i =
                  (Member-filter (λ o. effective_switch_role o == role) sw switches).1
                    (m, ((==_iff (effective_switch_role sw) role).1 r)) in
                let k = kept.1 sw.name (
                  scanned.1 sw.name
                    (Member-map (λ (o : SwitchObject). o.name) sw role_switches i)) in
                subst (Member sw.name) (sym (q.0))
                  ((Member-sort_by string_less sw.name (keys builders)).1 k)),
            q.1,
          )))
