-- ===== src/Status/Names/Unique.antt =====
-- New names are new: no two groups and no previous group share one.
use unifabric.Common.{
  String, List, [], ◌∷◌, ℕ, ◌+◌, ◌≤◌, ◌<◌, length, map, Member, Distinct, ◌≡◌, refl, sym, ap, ◌∙◌,
  arith, inr, subst, inl, Member-map_inv, ◌⊎◌,
}
use unifabric.Status.Types.{TopologyNodeGroup}
use unifabric.Status.Names.{
  max_int, parse_node_group_number, node_group_name, previous_names, used_numbers,
  assign_node_group_names,
}
use unifabric.Status.Names.RoundTrip.{parse_node_group_number-node_group_name}
use unifabric.Status.Names.Fresh.{from_le, assign_names-Fresh, new_names}

length-used_numbers : (gs : List TopologyNodeGroup) → length (used_numbers gs) ≤ length gs
unfolding used_numbers
length-used_numbers [] = omega arith
length-used_numbers (g ∷ gs) = ground (arith, length-used_numbers gs)

node_group_name_injective :
    (k n : ℕ)
    → 0 < k
    → k ≤ max_int
    → 0 < n
    → n ≤ max_int
    → node_group_name k ≡ node_group_name n
    → k ≡ n
node_group_name_injective k n pk sk pn sn e =
    let p = parse_node_group_number-node_group_name k pk sk in
    let q = parse_node_group_number-node_group_name n pn sn in
    ground (arith, sym p ∙ ap parse_node_group_number e ∙ q)

used_of_name :
    (n : ℕ) (gs : List TopologyNodeGroup)
    → 0 < n
    → n ≤ max_int
    → Member (node_group_name n) (map (λ g. g.name) gs)
    → Member n (used_numbers gs)
unfolding used_numbers
used_of_name n [] positive small m = absurd m
used_of_name n (g ∷ gs) positive small m =
    ground (arith, parse_node_group_number-node_group_name n positive small, used_of_name n gs)

Distinct-names :
    (ns : List ℕ)
    → Distinct ns
    → ((n : ℕ) → Member n ns → (0 < n) × (n ≤ max_int))
    → Distinct (map node_group_name ns)
Distinct-names [] d h = tt
Distinct-names (n ∷ ns) d h = (
  λ m.
      let (k, mk, e) = Member-map_inv node_group_name (node_group_name n) ns m in
      let (pn, sn) = h n (inl refl) in
      let (pk, sk) = h k (inr mk) in
      d.0 (subst (λ i. Member i ns) (node_group_name_injective k n pk sk pn sn (sym e)) mk),
  Distinct-names ns d.1 (λ k m. h k (inr m)),
)

-- Where there are at most as many groups, old and new, as `int` has positive values: the groups of
-- `groups` that keep no previous name get pairwise different names, and none of them is the name of
-- a previous group.
pub assign_node_group_names_fresh :
    (groups previous : List TopologyNodeGroup)
    → length previous + length groups ≤ max_int
    → let names =
        new_names (previous_names previous) groups (assign_node_group_names groups previous) in
      Distinct names
      × ((name : String) → Member name names → ¬ Member name (map (λ g. g.name) previous))
unfolding assign_node_group_names
assign_node_group_names_fresh groups previous small =
    let (ns, f) = assign_names-Fresh (previous_names previous) (used_numbers previous) 1 groups in
    let bounds : (n : ℕ) → Member n ns → (0 < n) × (n ≤ max_int) = λ n m. (
      omega (arith, f.above n m),
      omega (arith, f.bounded n m, from_le 1 (used_numbers previous), length-used_numbers previous),
    ) in
    (
      subst Distinct (sym f.named) (Distinct-names ns f.distinct bounds),
      λ name m p.
          let (n, mn, e) = Member-map_inv node_group_name name ns (subst (Member name) f.named m) in
          f.unused n mn (
            used_of_name n previous (bounds n mn).0 (bounds n mn).1
              (subst (λ s. Member s (map (λ g. g.name) previous)) e p)),
    )

-- The new names carry the least numbers: they are `node-group` followed by the numbers of some list,
-- and every positive number below one of those is the number of a previous group's name or in the
-- list.
pub assign_node_group_names_least :
    (groups previous : List TopologyNodeGroup)
    → (ns : List ℕ) × (new_names
          (previous_names previous)
          groups
          (assign_node_group_names groups previous)
        ≡ map node_group_name ns)
      × ((n m : ℕ) → Member n ns → 0 < m → m < n → Member m (used_numbers previous) ⊎ Member m ns)
unfolding assign_node_group_names
assign_node_group_names_least groups previous =
    let (ns, f) = assign_names-Fresh (previous_names previous) (used_numbers previous) 1 groups in
    (ns, f.named, λ n m h positive less. f.least n m h (omega arith) less)
