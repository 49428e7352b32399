-- ===== src/Status/Names/Stable.antt =====
-- Names are stable: a group that still exists keeps its name.
use Prim.Native.String.append
use unifabric.Common.{
  String, List, [], ◌∷◌, Map, ℕ, suc, ◌+◌, ◌≡◌, ◌≢◌, refl, sym, ap, ◌∙◌, subst, arith, none, some,
  get, put, get-put_self, get-put_ne, foldl, map, length, Member, Distinct, Option-cases, inl, inr,
  ==_cases, string_eq, ==_self,
}
use unifabric.Status.Types.{TopologyNodeGroup}
use unifabric.Status.Names.{
  node_group_key, node_group_name, next_free, kept_name, assign_names, previous_names, used_numbers,
  assign_node_group_names,
}

abbrev key_of : TopologyNodeGroup → String
key_of g = node_group_key g.switch_domain_path

kept_name_found :
    (previous : Map String String) (g : TopologyNodeGroup) (name : String)
    → get previous (key_of g) ≡ some name
    → name ≢ ""
    → kept_name previous g ≡ some name
unfolding kept_name
kept_name_found previous g name e ne = elim (==_cases name "") [
  | inl (p, _) ↦ absurd (ne p)
  | inr (_, b) ↦ ground (arith, e, b)
]

kept_name_nonempty :
    (previous : Map String String) (g : TopologyNodeGroup) (name : String)
    → kept_name previous g ≡ some name
    → name ≢ ""
unfolding kept_name
kept_name_nonempty previous g name e = elim (Option-cases (get previous (key_of g))) [
  | inl h ↦ cc (h, e)
  | inr (k, h) ↦ ground (arith, h, e, ==_self k)
]

node_group_name_nonempty : (n : ℕ) → node_group_name n ≢ ""
unfolding node_group_name
node_group_name_nonempty n e = cc (rw append.cons at e)

module _ (previous : Map String String) (used : List ℕ) (next : ℕ) (g : TopologyNodeGroup)
    (gs : List TopologyNodeGroup) where
  abbrev free : ℕ
  free = next_free (suc (length used)) used next

  assign_names_new :
      kept_name previous g ≡ none
      → assign_names previous used next (g ∷ gs)
        ≡ record g { name = node_group_name free }
          ∷ assign_names previous (free ∷ used) (free + 1) gs
  unfolding assign_names
  assign_names_new e = ground (arith, e)

  assign_names_kept :
      (name : String)
      → kept_name previous g ≡ some name
      → assign_names previous used next (g ∷ gs)
        ≡ record g { name = name } ∷ assign_names previous used next gs
  unfolding assign_names
  assign_names_kept name e = ground (arith, e)

-- `rs` are the groups `gs`, each with a name that is not empty.
abbrev Named : List TopologyNodeGroup → List TopologyNodeGroup → Type 0
Named [] [] = Unit
Named [] (r ∷ rs) = ⊥
Named (g ∷ gs) [] = ⊥
Named (g ∷ gs) (r ∷ rs) = (r ≡ record g { name = r.name }) × (r.name ≢ "") × Named gs rs

assign_names-Named :
    (previous : Map String String) (used : List ℕ) (next : ℕ) (gs : List TopologyNodeGroup)
    → Named gs (assign_names previous used next gs)
unfolding assign_names
assign_names-Named previous used next [] = tt
assign_names-Named previous used next (g ∷ gs) = elim (Option-cases (kept_name previous g)) [
  | inl e ↦
      let n = free previous used next g gs in
      rw (assign_names_new previous used next g gs e)
        (refl, node_group_name_nonempty n, assign_names-Named previous (n ∷ used) (n + 1) gs)
  | inr (name, e) ↦
      rw (assign_names_kept previous used next g gs name e)
        (refl, kept_name_nonempty previous g name e, assign_names-Named previous used next gs)
]

-- the names of a list of groups are found by their keys
module _ where
  abbrev note_name : Map String String → TopologyNodeGroup → Map String String
  note_name m g = put m (key_of g) g.name

  get-foldl_other :
      (gs : List TopologyNodeGroup) (m : Map String String) (k : String)
      → ¬ Member k (map key_of gs)
      → get (foldl note_name m gs) k ≡ get m k
  get-foldl_other [] m k h = refl
  get-foldl_other (g ∷ gs) m k h =
      get-foldl_other gs (note_name m g) k (λ p. h (inr p))
      ∙ get-put_ne m (key_of g) k g.name (λ e. h (inl (sym e)))

  get-foldl_own :
      (gs : List TopologyNodeGroup) (m : Map String String) (g : TopologyNodeGroup)
      → Distinct (map key_of gs)
      → Member g gs
      → get (foldl note_name m gs) (key_of g) ≡ some g.name
  get-foldl_own [] m g d h = absurd h
  get-foldl_own (x ∷ gs) m g d (inl e) =
      rw e (get-foldl_other gs (note_name m x) (key_of x) d.0 ∙ get-put_self m (key_of x) x.name)
  get-foldl_own (x ∷ gs) m g d (inr h) = get-foldl_own gs (note_name m x) g d.1 h

-- Where every group's name is found, the groups are left as they are.
assign_names_same :
    (previous : Map String String) (used : List ℕ) (next : ℕ) (gs rs : List TopologyNodeGroup)
    → Named gs rs
    → ((r : TopologyNodeGroup) → Member r rs → get previous (key_of r) ≡ some r.name)
    → assign_names previous used next gs ≡ rs
unfolding assign_names
assign_names_same previous used next [] [] n h = refl
assign_names_same previous used next [] (r ∷ rs) n h = absurd n
assign_names_same previous used next (g ∷ gs) [] n h = absurd n
assign_names_same previous used next (g ∷ gs) (r ∷ rs) (e, ne, n) h =
    let found : get previous (key_of g) ≡ some r.name =
      subst (λ k. get previous k ≡ some r.name) (ap key_of e) (h r (inl refl)) in
    assign_names_kept previous used next g gs r.name (kept_name_found previous g r.name found ne)
    ∙ ap (λ t. t ∷ assign_names previous used next gs) (sym e)
    ∙ ap (λ t. r ∷ t) (assign_names_same previous used next gs rs n (λ x m. h x (inr m)))

keys_of_Named : (gs rs : List TopologyNodeGroup) → Named gs rs → map key_of rs ≡ map key_of gs
keys_of_Named [] [] n = refl
keys_of_Named [] (r ∷ rs) n = absurd n
keys_of_Named (g ∷ gs) [] n = absurd n
keys_of_Named (g ∷ gs) (r ∷ rs) (e, ne, n) =
    ap (λ k. k ∷ map key_of rs) (ap key_of e) ∙ ap (λ t. key_of g ∷ t) (keys_of_Named gs rs n)

-- Naming is stable: where no two groups have one key, the groups that come out of the naming, given
-- as the previous groups, are named the same when the same groups are named again.
pub assign_node_group_names_stable :
    (groups previous : List TopologyNodeGroup)
    → Distinct (map (λ g. node_group_key g.switch_domain_path) groups)
    → assign_node_group_names groups (assign_node_group_names groups previous)
      ≡ assign_node_group_names groups previous
unfolding assign_node_group_names previous_names
assign_node_group_names_stable groups previous d =
    let rs = assign_names (previous_names previous) (used_numbers previous) 1 groups in
    let n : Named groups rs =
      assign_names-Named (previous_names previous) (used_numbers previous) 1 groups in
    assign_names_same (previous_names rs) (used_numbers rs) 1 groups rs n
      (λ r m. get-foldl_own rs [] r (subst Distinct (sym (keys_of_Named groups rs n)) d) m)
