-- ===== src/Status/Domains.antt =====
-- The domains of a Topology: `ensureDomain`, `validateDomainName`, `sortedTiers`, `sortedSet`, and the
-- two loops of `BuildTopologyStatus` over the tiers of one Node. Children: what the loops keep.
pub mod Tree
pub mod Loops
use unifabric.Common.{
  String, Bool, List, [], ◌∷◌, Map, ℕ, zero, suc, ◌+◌, ◌^◌, ◌-◌, Option, none, some, get, get_or,
  put, keys, sort_by, string_less, ltb, leb, length, ◌==◌, if◌then◌else◌, string_eq, nat_eq,
}
use unifabric.Status.Types.{
  TopologyDomain, DomainState, NameSet, Result, ok, err, ◌>>=◌, fold_result, empty_domain_name,
  invalid_domain_name, tier_out_of_range, domain_in_two_tiers, discontinuous_path, nil_dereference,
  multiple_parents,
}

abbrev pub Domains : Type 0
Domains = Map String DomainState

abbrev pub max_int32 : ℕ
max_int32 = 2 ^ 31 - 1

unfoldable pub sorted_tiers : Map ℕ String → List ℕ
sorted_tiers values = sort_by ltb (keys values)

unfoldable pub sorted_set : NameSet → List String
sorted_set values = sort_by string_less (keys values)

unfoldable pub ensure_domain : Domains → String → ℕ → Result Domains
ensure_domain domains name tier =
    if ltb max_int32 tier then err tier_out_of_range else elim (get domains name) [
      | some existing ↦ if existing.domain.tier == tier then ok domains else err domain_in_two_tiers
      | none ↦ ok (
          put domains name (record {
            domain = record { name = name; tier = tier; parent = ""; switch_member = [] };
            parents = [];
            members = [];
          }))
    ]

-- the test of the validation library, `len(IsValidLabelValue(name)) == 0`
module _ (is_valid_label_value : String → Bool) where
  unfoldable pub validate_domain_name : String → Result (Unit {0})
  validate_domain_name name =
      if name == ""
      then err empty_domain_name
      else if is_valid_label_value name
      then ok tt
      else err invalid_domain_name

  -- the body of the loop over the sorted tiers, with the index
  unfoldable pub check_tier : Map ℕ String → ℕ × Domains → ℕ → Result (ℕ × Domains)
  unfolding validate_domain_name
  check_tier values (index, domains) tier =
      if tier == index + 1
      then (validate_domain_name (get_or values tier "") >>= λ _.
          ensure_domain domains (get_or values tier "") tier >>= λ later. ok (index + 1, later))
      else err discontinuous_path

  unfoldable pub check_tiers : Map ℕ String → Domains → Result Domains
  check_tiers values domains =
      fold_result (check_tier values) (0, domains) (sorted_tiers values) >>= λ s. ok s.1

-- the body of the loop over the tiers below the top, and the loop for `rounds` tiers
unfoldable pub link_parent : Map ℕ String → Domains → ℕ → Result Domains
link_parent values domains tier =
    let parent = get_or values (tier + 1) "" in
    elim (get domains (get_or values tier "")) [
      | none ↦ err nil_dereference
      | some state ↦
          let parents = put state.parents parent tt in
          if ltb 1 (length parents)
          then err multiple_parents
          else ok (put domains (get_or values tier "") (record state { parents = parents }))
    ]

unfoldable pub link_parents : Map ℕ String → ℕ → ℕ → Domains → Result Domains
link_parents values zero tier domains = ok domains
link_parents values (suc rounds) tier domains =
    link_parent values domains tier >>= λ later. link_parents values rounds (tier + 1) later

-- the values from tier `n` down to tier 1
unfoldable pub path_of : Map ℕ String → ℕ → List String
path_of values zero = []
path_of values (suc n) = get_or values (suc n) "" ∷ path_of values n
