-- ===== src/SwitchTopology/DomainNames.antt =====
-- The names of discovered domains, `tierN-groupM`: how they are made, parsed and counted.
pub mod RoundTrip
use Prim.Native.Char.{code}
use Prim.Native.String.{◌++◌ as text_append}
use unifabric.Common.{
  String, List, [], ◌∷◌, ◌++◌, Map, ℕ, ◌+◌, ◌-◌, ◌^◌, Bool, true, false, ◌||◌, not, Option, none,
  some, get, get_or, put, value_or, string_eq, nat_eq, ◌==◌, ltb, leb, if◌then◌else◌, map,
}
use unifabric.Status.Names.{decimal_digits, digits_text, max_int}
use unifabric.TopologyLabel.Types.{Bytes, Piece, literal, tier_expression}
use unifabric.TopologyLabel.Template.{find_submatch, group_value}
use unifabric.SwitchTopology.Types.{
  Attempt, done, fails, ◌>>=◌, fold_attempt, not_domain_format, invalid_tier, invalid_group_number,
  unexpected_tier,
}
use unifabric.SwitchTopology.Labels.{Labels}

-- the code points of a text; the pattern only accepts ASCII
unfoldable pub codes : String → Bytes
codes String.[] = []
codes (String.◌∷◌ c s) = code c ∷ codes s

-- `^tier([1-9][0-9]*)-group([1-9][0-9]*)$`
abbrev pub auto_domain_pattern : List Piece
auto_domain_pattern =
    literal (codes "tier") ∷ tier_expression ∷ literal (codes "-group") ∷ tier_expression ∷ []

-- strconv.Atoi on digits
abbrev pub atoi_digits : Bytes → Option ℕ
atoi_digits digits = let n = group_value 0 digits in if leb n max_int then some n else none

-- `err != nil || n < 1`
abbrev pub positive_number : Option ℕ → Option ℕ
positive_number none = none
positive_number (some n) = if ltb n 1 then none else some n

-- the two groups of the match
unfoldable pub domain_numbers : Bytes → Bytes → Attempt (ℕ × ℕ)
domain_numbers tier_digits group_digits = elim (positive_number (atoi_digits tier_digits)) [
  | none ↦ fails invalid_tier
  | some tier ↦ elim (positive_number (atoi_digits group_digits)) [
    | none ↦ fails invalid_group_number
    | some group ↦ done (tier, group)
  ]
]

abbrev pub domain_groups : Option (List Bytes) → Attempt (ℕ × ℕ)
domain_groups (some (tier_digits ∷ group_digits ∷ [])) = domain_numbers tier_digits group_digits
domain_groups none = fails not_domain_format
domain_groups (some []) = fails not_domain_format
domain_groups (some (a ∷ [])) = fails not_domain_format
domain_groups (some (a ∷ b ∷ c ∷ groups)) = fails not_domain_format

unfoldable pub parse_auto_domain_name_parts : String → Attempt (ℕ × ℕ)
parse_auto_domain_name_parts value = domain_groups (find_submatch auto_domain_pattern (codes value))

unfoldable pub parse_auto_domain_name : String → ℕ → Attempt ℕ
parse_auto_domain_name value expected_tier = parse_auto_domain_name_parts value >>= λ parts.
    if not (parts.0 == expected_tier) then fails unexpected_tier else done (parts.1)

abbrev pub number_text : ℕ → String
number_text n = digits_text (decimal_digits n n [])

abbrev pub int_size : ℕ
int_size = 2 ^ 64

-- `%d` of an int, which is the number modulo 2 ^ 64 that has its bits
unfoldable pub int_text : ℕ → String
int_text n = if leb n max_int then number_text n else text_append "-" (number_text (int_size - n))

-- `fmt.Sprintf("tier%d-group%d", tier, number)`
unfoldable pub auto_domain_name : ℕ → ℕ → String
auto_domain_name tier number =
    text_append "tier" (text_append (number_text tier) (text_append "-group" (int_text number)))

-- the group number of each tier: while labels are read, the largest; a missing entry reads as 0
abbrev pub MaxByTier : Type 0
MaxByTier = Map ℕ ℕ

abbrev pub max_of : MaxByTier → ℕ → ℕ
max_of max_by_tier tier = get_or max_by_tier tier 0

unfoldable pub count_group : MaxByTier → ℕ → ℕ → MaxByTier
count_group max_by_tier tier group =
    if ltb (max_of max_by_tier tier) group then put max_by_tier tier group else max_by_tier

module _ (match_tier : String → Option ℕ) where
  unfoldable pub scan_label : MaxByTier → String × String → Attempt MaxByTier
  scan_label max_by_tier (key, value) = elim (match_tier key) [
    | none ↦ done max_by_tier
    | some tier ↦
        parse_auto_domain_name value tier >>= λ group. done (count_group max_by_tier tier group)
  ]

  unfoldable pub scan_existing_auto_names : Labels → MaxByTier → Attempt MaxByTier
  scan_existing_auto_names labels max_by_tier = fold_attempt scan_label max_by_tier labels

abbrev pub topology_domain_label : String
topology_domain_label = "unifabric.io/domain"

unfoldable pub scan_existing_auto_member_name : Labels → MaxByTier → Attempt MaxByTier
scan_existing_auto_member_name labels max_by_tier =
    let value = get_or labels topology_domain_label "" in
    if value == ""
    then done max_by_tier
    else (parse_auto_domain_name_parts value >>= λ parts.
        done (count_group max_by_tier (parts.0) (parts.1)))
