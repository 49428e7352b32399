-- ===== src/Status/Names.antt =====
-- `assignNodeGroupNames`: stable names for the node groups.
pub mod RoundTrip
pub mod Fresh
pub mod Unique
pub mod Stable
use Prim.Native.Char.{Char, code, nul}
use Prim.Native.String.{◌++◌ as text_append}
use unifabric.Common.{
  String, List, [], ◌∷◌, Map, ℕ, zero, suc, ◌+◌, ◌-◌, ◌*◌, ◌/◌, ◌%◌, ◌^◌, Bool, true, false, Option,
  none, some, get, get_or, put, keys, ltb, leb, ◌&&◌, ◌||◌, not, ◌==◌, if◌then◌else◌, string_eq,
  nat_eq, length, elem, foldl,
}
use unifabric.Topology.Groups.{join}
use unifabric.Status.Types.{TopologyNodeGroup}

-- The separator is the character NUL.
unfoldable pub node_group_key : List String → String
node_group_key path = join (String.◌∷◌ nul String.[]) path

-- strings.CutPrefix
unfoldable pub cut_prefix : String → String → Option String
cut_prefix String.[] s = some s
cut_prefix (String.◌∷◌ c p) String.[] = none
cut_prefix (String.◌∷◌ c p) (String.◌∷◌ d s) =
    let rest = cut_prefix p s in if code c == code d then rest else none

-- the value of decimal digits after those that make up `n`
unfoldable pub digits_value : ℕ → String → Option ℕ
digits_value n String.[] = some n
digits_value n (String.◌∷◌ c s) =
    let rest = digits_value (n * 10 + (code c - 48)) s in
    if leb 48 (code c) && leb (code c) 57 then rest else none

abbrev pub max_int : ℕ
max_int = 2 ^ 63 - 1

-- the digits of `strconv.Atoi`: at least one, with a value in the range of `int`
unfoldable pub unsigned_value : String → Option ℕ
unfolding digits_value
unsigned_value String.[] = none
unsigned_value (String.◌∷◌ c s) = elim (digits_value 0 (String.◌∷◌ c s)) [
  | none ↦ none
  | some n ↦ if leb n max_int then some n else none
]

-- `strconv.Atoi`, with none for an error and for a negative number, which the only caller refuses
-- too: a plus sign may stand before the digits, and a minus sign gives no positive number.
unfoldable pub atoi : String → Option ℕ
unfolding unsigned_value
atoi String.[] = none
atoi (String.◌∷◌ c s) = if code c == b'+' then unsigned_value s else unsigned_value (String.◌∷◌ c s)

abbrev pub node_group_name_prefix : String
node_group_name_prefix = "node-group"

unfoldable pub parse_node_group_number : String → Option ℕ
unfolding cut_prefix atoi
parse_node_group_number name = elim (cut_prefix node_group_name_prefix name) [
  | none ↦ none
  | some suffix ↦
      if suffix == ""
      then none
      else elim (atoi suffix) [ none ↦ none | some n ↦ if leb n 0 then none else some n ]
]

-- the decimal digits of `n`, before those in `acc`
unfoldable pub decimal_digits : ℕ → ℕ → List ℕ → List ℕ
decimal_digits zero n acc = n % 10 ∷ acc
decimal_digits (suc fuel) n acc =
    let more = decimal_digits fuel (n / 10) ((n % 10) ∷ acc) in if ltb n 10 then n ∷ acc else more

unfoldable pub digit_char : ℕ → Char
digit_char d =
    if d == 0
    then "0"
    else if d == 1
    then "1"
    else if d == 2
    then "2"
    else if d == 3
    then "3"
    else if d == 4
    then "4"
    else if d == 5
    then "5"
    else if d == 6
    then "6"
    else if d == 7
    then "7"
    else if d == 8
    then "8"
    else "9"

unfoldable pub digits_text : List ℕ → String
unfolding digit_char
digits_text [] = ""
digits_text (d ∷ ds) = String.◌∷◌ (digit_char d) (digits_text ds)

-- `fmt.Sprintf("%s%d", nodeGroupNamePrefix, n)`; a number has fewer digits than its value and one.
unfoldable pub node_group_name : ℕ → String
unfolding decimal_digits digits_text
node_group_name n = text_append node_group_name_prefix (digits_text (decimal_digits n n []))

-- the inner loop: the least number from `n` on that is not taken
unfoldable pub next_free : ℕ → List ℕ → ℕ → ℕ
next_free zero used n = n
next_free (suc fuel) used n =
    let later = next_free fuel used (n + 1) in if elem n used then later else n

-- the name of the previous group with the same path, if it has one
unfoldable pub kept_name : Map String String → TopologyNodeGroup → Option String
kept_name previous group = elim (get previous (node_group_key group.switch_domain_path)) [
  | none ↦ none
  | some name ↦ if name == "" then none else some name
]

-- The loop over the groups. The used numbers are a list, and `next` only grows.
unfoldable pub assign_names :
    Map String String → List ℕ → ℕ → List TopologyNodeGroup → List TopologyNodeGroup
unfolding next_free
assign_names previous used next [] = []
assign_names previous used next (group ∷ groups) = elim (kept_name previous group) [
  | some name ↦ record group { name = name } ∷ assign_names previous used next groups
  | none ↦
      let n = next_free (suc (length used)) used next in
      record group { name = node_group_name n } ∷ assign_names previous (n ∷ used) (n + 1) groups
]

-- the first loop: the names by key, and the numbers in use
unfoldable pub previous_names : List TopologyNodeGroup → Map String String
unfolding node_group_key
previous_names groups = foldl (λ m g. put m (node_group_key g.switch_domain_path) g.name) [] groups

unfoldable pub used_numbers : List TopologyNodeGroup → List ℕ
unfolding parse_node_group_number
used_numbers [] = []
used_numbers (g ∷ gs) = elim (parse_node_group_number g.name) [
  | none ↦ used_numbers gs
  | some n ↦ n ∷ used_numbers gs
]

unfoldable pub assign_node_group_names :
    List TopologyNodeGroup → List TopologyNodeGroup → List TopologyNodeGroup
assign_node_group_names groups previous =
    assign_names (previous_names previous) (used_numbers previous) 1 groups
