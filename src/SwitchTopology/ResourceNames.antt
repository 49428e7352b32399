-- ===== src/SwitchTopology/ResourceNames.antt =====
-- `normalizeResourceName`, on the characters of a name.
pub mod Normal
use Prim.Native.Char.{Char, code}
use unifabric.Common.{
  String, List, [], ◌∷◌, ℕ, Bool, true, false, not, ◌&&◌, ◌||◌, Option, none, some, leb, ◌==◌,
  nat_eq, string_eq, if◌then◌else◌, get, Map, elem,
}

-- unicode.IsSpace
abbrev pub spaces : List ℕ
spaces =
    9 ∷ 10 ∷ 11 ∷ 12 ∷ 13 ∷ 32 ∷ 133 ∷ 160 ∷ 5760 ∷ 8192 ∷ 8193 ∷ 8194 ∷ 8195 ∷ 8196 ∷ 8197 ∷ 8198
    ∷ 8199 ∷ 8200 ∷ 8201 ∷ 8202 ∷ 8232 ∷ 8233 ∷ 8239 ∷ 8287 ∷ 12288 ∷ []

unfoldable pub is_space : Char → Bool
is_space c = elem (code c) spaces

unfoldable pub trim_left : (Char → Bool) → String → String
trim_left cut String.[] = String.[]
trim_left cut (String.◌∷◌ c s) =
    let rest = trim_left cut s in if cut c then rest else String.◌∷◌ c s

abbrev pub is_empty : String → Bool
is_empty String.[] = true
is_empty (String.◌∷◌ c s) = false

unfoldable pub trim_right : (Char → Bool) → String → String
trim_right cut String.[] = String.[]
trim_right cut (String.◌∷◌ c s) =
    let rest = trim_right cut s in if is_empty rest && cut c then String.[] else String.◌∷◌ c rest

-- strings.TrimSpace
unfoldable pub trim_space : String → String
trim_space s = trim_right is_space (trim_left is_space s)

-- unicode.ToLower where its result is an ASCII letter: of the capital letters, of the dotted capital I
-- and of the Kelvin sign. A character outside ASCII that is lowered to another such character stays:
-- either becomes a dash.
abbrev pub lower_letters : Map ℕ Char
lower_letters =
    (65, "a")
    ∷ (66, "b")
    ∷ (67, "c")
    ∷ (68, "d")
    ∷ (69, "e")
    ∷ (70, "f")
    ∷ (71, "g")
    ∷ (72, "h")
    ∷ (73, "i")
    ∷ (74, "j")
    ∷ (75, "k")
    ∷ (76, "l")
    ∷ (77, "m")
    ∷ (78, "n")
    ∷ (79, "o")
    ∷ (80, "p")
    ∷ (81, "q")
    ∷ (82, "r")
    ∷ (83, "s")
    ∷ (84, "t")
    ∷ (85, "u")
    ∷ (86, "v")
    ∷ (87, "w")
    ∷ (88, "x")
    ∷ (89, "y")
    ∷ (90, "z")
    ∷ (304, "i")
    ∷ (8490, "k")
    ∷ []

unfoldable pub to_lower : Char → Char
to_lower c = elim (get lower_letters (code c)) [ none ↦ c | some d ↦ d ]

unfoldable pub lower_all : String → String
lower_all String.[] = String.[]
lower_all (String.◌∷◌ c s) = String.◌∷◌ (to_lower c) (lower_all s)

abbrev pub is_name_code : ℕ → Bool
is_name_code c = leb 97 c && leb c 122 || leb 48 c && leb c 57

abbrev pub dash : Char
dash = "-"

abbrev pub is_dash : Char → Bool
is_dash c = code c == 45

-- the loop over the runes; the first argument is `previousDash`
unfoldable pub squeeze : Bool → String → String
squeeze previous_dash String.[] = String.[]
squeeze previous_dash (String.◌∷◌ c s) =
    let plain = squeeze false s in
    let behind_dash = squeeze true s in
    if is_name_code (code c)
    then String.◌∷◌ c plain
    else if not previous_dash
    then String.◌∷◌ dash behind_dash
    else squeeze previous_dash s

unfoldable pub normalize_resource_name : String → String
normalize_resource_name name =
    trim_right is_dash (trim_left is_dash (squeeze false (lower_all (trim_space name))))
