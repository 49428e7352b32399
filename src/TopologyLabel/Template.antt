-- ===== src/TopologyLabel/Template.antt =====
-- `Compile`, `Render` and `MatchTier`, and the lookups in a `Set`.
pub mod Match
pub mod RoundTrip
use Prim.Native.Char.{code}
use unifabric.Common.{
  String, List, [], ◌∷◌, ◌++◌, ℕ, ◌+◌, ◌-◌, ◌*◌, Bool, true, false, not, Option, none, some, map,
  ltb, leb, ◌&&◌, ◌||◌, ◌==◌, nat_eq, string_eq, if◌then◌else◌,
}
use unifabric.Status.Names.{decimal_digits, max_int}
use unifabric.TopologyLabel.Types.{
  Bytes, bytes_eq, is_digit, is_positive_digit, Argument, field_node, other_argument, Pipe, Node,
  text_node, action_node, other_node, Piece, literal, tier_expression, Template, TemplateSet,
  empty_template, parse_failed, no_syntax_tree, not_tier_action, not_one_argument, not_tier_field,
  only_text_and_action, not_one_action, not_compiled, tier_below_one, execute_failed,
  invalid_label_key, Checked, passed, failed, ◌>>=◌,
}

-- the bytes of "Tier"
abbrev pub tier_ident : Bytes
tier_ident = code "T" ∷ code "i" ∷ code "e" ∷ code "r" ∷ []

unfoldable pub validate_argument : Argument → Checked (Unit {0})
validate_argument (field_node (ident ∷ [])) =
    if ident == tier_ident then passed tt else failed not_tier_field
validate_argument (field_node []) = failed not_tier_field
validate_argument (field_node (i ∷ j ∷ idents)) = failed not_tier_field
validate_argument other_argument = failed not_tier_field

unfoldable pub validate_command : List (Option (List Argument)) → Checked (Unit {0})
unfolding validate_argument
validate_command (some (argument ∷ []) ∷ []) = validate_argument argument
validate_command (some [] ∷ []) = failed not_one_argument
validate_command (some (a ∷ b ∷ arguments) ∷ []) = failed not_one_argument
validate_command (none ∷ []) = failed not_one_argument
validate_command [] = failed not_tier_action
validate_command (c ∷ d ∷ cmds) = failed not_tier_action

unfoldable pub validate_tier_action : Option Pipe → Checked (Unit {0})
unfolding validate_command
validate_tier_action none = failed not_tier_action
validate_tier_action (some pipe) =
    if not (pipe.decl == 0) || pipe.is_assign
    then failed not_tier_action
    else validate_command pipe.cmds

-- the variables of the loop of `Compile` over the nodes
pub record Compiling : Type 0 where
  pub matcher : List Piece
  pub prefix : Bytes
  pub suffix : Bytes
  pub actions : ℕ
  pub action_seen : Bool

unfoldable pub compile_node : Compiling → Node → Checked Compiling
unfolding validate_tier_action
compile_node s (text_node text) = passed (record s {
  matcher = s.matcher ++ literal text ∷ [];
  prefix = if s.action_seen then s.prefix else s.prefix ++ text;
  suffix = if s.action_seen then s.suffix ++ text else s.suffix;
})
compile_node s (action_node pipe) = validate_tier_action pipe >>= λ _. passed (record s {
  matcher = s.matcher ++ tier_expression ∷ [];
  actions = s.actions + 1;
  action_seen = true;
})
compile_node s other_node = failed only_text_and_action

unfoldable pub compile_node_list : Compiling → List Node → Checked Compiling
unfolding compile_node
compile_node_list s [] = passed s
compile_node_list s (node ∷ nodes) = compile_node s node >>= λ t. compile_node_list t nodes

-- `Execute` on nodes that `Compile` passed: text is copied, and the action prints the tier.
unfoldable pub tier_text : ℕ → Bytes
tier_text tier = map (λ d. 48 + d) (decimal_digits tier tier [])

unfoldable pub execute : List Node → ℕ → Option Bytes
unfolding tier_text
execute [] tier = some []
execute (node ∷ nodes) tier = elim (execute nodes tier) [
  | none ↦ none
  | some rest ↦ elim node [
    | text_node text ↦ some (text ++ rest)
    | action_node pipe ↦ some (tier_text tier ++ rest)
    | other_node ↦ none
  ]
]

-- A nil template is none.
unfoldable pub raw_of : Option Template → Bytes
raw_of none = []
raw_of (some t) = t.raw

-- The tier is an `int` that is not negative.
unfoldable pub render : Option Template → ℕ → Checked Bytes
unfolding execute
render none tier = failed not_compiled
render (some t) tier =
    if ltb tier 1
    then failed tier_below_one
    else elim (execute t.parsed tier) [ none ↦ failed execute_failed | some key ↦ passed key ]

-- What follows a text that stands at the front.
unfoldable pub strip : Bytes → Bytes → Option Bytes
strip [] s = some s
strip (c ∷ p) [] = none
strip (c ∷ p) (d ∷ s) = let rest = strip p s in if c == d then rest else none

-- `FindStringSubmatch` of `^…$`, with the groups: a group takes as many digits as the rest of the
-- pattern lets it.
unfoldable pub group_digits : (Bytes → Option (List Bytes)) → Bytes → Bytes → Option (List Bytes)
group_digits rest taken [] = elim (rest []) [ none ↦ none | some groups ↦ some (taken ∷ groups) ]
group_digits rest taken (c ∷ s) =
    let stop : Option (List Bytes) = elim (rest (c ∷ s)) [
      | none ↦ none
      | some groups ↦ some (taken ∷ groups)
    ] in
    let longer = group_digits rest (taken ++ c ∷ []) s in
    if is_digit c then elim longer [ none ↦ stop | some groups ↦ some groups ] else stop

unfoldable pub find_submatch : List Piece → Bytes → Option (List Bytes)
unfolding strip group_digits
find_submatch [] [] = some []
find_submatch [] (c ∷ s) = none
find_submatch (literal text ∷ pieces) s = elim (strip text s) [
  | none ↦ none
  | some rest ↦ find_submatch pieces rest
]
find_submatch (tier_expression ∷ pieces) [] = none
find_submatch (tier_expression ∷ pieces) (c ∷ s) =
    let found = group_digits (find_submatch pieces) (c ∷ []) s in
    if is_positive_digit c then found else none

-- `strconv.Atoi` of digits
unfoldable pub group_value : ℕ → Bytes → ℕ
group_value n [] = n
group_value n (c ∷ s) = group_value (n * 10 + (c - 48)) s

unfoldable pub match_tier : Option Template → Bytes → Option ℕ
unfolding find_submatch group_value
match_tier none key = none
match_tier (some t) key = elim (find_submatch t.matcher key) [
  | none ↦ none
  | some [] ↦ none
  | some (group ∷ []) ↦
      let tier = group_value 0 group in if leb tier max_int && leb 1 tier then some tier else none
  | some (group ∷ more ∷ groups) ↦ none
]

-- `parse` is the template parser: none for an error, `some none` for a missing tree.
-- `is_qualified_name` is the test of the validation library.
module _ (parse : Bytes → Option (Option (List Node))) (is_qualified_name : Bytes → Bool) where
  -- the body of the loop over the tiers 1 and 12
  unfoldable pub check_rendered : Template → ℕ → Checked (Unit {0})
  unfolding render
  check_rendered t tier = render (some t) tier >>= λ key.
      if is_qualified_name key then passed tt else failed invalid_label_key

  unfoldable pub compile_nodes : Bytes → List Node → Checked Template
  unfolding compile_node_list check_rendered
  compile_nodes raw nodes =
      compile_node_list
        (record { matcher = []; prefix = []; suffix = []; actions = 0; action_seen = false }) nodes
      >>= λ s.
          if s.actions == 1
          then (let t : Template = record {
            raw = raw;
            parsed = nodes;
            matcher = s.matcher;
            prefix = s.prefix;
            suffix = s.suffix;
          } in
              check_rendered t 1 >>= λ _. check_rendered t 12 >>= λ _. passed t)
          else failed not_one_action

  unfoldable pub compile : Bytes → Checked Template
  unfolding compile_nodes
  compile [] = failed empty_template
  compile (c ∷ raw) = elim (parse (c ∷ raw)) [
    | none ↦ failed parse_failed
    | some none ↦ failed no_syntax_tree
    | some (some nodes) ↦ compile_nodes (c ∷ raw) nodes
  ]

-- A nil set is none, and a nil result too.
unfoldable pub for_topology : Option TemplateSet → String → Option Template
for_topology none name = none
for_topology (some s) name =
    if name == "scaleup"
    then some s.scale_up
    else if name == "scaleout"
    then some s.scale_out
    else if name == "storage"
    then some s.storage
    else none

unfoldable pub all_templates : Option TemplateSet → List Template
all_templates none = []
all_templates (some s) = s.scale_up ∷ s.scale_out ∷ s.storage ∷ []
