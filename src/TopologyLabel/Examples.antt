-- ===== src/TopologyLabel/Examples.antt =====
-- Tests of the label templates, and the examples of their theorems.
use unifabric.Common.{
  List, [], ◌∷◌, Bool, true, false, Option, some, leb, length, ◌≡◌, ◌↔◌, refl, arith,
}
use unifabric.Status.Names.{max_int}
use unifabric.TopologyLabel.Types.{
  Bytes, Node, text_node, action_node, field_node, Template, Checked, passed, failed,
}
use unifabric.TopologyLabel.Template.{compile, render, match_tier, tier_ident}
use unifabric.TopologyLabel.Template.RoundTrip.{match_tier-render}
use unifabric.TopologyLabel.Language.{new_tier_language, accepts, intersection_example}
use unifabric.TopologyLabel.Language.Accepts.{IsKey}
use unifabric.TopologyLabel.Language.Overlap.{IsAscii}
use unifabric.TopologyLabel.Language.Exact.{IsOverlap, intersection_example_exact}
use unifabric.TopologyLabel.Language.Accepts.States.{run, start_states, accepts_exact}

-- the nodes of `a{{ .Tier }}0z`
abbrev nodes : List Node
nodes =
    text_node (97 ∷ [])
    ∷ action_node (
        some (record {
          decl = 0;
          is_assign = false;
          cmds = some (field_node (tier_ident ∷ []) ∷ []) ∷ [];
        }))
    ∷ text_node (48 ∷ 122 ∷ [])
    ∷ []

abbrev parse_nodes : Bytes → Option (Option (List Node))
parse_nodes raw = some (some nodes)

-- names are short
abbrev is_short : Bytes → Bool
is_short name = leb (length name) 63

abbrev raw_text : Bytes
raw_text = 97 ∷ 123 ∷ []

abbrev compiled : Checked Template
compiled = compile parse_nodes is_short raw_text

abbrev template_of : Checked Template → Template
template_of (passed t) = t
template_of (failed e) = record { raw = []; parsed = []; matcher = []; prefix = []; suffix = [] }

abbrev template : Template
template = template_of compiled

compiled_passes : compiled ≡ passed template
unfolding compile unifabric.TopologyLabel.Types.bytes_beq unifabric.Status.Names.decimal_digits
compiled_passes = refl

match_tier-render_example :
    (key : Bytes) × (render (some template) 10 ≡ passed key)
    × (match_tier (some template) key ≡ some 10)
match_tier-render_example =
    match_tier-render parse_nodes is_short raw_text template 10 compiled_passes (omega arith)
      (omega arith)

-- the key `a100z`
accepts_exact_example :
    (accepts
        (new_tier_language template)
        (run template (start_states template) (97 ∷ 49 ∷ 48 ∷ 48 ∷ 122 ∷ []))
      ≡ true)
    ↔ IsKey template.prefix template.suffix (97 ∷ 49 ∷ 48 ∷ 48 ∷ 122 ∷ [])
accepts_exact_example = accepts_exact template (97 ∷ 49 ∷ 48 ∷ 48 ∷ 122 ∷ [])

-- `a{{ .Tier }}` and `a1{{ .Tier }}`
abbrev short : Template
short = record { raw = []; parsed = []; matcher = []; prefix = 97 ∷ []; suffix = [] }

abbrev longer : Template
longer = record { raw = []; parsed = []; matcher = []; prefix = 97 ∷ 49 ∷ []; suffix = [] }

common_example : intersection_example short longer ≡ some (some (97 ∷ 49 ∷ 49 ∷ []))
unfolding intersection_example accepts unifabric.Common.elem
    unifabric.TopologyLabel.Language.closure unifabric.Common.sort_by unifabric.Common.put
    unifabric.TopologyLabel.Language.visit_character unifabric.TopologyLabel.Language.transition
    unifabric.TopologyLabel.Language.add_next unifabric.TopologyLabel.Language.next_state
    unifabric.TopologyLabel.Types.bytes_beq unifabric.TopologyLabel.Language.pair_state_key
    unifabric.TopologyLabel.Template.tier_text unifabric.Status.Names.decimal_digits
    unifabric.TopologyLabel.Language.text_of_byte
common_example = refl

short-IsAscii : IsAscii (97 ∷ [])
short-IsAscii c m = ground arith

longer-IsAscii : IsAscii (97 ∷ 49 ∷ [])
longer-IsAscii c m = ground arith

intersection_example_exact_example :
    (result : Option Bytes) × (intersection_example short longer ≡ some result)
    × IsOverlap short longer result
intersection_example_exact_example =
    intersection_example_exact short longer short-IsAscii longer-IsAscii
