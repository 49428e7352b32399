-- ===== src/TopologyLabel/Template/Match.antt =====
-- The matcher on the keys that a template gives.
use unifabric.Common.{
  List, [], ◌∷◌, ◌++◌, ℕ, suc, ◌<◌, true, Option, none, some, length, Member, nat_eq, ==_self,
  ==_cases, Option-cases, ◌≡◌, refl, sym, ap, ◌∙◌, inl, inr, arith,
}
use mathlib.Core.List.{append-nil, append_assoc}
use unifabric.TopologyLabel.Types.{
  Bytes, Node, text_node, action_node, other_node, Piece, literal, tier_expression, is_digit,
  is_positive_digit,
}
use unifabric.TopologyLabel.Template.{strip, group_digits, find_submatch}

-- the pieces of the matcher for the nodes
unfoldable pub pieces_of : List Node → List Piece
pieces_of [] = []
pieces_of (text_node text ∷ nodes) = literal text ∷ pieces_of nodes
pieces_of (action_node pipe ∷ nodes) = tier_expression ∷ pieces_of nodes
pieces_of (other_node ∷ nodes) = pieces_of nodes

-- how many actions there are
unfoldable pub actions_in : List Node → ℕ
actions_in [] = 0
actions_in (text_node text ∷ nodes) = actions_in nodes
actions_in (action_node pipe ∷ nodes) = suc (actions_in nodes)
actions_in (other_node ∷ nodes) = actions_in nodes

-- the text of the nodes, with a text for each action
unfoldable pub spell : List Node → Bytes → Bytes
spell [] number = []
spell (text_node text ∷ nodes) number = text ++ spell nodes number
spell (action_node pipe ∷ nodes) number = number ++ spell nodes number
spell (other_node ∷ nodes) number = spell nodes number

pub strip-append : (p s : Bytes) → strip p (p ++ s) ≡ some s
unfolding strip
strip-append [] s = refl
strip-append (c ∷ p) s = rw ==_self (strip-append p s)

strip_found : (p s rest : Bytes) → strip p s ≡ some rest → s ≡ p ++ rest
unfolding strip
strip_found [] s rest h = cc
strip_found (c ∷ p) [] rest h = cc
strip_found (c ∷ p) (d ∷ s) rest h = elim (==_cases c d) [
  | inl (e, b) ↦
      let tail = strip_found p s rest (ground (arith, h, b)) in
      ap (λ l. d ∷ l) tail ∙ ap (λ x. x ∷ (p ++ rest)) (sym e)
  | inr (e, b) ↦ absurd (ground (arith, h, b))
]

-- Without an action the matcher accepts the text and no other.
text_matches :
    (nodes : List Node) (number : Bytes)
    → actions_in nodes ≡ 0
    → find_submatch (pieces_of nodes) (spell nodes number) ≡ some []
unfolding actions_in spell pieces_of find_submatch
text_matches [] number h = refl
text_matches (text_node text ∷ nodes) number h =
    rw (strip-append text (spell nodes number), find_submatch) (text_matches nodes number h)
text_matches (action_node pipe ∷ nodes) number h = absurd (omega arith)
text_matches (other_node ∷ nodes) number h = text_matches nodes number h

text_found :
    (nodes : List Node) (number s : Bytes) (groups : List Bytes)
    → actions_in nodes ≡ 0
    → find_submatch (pieces_of nodes) s ≡ some groups
    → s ≡ spell nodes number
unfolding actions_in spell pieces_of find_submatch
text_found [] number [] groups h e = refl
text_found [] number (c ∷ s) groups h e = cc
text_found (text_node text ∷ nodes) number s groups h e = elim (Option-cases (strip text s)) [
  | inl q ↦ absurd (ground (arith, e, q))
  | inr (rest, q) ↦
      strip_found text s rest q
      ∙ ap (λ l. text ++ l) (text_found nodes number rest groups h (rw (q, find_submatch) at e))
]
text_found (action_node pipe ∷ nodes) number s groups h e = absurd (omega arith)
text_found (other_node ∷ nodes) number s groups h e = text_found nodes number s groups h e

module _ (rest : Bytes → Option (List Bytes)) (f : Bytes)
    (only : (s : Bytes) (groups : List Bytes) → rest s ≡ some groups → s ≡ f)
    (accepted : rest f ≡ some []) where
  short_refused : (s : Bytes) → length s < length f → rest s ≡ none
  short_refused s h = elim (Option-cases (rest s)) [
    | inl e ↦ e
    | inr (groups, e) ↦ absurd (omega (arith, ap (λ l. length l) (only s groups e)))
  ]

  -- A group that would leave less than the text for the rest is given up.
  group_refused : (s taken : Bytes) → length s < length f → group_digits rest taken s ≡ none
  unfolding group_digits
  group_refused [] taken h = rw (short_refused [] h, group_digits) refl
  group_refused (c ∷ s) taken h =
      ground (arith, short_refused (c ∷ s) h, group_refused s (taken ++ c ∷ []) (omega arith))

  group_stops : (s taken : Bytes) → s ≡ f → group_digits rest taken s ≡ some (taken ∷ [])
  unfolding group_digits
  group_stops [] taken e = rw (ap rest e ∙ accepted, group_digits) refl
  group_stops (c ∷ s) taken e =
      let longer = group_refused s (taken ++ c ∷ []) (omega (arith, ap (λ l. length l) e)) in
      ground (arith, longer, ap rest e ∙ accepted)

  -- A group takes all the digits before the text for the rest.
  group_takes :
      (ds taken : Bytes)
      → ((c : ℕ) → Member c ds → is_digit c ≡ true)
      → group_digits rest taken (ds ++ f) ≡ some ((taken ++ ds) ∷ [])
  unfolding group_digits
  group_takes [] taken h =
      group_stops f taken refl ∙ ap (λ l. some (l ∷ [])) (sym (append-nil taken))
  group_takes (d ∷ ds) taken h =
      let longer : group_digits rest (taken ++ d ∷ []) (ds ++ f) ≡ some ((taken ++ d ∷ ds) ∷ []) =
        group_takes ds (taken ++ d ∷ []) (λ c m. h c (inr m))
        ∙ ap (λ l. some (l ∷ [])) (append_assoc taken (d ∷ []) ds) in
      rw (longer, h d (inl refl), group_digits) refl

-- With one action the matcher finds the number in the text.
pub number_found :
    (nodes : List Node) (d : ℕ) (ds : Bytes)
    → actions_in nodes ≡ 1
    → is_positive_digit d ≡ true
    → ((c : ℕ) → Member c ds → is_digit c ≡ true)
    → find_submatch (pieces_of nodes) (spell nodes (d ∷ ds)) ≡ some ((d ∷ ds) ∷ [])
unfolding actions_in spell pieces_of find_submatch
number_found [] d ds h positive digits = absurd (omega arith)
number_found (text_node text ∷ nodes) d ds h positive digits =
    rw (strip-append text (spell nodes (d ∷ ds)), find_submatch)
      (number_found nodes d ds h positive digits)
number_found (other_node ∷ nodes) d ds h positive digits = number_found nodes d ds h positive digits
number_found (action_node pipe ∷ nodes) d ds h positive digits =
    let none_left : actions_in nodes ≡ 0 = omega arith in
    let f = spell nodes (d ∷ ds) in
    let taken =
      group_takes (find_submatch (pieces_of nodes)) f
        (λ s groups e. text_found nodes (d ∷ ds) s groups none_left e)
        (text_matches nodes (d ∷ ds) none_left) ds (d ∷ []) digits in
    rw (taken, positive, find_submatch) refl
