-- ===== src/TopologyLabel/Types.antt =====
-- The data of the label templates. A Go string is the list of its bytes.
use unifabric.Common.{
  List, [], ◌∷◌, ℕ, Bool, true, false, Option, Eq, leb, ◌&&◌, ◌==◌, nat_eq, ◌↔◌, ◌≡◌, arith, ==_iff,
  refl,
}

abbrev pub Bytes : Type 0
Bytes = List ℕ

unfoldable pub bytes_beq : Bytes → Bytes → Bool
bytes_beq [] [] = true
bytes_beq [] (y ∷ ys) = false
bytes_beq (x ∷ xs) [] = false
bytes_beq (x ∷ xs) (y ∷ ys) = x == y && bytes_beq xs ys

pub bytes_beq_iff : (a b : Bytes) → (bytes_beq a b ≡ true) ↔ (a ≡ b)
unfolding bytes_beq
bytes_beq_iff [] [] = ((λ h. refl), λ h. refl)
bytes_beq_iff [] (y ∷ ys) = ((λ h. cc), λ h. cc)
bytes_beq_iff (x ∷ xs) [] = ((λ h. cc), λ h. cc)
bytes_beq_iff (x ∷ xs) (y ∷ ys) = ground (arith, ==_iff x y, bytes_beq_iff xs ys)

instance abbrev pub bytes_eq : Eq Bytes
bytes_eq = record { beq = bytes_beq; beq_iff = bytes_beq_iff }

abbrev pub is_digit : ℕ → Bool
is_digit c = leb 48 c && leb c 57

abbrev pub is_positive_digit : ℕ → Bool
is_positive_digit c = leb 49 c && leb c 57

-- parse.Node, as far as the code tells the nodes apart
pub data Argument : Type 0 where
  field_node : List Bytes → Argument
  other_argument : Argument

pub record Pipe : Type 0 where
  pub decl : ℕ
  pub is_assign : Bool
  pub cmds : List (Option (List Argument))

pub data Node : Type 0 where
  text_node : Bytes → Node
  action_node : Option Pipe → Node
  other_node : Node

-- the pieces of the matcher: quoted text, and `([1-9][0-9]*)`
pub data Piece : Type 0 where
  literal : Bytes → Piece
  tier_expression : Piece

pub record Template : Type 0 where
  pub raw : Bytes
  pub parsed : List Node
  pub matcher : List Piece
  pub prefix : Bytes
  pub suffix : Bytes

pub record TemplateSet : Type 0 where
  pub scale_up : Template
  pub scale_out : Template
  pub storage : Template

pub data TemplateError : Type 0 where
  empty_template parse_failed no_syntax_tree : TemplateError
  not_tier_action not_one_argument not_tier_field : TemplateError
  only_text_and_action not_one_action : TemplateError
  not_compiled tier_below_one execute_failed invalid_label_key : TemplateError
  overlapping : Bytes → TemplateError

pub data Checked (A : Type 0) : Type 0 where
  passed : A → Checked A
  failed : TemplateError → Checked A

infixl 5 ◌>>=◌
abbrev pub ◌>>=◌ : {A B : Type 0} → Checked A → (A → Checked B) → Checked B
passed a >>= f = f a
failed e >>= f = failed e
