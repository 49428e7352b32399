-- ===== src/TopologyLabel/Language.antt =====
-- `tierLanguage`, the automaton of a template's keys, and `intersectionExample`, the search for a
-- common key of two templates. The child Accepts says what the automaton accepts.
pub mod Accepts
pub mod Overlap
pub mod Keys
pub mod Subsets
pub mod Search
pub mod Rounds
pub mod Complete
pub mod Exact
use unifabric.Common.{
  String, List, [], ◌∷◌, ◌++◌, Map, ℕ, zero, suc, ◌+◌, ◌-◌, ◌*◌, ◌/◌, ◌%◌, ◌^◌, Bool, true, false,
  not, Option, none, some, map, foldl, length, get, put, keys, sort_by, elem, ltb, leb, ◌&&◌, ◌||◌,
  ◌==◌, nat_eq, if◌then◌else◌,
}
use unifabric.Status.Names.{decimal_digits}
use unifabric.TopologyLabel.Types.{
  Bytes, bytes_eq, is_digit, is_positive_digit, Node, Template, TemplateSet, overlapping, Checked,
  passed, failed, ◌>>=◌,
}
use unifabric.TopologyLabel.Template.{compile, tier_text}

pub record TierLanguage : Type 0 where
  pub prefix : Bytes
  pub suffix : Bytes
  pub digit_state : ℕ
  pub suffix_start : ℕ
  pub accept_state : ℕ

unfoldable pub new_tier_language : Template → TierLanguage
new_tier_language t =
    let digit_state = length t.prefix + 1 in
    let suffix_start = digit_state + 1 in
    record {
      prefix = t.prefix;
      suffix = t.suffix;
      digit_state = digit_state;
      suffix_start = suffix_start;
      accept_state = suffix_start + length t.suffix;
    }

-- a set of states, as a map to a unit value
abbrev pub States : Type 0
States = Map ℕ (Unit {0})

abbrev pub holds : States → ℕ → Bool
holds states state = elem state (keys states)

-- `s[i]`, inside the bounds that the code has tested
abbrev pub byte_at : Bytes → ℕ → ℕ
byte_at [] i = 0
byte_at (c ∷ s) zero = c
byte_at (c ∷ s) (suc i) = byte_at s i

-- The copy that `cloneStateSet` makes is the map itself: no other reference changes it.
unfoldable pub closure : TierLanguage → States → States
closure n states = if holds states n.digit_state then put states n.suffix_start tt else states

-- the state that a state leads to
unfoldable pub next_state : TierLanguage → ℕ → ℕ → Option ℕ
next_state n character state =
    if ltb state (length n.prefix)
    then if byte_at n.prefix state == character then some (state + 1) else none
    else if state == length n.prefix
    then if is_positive_digit character then some n.digit_state else none
    else if state == n.digit_state
    then if is_digit character then some n.digit_state else none
    else if leb n.suffix_start state && ltb state n.accept_state
    then if byte_at n.suffix (state - n.suffix_start) == character then some (state + 1) else none
    else none

-- the body of the loop over the states
unfoldable pub add_next : TierLanguage → ℕ → States → ℕ → States
add_next n character next state = elim (next_state n character state) [
  | none ↦ next
  | some t ↦ put next t tt
]

unfoldable pub transition : TierLanguage → States → ℕ → States
transition n states character = closure n (foldl (add_next n character) [] (keys states))

unfoldable pub accepts : TierLanguage → States → Bool
accepts n states = holds states n.accept_state

unfoldable pub state_set_key : States → Bytes
state_set_key states =
    foldl (λ result state. result ++ tier_text state ++ 44 ∷ []) [] (sort_by ltb (keys states))

unfoldable pub pair_state_key : States → States → Bytes
unfolding state_set_key
pair_state_key left right = state_set_key left ++ 124 ∷ state_set_key right

unfoldable pub language_alphabet : List TierLanguage → List ℕ
language_alphabet values =
    let digits = 48 ∷ 49 ∷ 50 ∷ 51 ∷ 52 ∷ 53 ∷ 54 ∷ 55 ∷ 56 ∷ 57 ∷ [] in
    let note : States → ℕ → States = λ set character. put set character tt in
    sort_by ltb (
      keys (
        foldl (λ set value. foldl note set (value.prefix ++ value.suffix)) (foldl note [] digits)
          values))

-- `string(character)` of a byte: the UTF-8 form of the code point
unfoldable pub text_of_byte : ℕ → Bytes
text_of_byte c = if ltb c 128 then c ∷ [] else (192 + c / 64) ∷ (128 + c % 64) ∷ []

pub record LanguagePairState : Type 0 where
  pub left : States
  pub right : States
  pub example : Bytes

module _ (left right : TierLanguage) where
  -- the body of the loop over the alphabet
  unfoldable pub visit_character :
      LanguagePairState
      → Map Bytes (Unit {0}) × List LanguagePairState
      → ℕ
      → Map Bytes (Unit {0}) × List LanguagePairState
  visit_character current (visited, queue) character =
      let next_left = transition left current.left character in
      let next_right = transition right current.right character in
      let key = pair_state_key next_left next_right in
      if length next_left == 0 || length next_right == 0
      then (visited, queue)
      else if elem key (keys visited)
      then (visited, queue)
      else (
        put visited key tt,
        queue
            ++ record {
              left = next_left;
              right = next_right;
              example = current.example ++ text_of_byte character;
            }
              ∷ [],
      )

  -- The loop, for `fuel` rounds: none when the fuel runs out first.
  unfoldable pub search_example :
      List ℕ → ℕ → Map Bytes (Unit {0}) → List LanguagePairState → Option (Option Bytes)
  search_example alphabet zero visited queue = none
  search_example alphabet (suc fuel) visited [] = some none
  search_example alphabet (suc fuel) visited (current ∷ queue) =
      let (visited', queue') = foldl (visit_character current) (visited, queue) alphabet in
      elim (accepts left current.left && accepts right current.right) [
        | true ↦ some (some current.example)
        | false ↦ search_example alphabet fuel visited' queue'
      ]

-- Each round takes a pair of sets of states out of the queue, and no pair enters it twice.
abbrev pub example_fuel : TierLanguage → TierLanguage → ℕ
example_fuel left right = 2 ^ (left.accept_state + 1) * 2 ^ (right.accept_state + 1) + 1

unfoldable pub intersection_example : Template → Template → Option (Option Bytes)
unfolding new_tier_language language_alphabet search_example
intersection_example left right =
    let l = new_tier_language left in
    let r = new_tier_language right in
    let start : LanguagePairState = record {
      left = closure l ((0, tt) ∷ []);
      right = closure r ((0, tt) ∷ []);
      example = [];
    } in
    search_example l r (language_alphabet (l ∷ r ∷ [])) (example_fuel l r)
      ((pair_state_key start.left start.right, tt) ∷ []) (start ∷ [])

-- the test of one pair of templates: none when the fuel runs out
unfoldable pub check_pair : Template → Template → Option (Checked (Unit {0}))
check_pair left right = elim (intersection_example left right) [
  | none ↦ none
  | some none ↦ some (passed tt)
  | some (some example) ↦ some (failed (overlapping example))
]

module _ (parse : Bytes → Option (Option (List Node))) (is_qualified_name : Bytes → Bool) where
  -- the loops over the pairs, in the code's order
  unfoldable pub check_set : Template → Template → Template → Option (Checked TemplateSet)
  unfolding check_pair
  check_set up out storage =
      let first = check_pair up out in
      let second = check_pair up storage in
      let third = check_pair out storage in
      elim first [
        | none ↦ none
        | some (failed e) ↦ some (failed e)
        | some (passed _) ↦ elim second [
          | none ↦ none
          | some (failed e) ↦ some (failed e)
          | some (passed _) ↦ elim third [
            | none ↦ none
            | some (failed e) ↦ some (failed e)
            | some (passed _) ↦
                some (passed (record { scale_up = up; scale_out = out; storage = storage }))
          ]
        ]
      ]

  unfoldable pub compile_set : Bytes → Bytes → Bytes → Option (Checked TemplateSet)
  unfolding check_set
  compile_set scale_up scale_out storage =
      let compiled : Checked (Template × Template × Template) =
        compile parse is_qualified_name scale_up >>= λ up.
        compile parse is_qualified_name scale_out >>= λ out.
        compile parse is_qualified_name storage >>= λ third. passed (up, out, third) in
      elim compiled [
        | failed e ↦ some (failed e)
        | passed (up, out, third) ↦ check_set up out third
      ]
