-- ===== src/TopologyLabel/Template/RoundTrip.antt =====
-- `MatchTier` reads back the tier that `Render` wrote.
use unifabric.Common.{
  List, [], ◌∷◌, ◌++◌, ℕ, zero, suc, ◌+◌, ◌*◌, ◌-◌, ◌/◌, ◌%◌, ◌≤◌, ◌<◌, Bool, true, false, Option,
  none, some, Member, map, ltb, nat_eq, Bool-cases, Option-cases, ==_cases, ◌≡◌, refl, sym, ap, ◌∙◌,
  subst, inl, inr, arith,
}
use mathlib.Core.List.{append_assoc, append-nil}
use unifabric.Status.Names.{decimal_digits, max_int}
use unifabric.Status.Names.RoundTrip.{
  AreDigits, AreDigits-decimal_digits, value_of, value_of-decimal_digits,
}
use unifabric.TopologyLabel.Types.{
  Bytes, Node, text_node, action_node, other_node, tier_expression, Template, is_digit, Checked,
  passed, failed, ◌>>=◌,
}
use unifabric.TopologyLabel.Template.{
  validate_tier_action, Compiling, compile_node, compile_node_list, tier_text, execute, render,
  find_submatch, group_value, match_tier, check_rendered, compile_nodes, compile,
}
use unifabric.TopologyLabel.Template.Match.{pieces_of, actions_in, spell, number_found}

-- the number of a tier begins with a digit that is not 0
pub first_digit :
    (fuel n : ℕ) (acc : List ℕ)
    → n ≤ fuel
    → 0 < n
    → (d : ℕ) × (ds : List ℕ) × (decimal_digits fuel n acc ≡ d ∷ ds) × (0 < d)
unfolding decimal_digits
first_digit zero n acc h positive = absurd (omega arith)
first_digit (suc fuel) n acc h positive = elim (Bool-cases (ltb n 10)) [
  | inl b ↦ (n, acc, rw b refl, positive)
  | inr b ↦ rw b (first_digit fuel (n / 10) ((n % 10) ∷ acc) (ground arith) (ground arith))
]

abbrev pub digit_byte : ℕ → ℕ
digit_byte d = 48 + d

pub digits_are_bytes :
    (ds : List ℕ) → AreDigits ds → (c : ℕ) → Member c (map digit_byte ds) → is_digit c ≡ true
digits_are_bytes [] h c m = absurd m
digits_are_bytes (d ∷ ds) h c (inl e) = ground (arith, e, h.0)
digits_are_bytes (d ∷ ds) h c (inr m) = digits_are_bytes ds h.1 c m

group_value-map : (n : ℕ) (ds : List ℕ) → group_value n (map digit_byte ds) ≡ value_of n ds
unfolding group_value value_of
group_value-map n [] = refl
group_value-map n (d ∷ ds) =
    ap (λ k. group_value (n * 10 + k) (map digit_byte ds))
      (let e : 48 + d - 48 ≡ d = omega arith in e)
    ∙ group_value-map (n * 10 + d) ds

-- What the loop of `Compile` does to the matcher and the count; and no node that it passes fails to be
-- executed.
record Compiled (s t : Compiling) (nodes : List Node) : Type 0 where
  pub matcher : t.matcher ≡ s.matcher ++ pieces_of nodes
  pub actions : t.actions ≡ s.actions + actions_in nodes
  pub executed : (tier : ℕ) → execute nodes tier ≡ some (spell nodes (tier_text tier))

>>=-eq-passed :
    {A B : Type 0} (r : Checked A) (f : A → Checked B) {b : B}
    → (r >>= f) ≡ passed b
    → (a : A) × (r ≡ passed a) × (f a ≡ passed b)
>>=-eq-passed (passed a) f h = (a, refl, h)
>>=-eq-passed (failed e) f h = cc

compile_node_list-Compiled :
    (nodes : List Node) (s t : Compiling)
    → compile_node_list s nodes ≡ passed t
    → Compiled s t nodes
unfolding compile_node_list compile_node pieces_of actions_in spell execute
compile_node_list-Compiled [] s t h =
    let e : s ≡ t = cc in
    record {
      matcher = ap (λ x. x.matcher) (sym e) ∙ sym (append-nil s.matcher);
      actions =
          ap (λ x. x.actions) (sym e) ∙ (let q : s.actions ≡ s.actions + 0 = omega arith in q);
      executed = λ tier. refl;
    }
compile_node_list-Compiled (text_node text ∷ nodes) s t h =
    let rest = compile_node_list-Compiled nodes _ t h in
    record {
      matcher = rest.matcher ∙ append_assoc s.matcher _ (pieces_of nodes);
      actions = rest.actions;
      executed = λ tier. rw (rest.executed tier, execute) refl;
    }
compile_node_list-Compiled (action_node pipe ∷ nodes) s t h =
    let (u, e, h') =
      >>=-eq-passed (compile_node s (action_node pipe)) (λ u. compile_node_list u nodes) h in
    let next : Compiling = record s {
      matcher = s.matcher ++ tier_expression ∷ [];
      actions = s.actions + 1;
      action_seen = true;
    } in
    let (_, _, e') = >>=-eq-passed (validate_tier_action pipe) (λ _. passed next) e in
    let q : u ≡ next = cc in
    let rest = compile_node_list-Compiled nodes u t h' in
    record {
      matcher =
          rest.matcher
          ∙ ap (λ x. x.matcher ++ pieces_of nodes) q
          ∙ append_assoc s.matcher (tier_expression ∷ []) (pieces_of nodes);
      actions =
          rest.actions
          ∙ ap (λ x. x.actions + actions_in nodes) q
          ∙ (let k : s.actions + 1 + actions_in nodes ≡ s.actions + suc (actions_in nodes) =
                omega arith in
              k);
      executed = λ tier. rw (rest.executed tier, execute) refl;
    }
compile_node_list-Compiled (other_node ∷ nodes) s t h = cc

-- the number that the matcher finds has the value of the tier
pub group_value-tier_text : (n : ℕ) → group_value 0 (tier_text n) ≡ n
unfolding tier_text value_of
group_value-tier_text n =
    group_value-map 0 (decimal_digits n n []) ∙ value_of-decimal_digits n n [] (omega arith)

tier_text_found :
    (nodes : List Node) (n : ℕ)
    → actions_in nodes ≡ 1
    → 0 < n
    → find_submatch (pieces_of nodes) (spell nodes (tier_text n)) ≡ some (tier_text n ∷ [])
unfolding tier_text
tier_text_found nodes n h positive =
    let (d, ds, e, pd) = first_digit n n [] (omega arith) positive in
    let a = subst AreDigits e (AreDigits-decimal_digits n n [] tt) in
    rw e (
      number_found nodes (48 + d) (map digit_byte ds) h (ground (arith, a.0))
        (digits_are_bytes ds a.1))

module _ (parse : Bytes → Option (Option (List Node))) (is_qualified_name : Bytes → Bool) where
  compile_nodes-shape :
      (raw : Bytes) (nodes : List Node) (t : Template)
      → compile_nodes parse is_qualified_name raw nodes ≡ passed t
      → (t.parsed ≡ nodes)
        × (t.matcher ≡ pieces_of nodes)
        × (actions_in nodes ≡ 1)
        × ((tier : ℕ) → execute nodes tier ≡ some (spell nodes (tier_text tier)))
  unfolding compile_nodes
  compile_nodes-shape raw nodes t h =
      let (s, e, h') =
        >>=-eq-passed
          (compile_node_list
            (record { matcher = []; prefix = []; suffix = []; actions = 0; action_seen = false })
            nodes)
          _ h in
      let c = compile_node_list-Compiled nodes _ s e in
      elim (==_cases s.actions 1) [
        | inr (ne, b) ↦ cc (rw b at h')
        | inl (one, b) ↦
            let made : Template = record {
              raw = raw;
              parsed = nodes;
              matcher = s.matcher;
              prefix = s.prefix;
              suffix = s.suffix;
            } in
            let (_, _, h1) =
              >>=-eq-passed (check_rendered parse is_qualified_name made 1) _ (rw b at h') in
            let (_, _, h2) = >>=-eq-passed (check_rendered parse is_qualified_name made 12) _ h1 in
            let q : t ≡ made = cc in
            (
              ap (λ x. x.parsed) q,
              ap (λ x. x.matcher) q ∙ c.matcher,
              (let k : actions_in nodes ≡ 1 = omega (arith, c.actions, one) in k),
              c.executed,
            )
      ]

  -- Where `Compile` passes a template, `Render` gives a key for every tier from 1 on, and `MatchTier`
  -- reads the tier back from the key if it is in the range of `int`.
  pub match_tier-render :
      (raw : Bytes) (t : Template) (tier : ℕ)
      → compile parse is_qualified_name raw ≡ passed t
      → 0 < tier
      → tier ≤ max_int
      → (key : Bytes) × (render (some t) tier ≡ passed key) × (match_tier (some t) key ≡ some tier)
  unfolding compile render match_tier
  match_tier-render [] t tier h positive small = cc
  match_tier-render (c ∷ raw) t tier h positive small = elim (Option-cases (parse (c ∷ raw))) [
    | inl e ↦ cc (rw (e, compile) at h)
    | inr (none, e) ↦ cc (rw (e, compile) at h)
    | inr (some nodes, e) ↦
        let (parsed, matcher, one, executed) =
          compile_nodes-shape (c ∷ raw) nodes t (rw (e, compile) at h) in
        let key = spell nodes (tier_text tier) in
        let done : execute t.parsed tier ≡ some key =
          ap (λ l. execute l tier) parsed ∙ executed tier in
        let found : find_submatch t.matcher key ≡ some (tier_text tier ∷ []) =
          ap (λ l. find_submatch l key) matcher ∙ tier_text_found nodes tier one positive in
        (key, ground (arith, done), ground (arith, found, group_value-tier_text tier))
  ]
