-- ===== src/TopologyLabel/Language/Overlap.antt =====
-- An example that `intersectionExample` returns is a key of both templates.
use unifabric.Common.{
  List, [], ◌∷◌, ◌++◌, Map, ℕ, zero, suc, ◌<◌, true, ◌&&◌, ◌||◌, some, length, keys, put, foldl,
  foldl_keeps, elem, ltb, Member, Member-append, Member-sort_by, Member-keys-put, ◌==◌, nat_eq,
  Bool-cases, ◌≡◌, refl, sym, ap, ◌∙◌, subst, inl, inr, arith,
}
use unifabric.TopologyLabel.Types.{Bytes, bytes_eq, Template}
use unifabric.TopologyLabel.Language.{
  TierLanguage, new_tier_language, States, transition, accepts, language_alphabet, text_of_byte,
  pair_state_key, LanguagePairState, visit_character, search_example, intersection_example,
}
use unifabric.TopologyLabel.Language.Accepts.{IsKey}
use unifabric.TopologyLabel.Language.Accepts.States.{run, start_states, accepts_exact}

-- the bytes of a text are ASCII
abbrev pub IsAscii : Bytes → Type 0
IsAscii s = (c : ℕ) → Member c s → c < 128

run-append :
    (t : Template) (w : Bytes) (c : ℕ) (states : States)
    → run t states (w ++ c ∷ []) ≡ transition (new_tier_language t) (run t states w) c
run-append t [] c states = refl
run-append t (d ∷ w) c states = run-append t w c (transition (new_tier_language t) states d)

text_of_ascii : (c : ℕ) → c < 128 → text_of_byte c ≡ c ∷ []
unfolding text_of_byte
text_of_ascii c h = ground arith

after_byte :
    (t : Template) (states : States) (w : Bytes) (c : ℕ)
    → c < 128
    → states ≡ run t (start_states t) w
    → transition (new_tier_language t) states c ≡ run t (start_states t) (w ++ text_of_byte c)
after_byte t states w c less e =
    ap (λ s. transition (new_tier_language t) s c) e
    ∙ sym (run-append t w c (start_states t))
    ∙ ap (λ x. run t (start_states t) (w ++ x)) (sym (text_of_ascii c less))

note_keeps :
    (text : Bytes) (set : States)
    → IsAscii text
    → IsAscii (keys set)
    → IsAscii (keys (foldl (λ set character. put set character tt) set text))
note_keeps text set ascii h =
    foldl_keeps (λ set. IsAscii (keys set)) (λ set character. put set character tt) text set
      (λ set c m k d md. ground (arith, Member-keys-put set c d tt, k d, ascii c m)) h

abbrev pub ten_digits : Bytes
ten_digits = 48 ∷ 49 ∷ 50 ∷ 51 ∷ 52 ∷ 53 ∷ 54 ∷ 55 ∷ 56 ∷ 57 ∷ []

module _ (left right : Template) (ascii_left : IsAscii (left.prefix ++ left.suffix))
    (ascii_right : IsAscii (right.prefix ++ right.suffix)) where
  abbrev l : TierLanguage
  l = new_tier_language left

  abbrev r : TierLanguage
  r = new_tier_language right

  digits-IsAscii : IsAscii ten_digits
  digits-IsAscii c m = ground arith

  alphabet-IsAscii : IsAscii (language_alphabet (l ∷ r ∷ []))
  unfolding language_alphabet new_tier_language
  alphabet-IsAscii c m =
      note_keeps (right.prefix ++ right.suffix) _ ascii_right
        (note_keeps (left.prefix ++ left.suffix) _ ascii_left
          (note_keeps ten_digits [] digits-IsAscii (λ d k. absurd k)))
        c ((Member-sort_by ltb c _).0 m)

  -- the sets of states of a pair are those after its example
  record IsRun (s : LanguagePairState) : Type 0 where
    pub on_left : s.left ≡ run left (start_states left) s.example
    pub on_right : s.right ≡ run right (start_states right) s.example

  abbrev AllRun : Map Bytes (Unit {0}) × List LanguagePairState → Type 0
  AllRun v = (s : LanguagePairState) → Member s v.1 → IsRun s

  AllRun-visit_character :
      (current : LanguagePairState) (v : Map Bytes (Unit {0}) × List LanguagePairState) (c : ℕ)
      → IsRun current
      → c < 128
      → AllRun v
      → AllRun (visit_character l r current v c)
  unfolding visit_character
  AllRun-visit_character current (visited, queue) c h less all =
      let next_left = transition l current.left c in
      let next_right = transition r current.right c in
      let next : LanguagePairState = record {
        left = next_left;
        right = next_right;
        example = current.example ++ text_of_byte c;
      } in
      let is_run : IsRun next = record {
        on_left = after_byte left current.left current.example c less h.on_left;
        on_right = after_byte right current.right current.example c less h.on_right;
      } in
      elim (Bool-cases (length next_left == 0 || length next_right == 0)) [
        | inl b ↦ rw (b, visit_character) all
        | inr b ↦ elim (Bool-cases (elem (pair_state_key next_left next_right) (keys visited))) [
          | inl d ↦ rw (b, d, visit_character) all
          | inr d ↦
              rw (b, d, visit_character)
                (λ s m. elim ((Member-append s queue (next ∷ [])).0 m) [
                  | inl old ↦ all s old
                  | inr (inl e) ↦ subst IsRun (sym e) is_run
                  | inr (inr z) ↦ absurd z
                ])
        ]
      ]

  search_example_lem :
      (alphabet : List ℕ) (fuel : ℕ) (visited : Map Bytes (Unit {0}))
      (queue : List LanguagePairState) (example : Bytes)
      → IsAscii alphabet
      → AllRun (visited, queue)
      → search_example l r alphabet fuel visited queue ≡ some (some example)
      → (accepts l (run left (start_states left) example) ≡ true)
        × (accepts r (run right (start_states right) example) ≡ true)
  unfolding search_example
  search_example_lem alphabet zero visited queue example ascii all e = cc
  search_example_lem alphabet (suc fuel) visited [] example ascii all e = cc
  search_example_lem alphabet (suc fuel) visited (current ∷ queue) example ascii all e =
      let h = all current (inl refl) in
      elim (Bool-cases (accepts l current.left && accepts r current.right)) [
        | inl b ↦
            let q : current.example ≡ example = cc (rw (b, search_example) at e) in
            let (x, y) : (accepts l current.left ≡ true) × (accepts r current.right ≡ true) =
              ground arith in
            (
              ap (λ s. accepts l (run left (start_states left) s)) (sym q)
                  ∙ ap (accepts l) (sym h.on_left)
                  ∙ x,
              ap (λ s. accepts r (run right (start_states right) s)) (sym q)
                  ∙ ap (accepts r) (sym h.on_right)
                  ∙ y,
            )
        | inr b ↦
            let next = foldl (visit_character l r current) (visited, queue) alphabet in
            search_example_lem alphabet fuel next.0 next.1 example ascii
              (foldl_keeps AllRun (visit_character l r current) alphabet (visited, queue)
                (λ v c m k. AllRun-visit_character current v c h (ascii c m) k)
                (λ s m. all s (inr m)))
              (rw (b, search_example) at e)
      ]

  pub intersection_example_sound :
      (example : Bytes)
      → intersection_example left right ≡ some (some example)
      → IsKey left.prefix left.suffix example × IsKey right.prefix right.suffix example
  unfolding intersection_example
  intersection_example_sound example e =
      let (x, y) =
        search_example_lem (language_alphabet (l ∷ r ∷ [])) _ _ _ example alphabet-IsAscii
          (λ s m. elim m [
            | inl q ↦ rw q (record { on_left = refl; on_right = refl })
            | inr z ↦ absurd z
          ])
          e in
      ((accepts_exact left example).0 x, (accepts_exact right example).0 y)
