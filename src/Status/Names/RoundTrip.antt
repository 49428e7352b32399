-- ===== src/Status/Names/RoundTrip.antt =====
-- The number in a generated name is read back.
use Prim.Native.Char.{code}
use Prim.Native.String.{◌++◌ as text_append}
use Prim.Native.String.append
use unifabric.Common.{
  String, List, [], ◌∷◌, ℕ, zero, suc, ◌+◌, ◌*◌, ◌/◌, ◌%◌, ◌≤◌, ◌<◌, false, some, ltb, ◌==◌,
  string_eq, nat_eq, ◌≡◌, refl, sym, ap, ◌∙◌, arith, Bool-cases, ==_self, inl, inr, ==_cases, subst,
}
use unifabric.Status.Names.{
  cut_prefix, digits_value, max_int, unsigned_value, atoi, node_group_name_prefix,
  parse_node_group_number, decimal_digits, digit_char, digits_text, node_group_name,
}

cut_prefix-append : (p s : String) → cut_prefix p (text_append p s) ≡ some s
unfolding cut_prefix
cut_prefix-append String.[] s = rw append.nil refl
cut_prefix-append (String.◌∷◌ c p) s = rw append.cons (rw ==_self (cut_prefix-append p s))

abbrev pub AreDigits : List ℕ → Type 0
AreDigits [] = Unit
AreDigits (d ∷ ds) = (d < 10) × AreDigits ds

pub code-digit_char : (d : ℕ) → d < 10 → code (digit_char d) ≡ 48 + d
unfolding digit_char
code-digit_char zero h = refl
code-digit_char (suc zero) h = refl
code-digit_char (suc (suc zero)) h = refl
code-digit_char (suc (suc (suc zero))) h = refl
code-digit_char (suc (suc (suc (suc zero)))) h = refl
code-digit_char (suc (suc (suc (suc (suc zero))))) h = refl
code-digit_char (suc (suc (suc (suc (suc (suc zero)))))) h = refl
code-digit_char (suc (suc (suc (suc (suc (suc (suc zero))))))) h = refl
code-digit_char (suc (suc (suc (suc (suc (suc (suc (suc zero)))))))) h = refl
code-digit_char (suc (suc (suc (suc (suc (suc (suc (suc (suc zero))))))))) h = refl
code-digit_char (suc (suc (suc (suc (suc (suc (suc (suc (suc (suc d)))))))))) h =
    absurd (omega arith)

-- the value of digits after those that make up `n`
unfoldable pub value_of : ℕ → List ℕ → ℕ
value_of n [] = n
value_of n (d ∷ ds) = value_of (n * 10 + d) ds

digits_value-digits_text :
    (n : ℕ) (ds : List ℕ) → AreDigits ds → digits_value n (digits_text ds) ≡ some (value_of n ds)
unfolding digits_value digits_text value_of
digits_value-digits_text n [] h = refl
digits_value-digits_text n (d ∷ ds) h =
    ground (arith, code-digit_char d h.0, digits_value-digits_text (n * 10 + d) ds h.1)

pub value_of-decimal_digits :
    (fuel n : ℕ) (acc : List ℕ) → n ≤ fuel → value_of 0 (decimal_digits fuel n acc) ≡ value_of n acc
unfolding value_of decimal_digits
value_of-decimal_digits zero n acc h =
    ap (λ m. value_of m acc) (let e : 0 + n % 10 ≡ n = omega arith in e)
value_of-decimal_digits (suc fuel) n acc h = elim (Bool-cases (ltb n 10)) [
  | inl b ↦ rw b (ap (λ m. value_of m acc) (let e : 0 + n ≡ n = omega arith in e))
  | inr b ↦ rw b (
      let long : value_of 0 (decimal_digits fuel (n / 10) ((n % 10) ∷ acc))
          ≡ value_of (n / 10 * 10 + n % 10) acc =
        value_of-decimal_digits fuel (n / 10) ((n % 10) ∷ acc) (ground arith) in
      let e : n / 10 * 10 + n % 10 ≡ n = omega arith in long ∙ ap (λ m. value_of m acc) e)
]

pub AreDigits-decimal_digits :
    (fuel n : ℕ) (acc : List ℕ) → AreDigits acc → AreDigits (decimal_digits fuel n acc)
unfolding decimal_digits
AreDigits-decimal_digits zero n acc h = (omega arith, h)
AreDigits-decimal_digits (suc fuel) n acc h =
    ground (arith, AreDigits-decimal_digits fuel (n / 10) ((n % 10) ∷ acc))

decimal_cons :
    (fuel n : ℕ) (acc : List ℕ) → (d : ℕ) × (ds : List ℕ) × (decimal_digits fuel n acc ≡ d ∷ ds)
unfolding decimal_digits
decimal_cons zero n acc = (n % 10, acc, refl)
decimal_cons (suc fuel) n acc = elim (Bool-cases (ltb n 10)) [
  | inl b ↦ (n, acc, rw b refl)
  | inr b ↦ rw b (decimal_cons fuel (n / 10) ((n % 10) ∷ acc))
]

atoi-digits_text :
    (d : ℕ) (ds : List ℕ)
    → AreDigits (d ∷ ds)
    → value_of 0 (d ∷ ds) ≤ max_int
    → atoi (digits_text (d ∷ ds)) ≡ some (value_of 0 (d ∷ ds))
unfolding atoi unsigned_value digits_text
atoi-digits_text d ds h small =
    ground (arith, code-digit_char d h.0, ap (λ e. e) (digits_value-digits_text 0 (d ∷ ds) h))

parse_suffix :
    (name suffix : String) (n : ℕ)
    → cut_prefix node_group_name_prefix name ≡ some suffix
    → (suffix == "") ≡ false
    → atoi suffix ≡ some n
    → 0 < n
    → parse_node_group_number name ≡ some n
unfolding parse_node_group_number
parse_suffix name suffix n h nonempty p positive = rw (h, nonempty, p) (ground arith)

digits_text_nonempty : (d : ℕ) (ds : List ℕ) → (digits_text (d ∷ ds) == "") ≡ false
unfolding digits_text
digits_text_nonempty d ds = elim (==_cases (digits_text (d ∷ ds)) "") [
  | inl (e, _) ↦ cc
  | inr (_, b) ↦ b
]

-- `parseNodeGroupNumber` reads back the number of a generated name, for every positive `int`.
pub parse_node_group_number-node_group_name :
    (n : ℕ) → 0 < n → n ≤ max_int → parse_node_group_number (node_group_name n) ≡ some n
unfolding node_group_name value_of
parse_node_group_number-node_group_name n positive small =
    let (d, ds, e) = decimal_cons n n [] in
    let v : value_of 0 (d ∷ ds) ≡ n =
      ap (value_of 0) (sym e) ∙ value_of-decimal_digits n n [] (omega arith) in
    let a = subst AreDigits e (AreDigits-decimal_digits n n [] tt) in
    let p = atoi-digits_text d ds a (subst (λ k. k ≤ max_int) (sym v) small) in
    parse_suffix (node_group_name n) (digits_text (d ∷ ds)) n
      (rw e (cut_prefix-append node_group_name_prefix (digits_text (d ∷ ds))))
      (digits_text_nonempty d ds) (p ∙ ap some v) positive
