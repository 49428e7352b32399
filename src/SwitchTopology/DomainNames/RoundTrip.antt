-- ===== src/SwitchTopology/DomainNames/RoundTrip.antt =====
-- A domain name that the controller makes is parsed into its numbers, so two names differ where their
-- numbers do.
use Prim.Native.Char.{code}
use Prim.Native.String.{◌++◌ as text_append}
use Prim.Native.String.append
use unifabric.Common.{
  String, List, [], ◌∷◌, ◌++◌, ℕ, ◌+◌, ◌<◌, ◌≤◌, true, false, Option, some, nat_eq, ◌==◌, ltb, leb,
  if◌then◌else◌, Bool-cases, map, Member, ◌≡◌, refl, sym, ap, ◌∙◌, subst, arith, inl, inr,
}
use mathlib.Core.List.{append_assoc, append-nil}
use unifabric.Status.Names.{decimal_digits, digits_text, max_int}
use unifabric.Status.Names.RoundTrip.{AreDigits, AreDigits-decimal_digits, code-digit_char}
use unifabric.TopologyLabel.Types.{Bytes, literal, tier_expression, is_digit, is_positive_digit}
use unifabric.TopologyLabel.Template.{strip, group_digits, find_submatch, group_value, tier_text}
use unifabric.TopologyLabel.Template.RoundTrip.{
  first_digit, digit_byte, digits_are_bytes, group_value-tier_text,
}
use unifabric.SwitchTopology.Types.{done, fails, ◌>>=◌, unexpected_tier}
use unifabric.SwitchTopology.DomainNames.{
  int_text, codes, auto_domain_pattern, atoi_digits, positive_number, domain_numbers, domain_groups,
  parse_auto_domain_name_parts, parse_auto_domain_name, auto_domain_name, number_text,
}

codes-append : (s t : String) → codes (text_append s t) ≡ codes s ++ codes t
unfolding codes
codes-append String.[] t = rw append.nil refl
codes-append (String.◌∷◌ c s) t = rw append.cons (ap (λ cs. code c ∷ cs) (codes-append s t))

codes-digits_text : (ds : List ℕ) → AreDigits ds → codes (digits_text ds) ≡ map digit_byte ds
unfolding codes digits_text
codes-digits_text [] h = refl
codes-digits_text (d ∷ ds) h =
    rw (code-digit_char d h.0) (ap (λ cs. (48 + d) ∷ cs) (codes-digits_text ds h.1))

-- a number of the name, as its bytes
codes-number_text : (n : ℕ) → codes (number_text n) ≡ tier_text n
unfolding tier_text
codes-number_text n = codes-digits_text (decimal_digits n n []) (AreDigits-decimal_digits n n [] tt)

-- A group takes all digits up to a byte that is none.
group_digits_before :
    (rest : Bytes → Option (List Bytes)) (ds taken s : Bytes) (c : ℕ) (groups : List Bytes)
    → ((b : ℕ) → Member b ds → is_digit b ≡ true)
    → is_digit c ≡ false
    → rest (c ∷ s) ≡ some groups
    → group_digits rest taken (ds ++ c ∷ s) ≡ some ((taken ++ ds) ∷ groups)
unfolding group_digits
group_digits_before rest [] taken s c groups h n e =
    rw (n, e, group_digits) (ap (λ t. some (t ∷ groups)) (sym (append-nil taken)))
group_digits_before rest (d ∷ ds) taken s c groups h n e =
    let longer : group_digits rest (taken ++ d ∷ []) (ds ++ c ∷ s)
        ≡ some ((taken ++ d ∷ ds) ∷ groups) =
      group_digits_before rest ds (taken ++ d ∷ []) s c groups (λ b m. h b (inr m)) n e
      ∙ ap (λ t. some (t ∷ groups)) (append_assoc taken (d ∷ []) ds) in
    rw (longer, h d (inl refl), group_digits) refl

-- A group takes all digits at the end.
group_digits_last :
    (ds taken : Bytes)
    → ((b : ℕ) → Member b ds → is_digit b ≡ true)
    → group_digits (find_submatch []) taken ds ≡ some ((taken ++ ds) ∷ [])
unfolding group_digits find_submatch
group_digits_last [] taken h = ap (λ t. some (t ∷ [])) (sym (append-nil taken))
group_digits_last (d ∷ ds) taken h =
    let longer : group_digits (find_submatch []) (taken ++ d ∷ []) ds
        ≡ some ((taken ++ d ∷ ds) ∷ []) =
      group_digits_last ds (taken ++ d ∷ []) (λ b m. h b (inr m))
      ∙ ap (λ t. some (t ∷ [])) (append_assoc taken (d ∷ []) ds) in
    rw (longer, h d (inl refl), group_digits) refl

number_before :
    (n : ℕ) (s : Bytes) (c : ℕ) (groups : List Bytes)
    → 0 < n
    → is_digit c ≡ false
    → find_submatch (literal (codes "-group") ∷ tier_expression ∷ []) (c ∷ s) ≡ some groups
    → find_submatch
        (tier_expression ∷ literal (codes "-group") ∷ tier_expression ∷ [])
        (tier_text n ++ c ∷ s)
      ≡ some (tier_text n ∷ groups)
unfolding find_submatch tier_text
number_before n s c groups positive no_digit e =
    let (d, ds, q, pd) = first_digit n n [] (omega arith) positive in
    let a = subst AreDigits q (AreDigits-decimal_digits n n [] tt) in
    let b : is_positive_digit (48 + d) ≡ true = ground (arith, a.0, pd) in
    let found =
      group_digits_before (find_submatch (literal (codes "-group") ∷ tier_expression ∷ []))
        (map digit_byte ds) ((48 + d) ∷ []) s c groups (digits_are_bytes ds a.1) no_digit e in
    rw q (rw (found, b, find_submatch) refl)

number_last :
    (n : ℕ) → 0 < n → find_submatch (tier_expression ∷ []) (tier_text n) ≡ some (tier_text n ∷ [])
unfolding find_submatch tier_text
number_last n positive =
    let (d, ds, q, pd) = first_digit n n [] (omega arith) positive in
    let a = subst AreDigits q (AreDigits-decimal_digits n n [] tt) in
    let b : is_positive_digit (48 + d) ≡ true = ground (arith, a.0, pd) in
    let found = group_digits_last (map digit_byte ds) ((48 + d) ∷ []) (digits_are_bytes ds a.1) in
    rw q (rw (found, b, find_submatch) refl)

int_text-small : (n : ℕ) → n ≤ max_int → int_text n ≡ number_text n
unfolding int_text
int_text-small n h = let b : leb n max_int ≡ true = ground (arith, h) in rw b refl

name_codes :
    (tier number : ℕ)
    → number ≤ max_int
    → codes (auto_domain_name tier number)
      ≡ codes "tier" ++ (tier_text tier ++ (codes "-group" ++ tier_text number))
unfolding auto_domain_name
name_codes tier number small =
    ap (λ t. codes (text_append "tier" (text_append (number_text tier) (text_append "-group" t))))
      (int_text-small number small)
    ∙ codes-append "tier"
        (text_append (number_text tier) (text_append "-group" (number_text number)))
    ∙ ap (λ bs. codes "tier" ++ bs)
        (codes-append (number_text tier) (text_append "-group" (number_text number))
          ∙ ap (λ bs. bs ++ codes (text_append "-group" (number_text number)))
              (codes-number_text tier)
          ∙ ap (λ bs. tier_text tier ++ bs)
              (codes-append "-group" (number_text number)
                ∙ ap (λ bs. codes "-group" ++ bs) (codes-number_text number)))

name_found :
    (tier number : ℕ)
    → 0 < tier
    → 0 < number
    → number ≤ max_int
    → find_submatch auto_domain_pattern (codes (auto_domain_name tier number))
      ≡ some (tier_text tier ∷ tier_text number ∷ [])
unfolding find_submatch codes strip
name_found tier number p q small =
    ap (find_submatch auto_domain_pattern) (name_codes tier number small)
    ∙ number_before tier _ _ (tier_text number ∷ []) p refl (number_last number q)

number_read : (n : ℕ) → 0 < n → n ≤ max_int → positive_number (atoi_digits (tier_text n)) ≡ some n
number_read n positive small =
    let e = group_value-tier_text n in
    let l : leb (group_value 0 (tier_text n)) max_int ≡ true = ground (arith, e, small) in
    let a : atoi_digits (tier_text n) ≡ some n = rw l (ap some e) in
    let b : ltb n 1 ≡ false = ground (arith, positive) in ap positive_number a ∙ rw b refl

domain_numbers_read :
    (a b : Bytes) (m n : ℕ)
    → positive_number (atoi_digits a) ≡ some m
    → positive_number (atoi_digits b) ≡ some n
    → domain_numbers a b ≡ done (m, n)
unfolding domain_numbers
domain_numbers_read a b m n e k = rw (e, k, domain_numbers) refl

-- parseAutoDomainNameParts reads back both numbers of a name that the controller makes, for positive
-- numbers in the range of `int`.
pub parse_auto_domain_name_parts-auto_domain_name :
    (tier number : ℕ)
    → 0 < tier
    → 0 < number
    → tier ≤ max_int
    → number ≤ max_int
    → parse_auto_domain_name_parts (auto_domain_name tier number) ≡ done (tier, number)
unfolding parse_auto_domain_name_parts
parse_auto_domain_name_parts-auto_domain_name tier number p q small small' =
    ap domain_groups (name_found tier number p q small')
    ∙ domain_numbers_read (tier_text tier) (tier_text number) tier number (number_read tier p small)
        (number_read number q small')

-- parseAutoDomainName reads back the group number of a name `tierN-groupM` that the controller makes,
-- for positive numbers in the range of `int`, where N is the expected tier; for any other tier it
-- returns the error of an unexpected tier.
pub parse_auto_domain_name-auto_domain_name :
    (tier number expected : ℕ)
    → 0 < tier
    → 0 < number
    → tier ≤ max_int
    → number ≤ max_int
    → parse_auto_domain_name (auto_domain_name tier number) expected
      ≡ (if tier == expected then done number else fails unexpected_tier)
unfolding parse_auto_domain_name
parse_auto_domain_name-auto_domain_name tier number expected p q small small' =
    let e = parse_auto_domain_name_parts-auto_domain_name tier number p q small small' in
    rw (e, ◌>>=◌) (elim (Bool-cases (tier == expected)) [ inl b ↦ rw b refl | inr b ↦ rw b refl ])
