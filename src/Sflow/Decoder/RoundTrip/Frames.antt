-- ===== src/Sflow/Decoder/RoundTrip/Frames.antt =====
-- `parseSampledHeader` on Ethernet frames with VLAN tags.
use unifabric.Common.{
  List, [], ◌∷◌, ◌++◌, ℕ, zero, suc, ◌+◌, ◌*◌, ◌≤◌, true, false, none, some, ltb, ◌==◌, nat_eq,
  length, length-append, if◌then◌else◌, ◌≡◌, refl, sym, ap, ◌∙◌, arith,
}
use unifabric.Sflow.Decoder.Bytes.{Bytes, slice_from, slice_from_end}
use unifabric.Sflow.Decoder.Headers.{
  ether_type_ipv4, uint16_at, parse_ipv4, parse_ipv6, ether_type_ipv6, is_tag, skip_tags,
  parse_payload, parse_sampled_header,
}
use unifabric.Sflow.Decoder.RoundTrip.{append_assoc, uint16_at_next}

-- a VLAN tag: the two bytes of its type and the two bytes that it holds
pub record Tag : Type 0 where
  pub type_high : ℕ
  pub type_low : ℕ
  pub control_high : ℕ
  pub control_low : ℕ

abbrev pub AreTags : List Tag → Type 0
AreTags [] = Unit
AreTags (t ∷ ts) = (is_tag (t.type_high * 256 + t.type_low) ≡ true) × AreTags ts

-- the frame up to its first type: the type is that of the first tag, or the type of the payload
abbrev pub type_high_of : List Tag → ℕ → ℕ
type_high_of [] high = high
type_high_of (t ∷ ts) high = t.type_high

abbrev pub type_low_of : List Tag → ℕ → ℕ
type_low_of [] low = low
type_low_of (t ∷ ts) low = t.type_low

abbrev type_of : List Tag → ℕ → ℕ → ℕ
type_of ts high low = type_high_of ts high * 256 + type_low_of ts low

-- what follows the first type, up to the payload
unfoldable pub behind_type : List Tag → ℕ → ℕ → Bytes
behind_type [] high low = []
behind_type (t ∷ ts) high low =
    (t.control_high ∷ t.control_low ∷ type_high_of ts high ∷ type_low_of ts low ∷ [])
    ++ behind_type ts high low

unfoldable pub frame : Bytes → List Tag → ℕ → ℕ → Bytes → Bytes
frame addresses tags high low payload =
    addresses
    ++ (type_high_of tags high ∷ type_low_of tags low ∷ (behind_type tags high low ++ payload))

skip_tags_over :
    (ts : List Tag) (i : ℕ) (xs payload : Bytes) (high low offset : ℕ)
    → length ts ≤ i
    → AreTags ts
    → is_tag (high * 256 + low) ≡ false
    → offset ≡ length xs
    → skip_tags i (xs ++ (behind_type ts high low ++ payload)) (type_of ts high low) offset
      ≡ some (some (high * 256 + low, offset + length (behind_type ts high low)))
unfolding skip_tags behind_type
skip_tags_over [] zero xs payload high low offset l a n e =
    ap (λ o. some (some (high * 256 + low, o))) (omega arith)
skip_tags_over [] (suc i) xs payload high low offset l a n e =
    rw n (ap (λ o. some (some (high * 256 + low, o))) (omega arith))
skip_tags_over (t ∷ ts) zero xs payload high low offset l a n e = absurd (omega (arith, l))
skip_tags_over (t ∷ ts) (suc i) xs payload high low offset l a n e =
    let h = type_high_of ts high in
    let k = type_low_of ts low in
    let head = t.control_high ∷ t.control_low ∷ h ∷ k ∷ [] in
    let rest = behind_type ts high low in
    let bs = xs ++ (behind_type (t ∷ ts) high low ++ payload) in
    let p : bs ≡ (xs ++ head) ++ (rest ++ payload) = sym (append_assoc xs head (rest ++ payload)) in
    let p' : bs ≡ (xs ++ (t.control_high ∷ t.control_low ∷ [])) ++ (h ∷ k ∷ (rest ++ payload)) =
      sym (append_assoc xs (t.control_high ∷ t.control_low ∷ []) (h ∷ k ∷ (rest ++ payload))) in
    let u : uint16_at bs (offset + 2) ≡ some (h * 256 + k) =
      ap (λ cs. uint16_at cs (offset + 2)) p'
      ∙ uint16_at_next (xs ++ (t.control_high ∷ t.control_low ∷ [])) (rest ++ payload) h k
          (offset + 2) (omega (arith, e, length-append xs (t.control_high ∷ t.control_low ∷ []))) in
    let long : ltb (length bs) (offset + 4) ≡ false =
      ground (arith, e, length-append xs (behind_type (t ∷ ts) high low ++ payload)) in
    rw (a.0, long, u)
      (ap (λ cs. skip_tags i cs (h * 256 + k) (offset + 4)) p
        ∙ skip_tags_over ts i (xs ++ head) payload high low (offset + 4) (omega (arith, l)) a.1 n
            (omega (arith, e, length-append xs head))
        ∙ ap (λ o. some (some (high * 256 + low, o))) (omega arith))

-- parseSampledHeader on an Ethernet frame with at most two VLAN tags parses the payload of the frame:
-- as IPv4 or as IPv6, as its type says, and returns false for any other type.
pub parse_sampled_header-frame :
    (addresses : Bytes) (tags : List Tag) (high low : ℕ) (payload : Bytes) (frame_length : ℕ)
    → length addresses ≡ 12
    → length tags ≤ 2
    → AreTags tags
    → is_tag (high * 256 + low) ≡ false
    → parse_sampled_header (frame addresses tags high low payload) frame_length ≡ (
        if high * 256 + low == ether_type_ipv4
        then parse_ipv4 payload frame_length
        else if high * 256 + low == ether_type_ipv6
        then parse_ipv6 payload frame_length
        else some none)
unfolding parse_sampled_header frame parse_payload
parse_sampled_header-frame addresses tags high low payload frame_length l most a n =
    let h = type_high_of tags high in
    let k = type_low_of tags low in
    let behind = behind_type tags high low in
    let bs = frame addresses tags high low payload in
    let head = addresses ++ (h ∷ k ∷ []) in
    let p : bs ≡ head ++ (behind ++ payload) =
      sym (append_assoc addresses (h ∷ k ∷ []) (behind ++ payload)) in
    let at_payload : bs ≡ (head ++ behind) ++ payload =
      p ∙ sym (append_assoc head behind payload) in
    let l' : length head ≡ 14 = omega (arith, l, length-append addresses (h ∷ k ∷ [])) in
    let long : ltb (length bs) 14 ≡ false =
      ground (arith, l, length-append addresses (h ∷ k ∷ (behind ++ payload))) in
    let u : uint16_at bs 12 ≡ some (h * 256 + k) =
      uint16_at_next addresses (behind ++ payload) h k 12 (sym l) in
    let skip : skip_tags 2 bs (h * 256 + k) 14
        ≡ some (some (high * 256 + low, 14 + length behind)) =
      ap (λ cs. skip_tags 2 cs (h * 256 + k) 14) p
      ∙ skip_tags_over tags 2 head payload high low 14 most a n (sym l') in
    let rest : slice_from bs (14 + length behind) ≡ some payload =
      ap (λ cs. slice_from cs (14 + length behind)) at_payload
      ∙ slice_from_end (head ++ behind) payload (14 + length behind)
          (omega (arith, l', length-append head behind)) in
    rw (long, u, skip, rest) refl
