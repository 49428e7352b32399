-- ===== src/Sflow/Decoder/Bounds/Frame.antt =====
-- `parseSampledHeader` with its loop over the VLAN tags never reads out of range.
use unifabric.Common.{
  ℕ, zero, suc, ◌+◌, ◌<◌, ◌≤◌, true, not, Option, none, some, ltb, leb, ◌==◌, nat_eq, length,
  Bool-cases, ◌≡◌, arith, inl, inr,
}
use unifabric.Sflow.Decoder.Bytes.{Bytes, AreBytes, slice_from, Returns, Returns->>=, drop-AreBytes}
use unifabric.Sflow.Decoder.Headers.{
  ether_type_ipv4, ether_type_ipv6, uint16_at, Place, is_tag, skip_tags, parse_payload,
  parse_sampled_header,
}
use unifabric.Sflow.Decoder.Bounds.{IsParsed, uint16_at_in, parse_ipv4_in}
use unifabric.Sflow.Decoder.Bounds.Ipv6.{parse_ipv6_in}

abbrev EndsIn : Bytes → Option Place → Type 0
EndsIn header none = Unit
EndsIn header (some place) = place.1 ≤ length header

-- The offset after the tags lies in the frame.
skip_tags_in :
    (i : ℕ) (header : Bytes) (etype offset : ℕ)
    → AreBytes header
    → offset ≤ length header
    → Returns (EndsIn header) (skip_tags i header etype offset)
unfolding skip_tags
skip_tags_in zero header etype offset h l = l
skip_tags_in (suc i) header etype offset h l = elim (Bool-cases (not (is_tag etype))) [
  | inl e ↦ rw e l
  | inr e ↦ rw e (elim (Bool-cases (ltb (length header) (offset + 4))) [
    | inl e' ↦ rw e' tt
    | inr e' ↦
        let m : offset + 4 ≤ length header = ground (arith, e') in
        rw e' (
          Returns->>= (λ n. n < 65536) _ (uint16_at header (offset + 2)) _
            (uint16_at_in header (offset + 2) h (omega (arith, m)))
            (λ etype' k. skip_tags_in i header etype' (offset + 4) h m))
  ])
]

slice_from_in :
    (bs : Bytes) (low : ℕ) → AreBytes bs → low ≤ length bs → Returns AreBytes (slice_from bs low)
unfolding slice_from
slice_from_in bs low h l =
    let e : leb low (length bs) ≡ true = ground (arith, l) in rw e (drop-AreBytes low bs h)

parse_payload_in :
    (header : Bytes) (frame_length : ℕ) (found : Option Place)
    → AreBytes header
    → EndsIn header found
    → IsParsed frame_length (parse_payload header frame_length found)
unfolding parse_payload
parse_payload_in header frame_length none h l = tt
parse_payload_in header frame_length (some (etype, offset)) h l =
    elim (Bool-cases (etype == ether_type_ipv4)) [
      | inl e ↦ rw e (
          Returns->>= AreBytes _ (slice_from header offset) _ (slice_from_in header offset h l)
            (λ ip k. parse_ipv4_in ip frame_length k))
      | inr e ↦ rw e (elim (Bool-cases (etype == ether_type_ipv6)) [
        | inl e' ↦ rw e' (
            Returns->>= AreBytes _ (slice_from header offset) _ (slice_from_in header offset h l)
              (λ ip k. parse_ipv6_in ip frame_length k))
        | inr e' ↦ rw e' tt
      ])
    ]

-- parseSampledHeader on bytes does not panic. A flow that it returns has two IPv4 addresses of 4
-- bytes or two IPv6 addresses of 16 bytes with the matching Etype, a protocol below 256 and ports
-- below 65536; its byte count is the frame length, or, where that is 0, below 65576.
pub parse_sampled_header_in :
    (header : Bytes) (frame_length : ℕ)
    → AreBytes header
    → IsParsed frame_length (parse_sampled_header header frame_length)
unfolding parse_sampled_header
parse_sampled_header_in header frame_length h = elim (Bool-cases (ltb (length header) 14)) [
  | inl e ↦ rw e tt
  | inr e ↦
      let l : 14 ≤ length header = ground (arith, e) in
      rw e (
        Returns->>= (λ n. n < 65536) _ (uint16_at header 12) _ (uint16_at_in header 12 h l)
          (λ etype q.
            Returns->>= _ _ (skip_tags 2 header etype 14) _
              (skip_tags_in 2 header etype 14 h (omega (arith, l)))
              (λ found k. parse_payload_in header frame_length found h k)))
]
