-- ===== src/Sflow/Decoder/Bounds/Ipv6.antt =====
-- `parseIPv6` with its loop over the extension headers never reads out of range.
use unifabric.Common.{
  ℕ, zero, suc, ◌+◌, ◌*◌, ◌/◌, ◌%◌, ◌<◌, ◌≤◌, not, Option, none, some, ltb, ◌==◌, nat_eq, length,
  Bool-cases, refl, arith, inl, inr,
}
use unifabric.Sflow.Decoder.Bytes.{Bytes, AreBytes, byte_at, Returns, Returns->>=, byte_at_in}
use unifabric.Sflow.Decoder.Headers.{
  ether_type_ipv6, ports_at, HeaderStep, truncated, skipped, no_extension, skip_header,
  skip_sized_header, has_options, read_extension, skip_extensions, ipv6_bytes, finish_ipv6,
  parse_ipv6, Place, after_step,
}
use unifabric.Sflow.Decoder.Bounds.{IsParsed, BytesOf, ports_at_in, ipv6_bytes_in, addresses_in}

abbrev pub IsPlace : Option Place → Type 0
IsPlace none = Unit
IsPlace (some (next_header, offset)) = next_header < 256

finish_ipv6_in :
    (ip : Bytes) (frame_length : ℕ) (place : Option Place)
    → AreBytes ip
    → 40 ≤ length ip
    → IsPlace place
    → IsParsed frame_length (finish_ipv6 ip frame_length place)
unfolding finish_ipv6
finish_ipv6_in ip frame_length none h l q = tt
finish_ipv6_in ip frame_length (some (next_header, offset)) h l q =
    Returns->>= _ _ (ports_at ip next_header offset) _ (ports_at_in ip next_header offset h)
      (λ ports ps.
        Returns->>= (BytesOf frame_length) _ (ipv6_bytes ip frame_length) _
          (ipv6_bytes_in ip frame_length h)
          (λ n b.
            addresses_in ip h 16 ether_type_ipv6 next_header q (inr (refl, refl)) frame_length 8
              ports n l ps b))

-- a step that does not panic, and whose next header is a byte
abbrev IsStep : HeaderStep → Type 0
IsStep truncated = Unit
IsStep (skipped next_header offset) = next_header < 256
IsStep no_extension = Unit

skip_header_in :
    (ip : Bytes) (offset hdr_len : ℕ)
    → AreBytes ip
    → (offset + hdr_len ≤ length ip → offset < length ip)
    → Returns IsStep (skip_header ip offset hdr_len)
unfolding skip_header
skip_header_in ip offset hdr_len h l = elim (Bool-cases (ltb (length ip) (offset + hdr_len))) [
  | inl e ↦ rw e tt
  | inr e ↦ rw e (
      Returns->>= (λ b. b < 256) IsStep (byte_at ip offset) _
        (byte_at_in ip offset h (l (ground (arith, e)))) (λ b k. k))
]

skip_sized_header_in :
    (ip : Bytes) (offset extra unit : ℕ)
    → AreBytes ip
    → Returns IsStep (skip_sized_header ip offset extra unit)
unfolding skip_sized_header
skip_sized_header_in ip offset extra unit h = elim (Bool-cases (ltb (length ip) (offset + 2))) [
  | inl e ↦ rw e tt
  | inr e ↦
      let l : offset + 2 ≤ length ip = ground (arith, e) in
      rw e (
        Returns->>= (λ b. b < 256) IsStep (byte_at ip (offset + 1)) _
          (byte_at_in ip (offset + 1) h (omega (arith, l)))
          (λ b k. skip_header_in ip offset ((b + extra) % 256 * unit) h (λ m. omega (arith, l))))
]

read_extension_in :
    (ip : Bytes) (next_header offset : ℕ)
    → AreBytes ip
    → Returns IsStep (read_extension ip next_header offset)
unfolding read_extension
read_extension_in ip next_header offset h = elim (Bool-cases (has_options next_header)) [
  | inl e ↦ rw e (skip_sized_header_in ip offset 1 8 h)
  | inr e ↦ rw e (elim (Bool-cases (next_header == 44)) [
    | inl e' ↦ rw e' (skip_header_in ip offset 8 h (λ m. omega (arith, m)))
    | inr e' ↦ rw e' (elim (Bool-cases (next_header == 51)) [
      | inl e'' ↦ rw e'' (skip_sized_header_in ip offset 2 4 h)
      | inr e'' ↦ rw e'' tt
    ])
  ])
]

after_step-IsPlace :
    (next_round : ℕ → ℕ → Option (Option Place)) (place : Place) (step : HeaderStep)
    → ((n o : ℕ) → n < 256 → Returns IsPlace (next_round n o))
    → place.0 < 256
    → IsStep step
    → Returns IsPlace (after_step next_round place step)
after_step-IsPlace next_round place truncated f q k = tt
after_step-IsPlace next_round place (skipped n o) f q k = f n o k
after_step-IsPlace next_round place no_extension f q k = q

skip_extensions_in :
    (i : ℕ) (ip : Bytes) (next_header offset : ℕ)
    → AreBytes ip
    → next_header < 256
    → Returns IsPlace (skip_extensions i ip next_header offset)
unfolding skip_extensions
skip_extensions_in zero ip next_header offset h q = q
skip_extensions_in (suc i) ip next_header offset h q =
    Returns->>= IsStep IsPlace (read_extension ip next_header offset) _
      (read_extension_in ip next_header offset h)
      (λ step k.
        after_step-IsPlace (λ n o. skip_extensions i ip n o) (next_header, offset) step
          (λ n o b. skip_extensions_in i ip n o h b) q k)

pub parse_ipv6_in :
    (ip : Bytes) (frame_length : ℕ)
    → AreBytes ip
    → IsParsed frame_length (parse_ipv6 ip frame_length)
unfolding parse_ipv6
parse_ipv6_in ip frame_length h = elim (Bool-cases (ltb (length ip) 40)) [
  | inl e ↦ rw e tt
  | inr e ↦
      let l : 40 ≤ length ip = ground (arith, e) in
      rw e (
        Returns->>= (λ b. b < 256) _ (byte_at ip 0) _ (byte_at_in ip 0 h (omega (arith, l)))
          (λ first f. elim (Bool-cases (not (first / 16 == 6))) [
            | inl e' ↦ rw e' tt
            | inr e' ↦ rw e' (
                Returns->>= (λ b. b < 256) _ (byte_at ip 6) _ (byte_at_in ip 6 h (omega (arith, l)))
                  (λ next_header q.
                    Returns->>= IsPlace _ (skip_extensions 8 ip next_header 40) _
                      (skip_extensions_in 8 ip next_header 40 h q)
                      (λ place k. finish_ipv6_in ip frame_length place h l k)))
          ]))
]
