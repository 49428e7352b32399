-- ===== src/Sflow/Decoder/Wrap.antt =====
-- How far the loop of `parseIPv6` moves over an extension header.
use unifabric.Common.{
  ℕ, ◌+◌, ◌-◌, ◌*◌, ◌%◌, ◌<◌, ◌≤◌, true, Option, some, ltb, nat_eq, length, Bool-cases,
  Option-cases, ◌≡◌, sym, ap, ◌∙◌, arith, inl, inr,
}
use unifabric.Sflow.Decoder.Bytes.{Bytes, byte_at}
use unifabric.Sflow.Decoder.Headers.{
  skipped, skip_header, skip_sized_header, has_options, read_extension,
}

skip_header_moves :
    (ip : Bytes) (offset hdr_len n next : ℕ)
    → skip_header ip offset hdr_len ≡ some (skipped n next)
    → (byte_at ip offset ≡ some n) × (next ≡ offset + hdr_len) × (offset + hdr_len ≤ length ip)
unfolding skip_header
skip_header_moves ip offset hdr_len n next e =
    elim (Bool-cases (ltb (length ip) (offset + hdr_len))) [
      | inl b ↦ let e' = rw b at e in absurd cc
      | inr b ↦ elim (Option-cases (byte_at ip offset)) [
        | inl q ↦ let e' = rw (b, q) at e in absurd cc
        | inr (m, q) ↦
            let e' : Option.some (skipped m (offset + hdr_len)) ≡ some (skipped n next) =
              rw (b, q) at e in
            let em : m ≡ n = cc in
            let eo : offset + hdr_len ≡ next = cc in (q ∙ ap some em, sym eo, ground (arith, b))
      ]
    ]

skip_sized_header_moves :
    (ip : Bytes) (offset extra unit b n next : ℕ)
    → byte_at ip (offset + 1) ≡ some b
    → skip_sized_header ip offset extra unit ≡ some (skipped n next)
    → next ≡ offset + (b + extra) % 256 * unit
unfolding skip_sized_header
skip_sized_header_moves ip offset extra unit b n next q e =
    elim (Bool-cases (ltb (length ip) (offset + 2))) [
      | inl t ↦ let e' = rw t at e in absurd cc
      | inr t ↦
          let m = skip_header_moves ip offset ((b + extra) % 256 * unit) n next (rw (t, q) at e) in
          m.1
    ]

-- One round of the loop of parseIPv6 that skips an extension header with the length byte `b`. On a
-- header of options or of routing it moves by `8 * (b + 1)` bytes, the length of the header, if `b` is
-- below 255, and by nothing at 255, where the header has 2048 bytes. On an authentication header it
-- moves by `4 * (b + 2)` bytes if `b` is below 254, and by `4 * (b - 254)` bytes otherwise.
pub read_extension_moves :
    (ip : Bytes) (next_header offset b n next : ℕ)
    → byte_at ip (offset + 1) ≡ some b
    → b < 256
    → read_extension ip next_header offset ≡ some (skipped n next)
    → (has_options next_header ≡ true → b < 255 → next ≡ offset + 8 * (b + 1))
      × (has_options next_header ≡ true → b ≡ 255 → next ≡ offset)
      × (next_header ≡ 51 → b < 254 → next ≡ offset + 4 * (b + 2))
      × (next_header ≡ 51 → 254 ≤ b → next ≡ offset + 4 * (b - 254))
unfolding read_extension
read_extension_moves ip next_header offset b n next q lt e =
    let options : has_options next_header ≡ true → next ≡ offset + (b + 1) % 256 * 8 =
      λ t. skip_sized_header_moves ip offset 1 8 b n next q (rw t at e) in
    let authentication : next_header ≡ 51 → next ≡ offset + (b + 2) % 256 * 4 =
      λ t. skip_sized_header_moves ip offset 2 4 b n next q (rw t at e) in
    (
      (λ t l. omega (arith, options t, l)),
      (λ t l. omega (arith, options t, l)),
      (λ t l. omega (arith, authentication t, l)),
      λ t l. omega (arith, authentication t, l, lt),
    )
