-- ===== src/Sflow/Decoder/RoundTrip/Chain.antt =====
-- The loop over the extension headers of IPv6, on headers as RFC 8200 and RFC 4302 lay them out.
use unifabric.Common.{
  List, [], ◌∷◌, ◌++◌, ℕ, zero, suc, ◌+◌, ◌*◌, ◌%◌, ◌<◌, ◌≤◌, true, false, some, ltb, ◌==◌, ==_iff,
  nat_eq, length, length-append, ◌≡◌, ◌≢◌, refl, sym, ap, ◌∙◌, arith, ◌⊎◌, inl, inr,
}
use unifabric.Sflow.Decoder.Bytes.{Bytes, ◌>>=◌, byte_at, byte_at_next}
use unifabric.Sflow.Decoder.Headers.{
  skipped, no_extension, skip_header, skip_sized_header, has_options, read_extension,
  skip_extensions, after_step,
}
use unifabric.Sflow.Decoder.RoundTrip.{append_assoc}

-- A header without its first byte, which names the next header.
pub record Extension : Type 0 where
  pub kind : ℕ
  pub content : Bytes

-- The length byte `b` counts units of 8 bytes after the first 8, or of 4 bytes after the first 8 in an
-- authentication header.
abbrev IsSized : ℕ → ℕ → ℕ → Bytes → Type 0
IsSized extra unit most content =
    (b : ℕ) × (body : Bytes) × (content ≡ b ∷ body)
    × (b < most)
    × (suc (length content) ≡ (b + extra) * unit)

abbrev pub IsExtension : Extension → Type 0
IsExtension e =
    (has_options e.kind ≡ true) × IsSized 1 8 255 e.content
    ⊎ (e.kind ≡ 44) × (length e.content ≡ 7)
    ⊎ (e.kind ≡ 51) × IsSized 2 4 254 e.content

abbrev pub AreExtensions : List Extension → Type 0
AreExtensions [] = Unit
AreExtensions (e ∷ es) = IsExtension e × AreExtensions es

-- the number of the first header of a chain before a header with the number `proto`
abbrev pub first_of : List Extension → ℕ → ℕ
first_of [] proto = proto
first_of (e ∷ es) proto = e.kind

unfoldable pub chain_bytes : List Extension → ℕ → Bytes
chain_bytes [] proto = []
chain_bytes (e ∷ es) proto = (first_of es proto ∷ e.content) ++ chain_bytes es proto

abbrev pub IsUpper : ℕ → Type 0
IsUpper proto = (has_options proto ≡ false) × (proto ≢ 44) × (proto ≢ 51)

-- `xs ++ (n ∷ content) ++ zs` at the start of the header
module _ (xs zs content : Bytes) (n : ℕ) where
  abbrev packet : Bytes
  packet = xs ++ ((n ∷ content) ++ zs)

  length-packet : length packet ≡ length xs + (suc (length content) + length zs)
  length-packet = omega (arith, length-append xs ((n ∷ content) ++ zs), length-append content zs)

  byte_at_start : (offset : ℕ) → offset ≡ length xs → byte_at packet offset ≡ some n
  unfolding byte_at
  byte_at_start offset e =
      ap (byte_at packet) (omega (arith, e)) ∙ byte_at_next xs ((n ∷ content) ++ zs) 0

  skip_header_over :
      (offset hdr_len : ℕ)
      → offset ≡ length xs
      → hdr_len ≡ suc (length content)
      → skip_header packet offset hdr_len ≡ some (skipped n (offset + hdr_len))
  unfolding skip_header
  skip_header_over offset hdr_len e k =
      let t : ltb (length packet) (offset + hdr_len) ≡ false =
        ground (arith, e, k, length-packet) in
      rw (t, byte_at_start offset e) refl

  skip_sized_header_over :
      (offset extra unit most : ℕ)
      → offset ≡ length xs
      → most + extra ≡ 256
      → IsSized extra unit most content
      → skip_sized_header packet offset extra unit
        ≡ some (skipped n (offset + suc (length content)))
  unfolding skip_sized_header byte_at
  skip_sized_header_over offset extra unit most e m (b, body, q, lt, k) =
      let t : ltb (length packet) (offset + 2) ≡ false =
        ground (arith, e, length-packet, ap length q) in
      let c : byte_at packet (offset + 1) ≡ some b =
        ap (byte_at packet) (omega (arith, e))
        ∙ byte_at_next xs ((n ∷ content) ++ zs) 1
        ∙ ap (λ bs. byte_at ((n ∷ bs) ++ zs) 1) q in
      let w : (b + extra) % 256 ≡ b + extra = omega (arith, lt, m) in
      rw (t, c, w)
        (skip_header_over offset ((b + extra) * unit) e (sym k)
          ∙ ap (λ l. some (skipped n (offset + l))) (sym k))

read_extension_over :
    (xs zs : Bytes) (e : Extension) (n offset : ℕ)
    → offset ≡ length xs
    → IsExtension e
    → read_extension (xs ++ ((n ∷ e.content) ++ zs)) e.kind offset
      ≡ some (skipped n (offset + suc (length e.content)))
unfolding read_extension
read_extension_over xs zs e n offset q (inl (t, s)) =
    rw t (skip_sized_header_over xs zs e.content n offset 1 8 255 q refl s)
read_extension_over xs zs e n offset q (inr (inl (t, s))) =
    let no : has_options e.kind ≡ false = rw t refl in
    rw (no, t)
      (skip_header_over xs zs e.content n offset 8 q (omega (arith, s))
        ∙ ap (λ l. some (skipped n (offset + l))) (omega (arith, s)))
read_extension_over xs zs e n offset q (inr (inr (t, s))) =
    let no : has_options e.kind ≡ false = rw t refl in
    rw (no, t) (skip_sized_header_over xs zs e.content n offset 2 4 254 q refl s)

read_extension_upper :
    (ip : Bytes) (proto offset : ℕ)
    → IsUpper proto
    → read_extension ip proto offset ≡ some no_extension
unfolding read_extension
read_extension_upper ip proto offset (a, b, c) =
    let b' : (proto == 44) ≡ false = ground (arith, ==_iff proto 44) in
    let c' : (proto == 51) ≡ false = ground (arith, ==_iff proto 51) in rw (a, b', c') refl

-- After a chain of at most `i` extension headers with length bytes below the wrap of their sums
-- (255, or 254 in an authentication header), before an upper-layer header, the loop of parseIPv6
-- ends at the number of that header and at the offset behind the chain.
pub skip_extensions_over :
    (es : List Extension) (i : ℕ) (xs zs : Bytes) (proto offset : ℕ)
    → length es ≤ i
    → AreExtensions es
    → IsUpper proto
    → offset ≡ length xs
    → skip_extensions i (xs ++ (chain_bytes es proto ++ zs)) (first_of es proto) offset
      ≡ some (some (proto, offset + length (chain_bytes es proto)))
unfolding skip_extensions chain_bytes
skip_extensions_over [] zero xs zs proto offset l a u q =
    ap (λ o. some (some (proto, o))) (omega arith)
skip_extensions_over [] (suc i) xs zs proto offset l a u q =
    rw (read_extension_upper (xs ++ zs) proto offset u)
      (ap (λ o. some (some (proto, o))) (omega arith))
skip_extensions_over (e ∷ es) zero xs zs proto offset l a u q = absurd (omega (arith, l))
skip_extensions_over (e ∷ es) (suc i) xs zs proto offset l a u q =
    let n = first_of es proto in
    let head = n ∷ e.content in
    let rest = chain_bytes es proto in
    let next = offset + suc (length e.content) in
    let ip = xs ++ ((head ++ rest) ++ zs) in
    let p : ip ≡ xs ++ (head ++ (rest ++ zs)) = ap (λ bs. xs ++ bs) (append_assoc head rest zs) in
    let p' : ip ≡ (xs ++ head) ++ (rest ++ zs) = p ∙ sym (append_assoc xs head (rest ++ zs)) in
    let r : read_extension ip e.kind offset ≡ some (skipped n next) =
      ap (λ bs. read_extension bs e.kind offset) p
      ∙ read_extension_over xs (rest ++ zs) e n offset q a.0 in
    let after =
      skip_extensions_over es i (xs ++ head) zs proto next (omega (arith, l)) a.1 u
        (omega (arith, q, length-append xs head)) in
    ap (λ o. o >>= after_step (λ m o'. skip_extensions i ip m o') (e.kind, offset)) r
    ∙ ap (λ bs. skip_extensions i bs n next) p'
    ∙ after
    ∙ ap (λ o. some (some (proto, o))) (omega (arith, length-append e.content rest))
