-- ===== src/Sflow/Decoder/Bounds.antt =====
-- The parsers of headers never read out of range, and the bounds of what they return:
-- the shared lemmas and parseIPv4.
pub mod Ipv6
pub mod Frame
use unifabric.Common.{
  List, [], ◌∷◌, ℕ, zero, suc, ◌+◌, ◌-◌, ◌*◌, ◌/◌, ◌%◌, ◌<◌, ◌≤◌, Bool, true, false, not, Option,
  none, some, ltb, leb, ◌&&◌, ◌||◌, ◌==◌, ==_iff, nat_eq, length, if◌then◌else◌, map, length-map,
  Bool-cases, ◌≡◌, refl, arith, ◌⊎◌, inl, inr,
}
use unifabric.Sflow.Decoder.Bytes.{
  Bytes, AreBytes, ◌>>=◌, byte_at, slice_from, slice, big_endian_uint16, Returns, Returns->>=,
  Returns-imp, byte_at_in, slice_in, big_endian_uint16_in, length-drop, drop-AreBytes, drop,
}
use unifabric.Sflow.Decoder.Headers.{
  ParsedFlow, ether_type_ipv4, ether_type_ipv6, clone_ip, uint16_at, is_transport, ports_at,
  ipv4_bytes, parse_ipv4, HeaderStep, truncated, skipped, no_extension, skip_header,
  skip_sized_header, has_options, read_extension, skip_extensions, ipv6_bytes, finish_ipv6,
  parse_ipv6, Place, after_step, is_tag, skip_tags, parse_payload, parse_sampled_header,
}

-- an address of `n` bytes
abbrev pub IsAddress : ℕ → Option Bytes → Type 0
IsAddress n none = ⊥
IsAddress n (some ip) = (length ip ≡ n) × AreBytes ip

abbrev pub HasAddresses : ParsedFlow → Type 0
HasAddresses p =
    (p.etype ≡ ether_type_ipv4) × IsAddress 4 p.src_addr × IsAddress 4 p.dst_addr
    ⊎ (p.etype ≡ ether_type_ipv6) × IsAddress 16 p.src_addr × IsAddress 16 p.dst_addr

-- What a parsed header is, where the frame has the length `frame_length` (0 is no length).
abbrev pub IsFlow : ℕ → ParsedFlow → Type 0
IsFlow frame_length p =
    HasAddresses p
    × (p.proto < 256)
    × (p.src_port < 65536)
    × (p.dst_port < 65536)
    × ((p.flow_bytes ≡ frame_length) ⊎ (frame_length ≡ 0) × (p.flow_bytes < 65576))

abbrev pub HasFlow : ℕ → Option ParsedFlow → Type 0
HasFlow frame_length none = Unit
HasFlow frame_length (some p) = IsFlow frame_length p

-- no panic, and a flow where there is a result
abbrev pub IsParsed : ℕ → Option (Option ParsedFlow) → Type 0
IsParsed frame_length = Returns (HasFlow frame_length)

pub uint16_at_in :
    (bs : Bytes) (low : ℕ)
    → AreBytes bs
    → low + 2 ≤ length bs
    → Returns (λ n. n < 65536) (uint16_at bs low)
unfolding uint16_at
uint16_at_in bs low h l =
    Returns->>= (λ s. (length s ≡ low + 2 - low) × AreBytes s) (λ n. n < 65536)
      (slice bs low (low + 2)) big_endian_uint16 (slice_in bs low (low + 2) h (omega arith) l)
      (λ s k. big_endian_uint16_in s k.1 (omega (arith, k.0)))

copied-AreBytes : (bs : Bytes) → AreBytes bs → AreBytes (map (λ b. b) bs)
copied-AreBytes [] h = tt
copied-AreBytes (b ∷ bs) h = (h.0, copied-AreBytes bs h.1)

clone_ip-IsAddress :
    (n : ℕ) (ip : Bytes) → length ip ≡ n → AreBytes ip → IsAddress n (clone_ip (some ip))
unfolding clone_ip
clone_ip-IsAddress n ip e h = (omega (arith, e, length-map (λ b. b) ip), copied-AreBytes ip h)

pub ports_at_in :
    (ip : Bytes) (proto offset : ℕ)
    → AreBytes ip
    → Returns (λ ports. (ports.0 < 65536) × (ports.1 < 65536)) (ports_at ip proto offset)
unfolding ports_at
ports_at_in ip proto offset h =
    elim (Bool-cases (is_transport proto && leb (offset + 4) (length ip))) [
      | inr e ↦ rw e (omega arith, omega arith)
      | inl e ↦
          let l : offset + 4 ≤ length ip = ground (arith, e) in
          rw e (
            Returns->>= (λ n. n < 65536) _ (uint16_at ip offset) _
              (uint16_at_in ip offset h (omega (arith, l)))
              (λ s ps.
                Returns->>= (λ n. n < 65536) _ (uint16_at ip (offset + 2)) _
                  (uint16_at_in ip (offset + 2) h (omega (arith, l))) (λ d pd. (ps, pd))))
    ]

-- the bytes of a flow, from a length that the header has at `low`
abbrev pub BytesOf : ℕ → ℕ → Type 0
BytesOf frame_length n = (n ≡ frame_length) ⊎ (frame_length ≡ 0) × (n < 65576)

pub ipv4_bytes_in :
    (ip : Bytes) (frame_length : ℕ)
    → AreBytes ip
    → Returns (BytesOf frame_length) (ipv4_bytes ip frame_length)
unfolding ipv4_bytes
ipv4_bytes_in ip frame_length h = elim (Bool-cases (frame_length == 0 && leb 4 (length ip))) [
  | inr e ↦ rw e (inl refl)
  | inl e ↦
      let l : (frame_length ≡ 0) × (4 ≤ length ip) = ground (arith, e, ==_iff frame_length 0) in
      rw e (
        Returns-imp (λ n. n < 65536) (BytesOf frame_length) (uint16_at ip 2)
          (uint16_at_in ip 2 h (omega (arith, l.1))) (λ n k. inr (l.0, omega (arith, k))))
]

pub ipv6_bytes_in :
    (ip : Bytes) (frame_length : ℕ)
    → AreBytes ip
    → Returns (BytesOf frame_length) (ipv6_bytes ip frame_length)
unfolding ipv6_bytes
ipv6_bytes_in ip frame_length h = elim (Bool-cases (frame_length == 0 && leb 6 (length ip))) [
  | inr e ↦ rw e (inl refl)
  | inl e ↦
      let l : (frame_length ≡ 0) × (6 ≤ length ip) = ground (arith, e, ==_iff frame_length 0) in
      rw e (
        Returns->>= (λ n. n < 65536) (BytesOf frame_length) (uint16_at ip 4) _
          (uint16_at_in ip 4 h (omega (arith, l.1))) (λ n k. inr (l.0, omega (arith, k))))
]

-- the statements that parseIPv4 and parseIPv6 end with, on addresses of `n` bytes
module _ (ip : Bytes) (h : AreBytes ip) (n etype proto : ℕ) (q : proto < 256)
    (e : (etype ≡ ether_type_ipv4) × (n ≡ 4) ⊎ (etype ≡ ether_type_ipv6) × (n ≡ 16)) where
  pub addresses_in :
      (frame_length low : ℕ) (ports : ℕ × ℕ) (bytes_count : ℕ)
      → low + n + n ≤ length ip
      → (ports.0 < 65536) × (ports.1 < 65536)
      → BytesOf frame_length bytes_count
      → IsParsed frame_length (
          slice ip low (low + n) >>= λ src. slice ip (low + n) (low + n + n) >>= λ dst. some (
            some (record {
              flow_bytes = bytes_count;
              src_addr = clone_ip (some src);
              dst_addr = clone_ip (some dst);
              etype = etype;
              proto = proto;
              src_port = ports.0;
              dst_port = ports.1;
            })))
  addresses_in frame_length low ports bytes_count l ps b =
      Returns->>= (λ s. (length s ≡ low + n - low) × AreBytes s) _ (slice ip low (low + n)) _
        (slice_in ip low (low + n) h (omega arith) (omega (arith, l)))
        (λ src k.
          Returns->>= (λ s. (length s ≡ low + n + n - (low + n)) × AreBytes s) _
            (slice ip (low + n) (low + n + n)) _
            (slice_in ip (low + n) (low + n + n) h (omega arith) l)
            (λ dst k'. (
              elim e [
                | inl (t, m) ↦ inl (
                  t,
                  clone_ip-IsAddress 4 src (omega (arith, k.0, m)) k.1,
                  clone_ip-IsAddress 4 dst (omega (arith, k'.0, m)) k'.1,
                )
                | inr (t, m) ↦ inr (
                  t,
                  clone_ip-IsAddress 16 src (omega (arith, k.0, m)) k.1,
                  clone_ip-IsAddress 16 dst (omega (arith, k'.0, m)) k'.1,
                )
              ],
              q,
              ps.0,
              ps.1,
              b,
            )))

pub parse_ipv4_in :
    (ip : Bytes) (frame_length : ℕ)
    → AreBytes ip
    → IsParsed frame_length (parse_ipv4 ip frame_length)
unfolding parse_ipv4
parse_ipv4_in ip frame_length h = elim (Bool-cases (ltb (length ip) 20)) [
  | inl e ↦ rw e tt
  | inr e ↦
      let l : 20 ≤ length ip = ground (arith, e) in
      rw e (
        Returns->>= (λ b. b < 256) _ (byte_at ip 0) _ (byte_at_in ip 0 h (omega (arith, l)))
          (λ first f.
            elim (Bool-cases (
              not (first / 16 == 4)
              || ltb (first % 16 * 4) 20
              || ltb (length ip) (first % 16 * 4))) [
                | inl e' ↦ rw e' tt
                | inr e' ↦ rw e' (
                    Returns->>= (λ b. b < 256) _ (byte_at ip 9) _
                      (byte_at_in ip 9 h (omega (arith, l)))
                      (λ proto q.
                        Returns->>= _ _ (ports_at ip proto (first % 16 * 4)) _
                          (ports_at_in ip proto (first % 16 * 4) h)
                          (λ ports ps.
                            Returns->>= (BytesOf frame_length) _ (ipv4_bytes ip frame_length) _
                              (ipv4_bytes_in ip frame_length h)
                              (λ n b.
                                addresses_in ip h 4 ether_type_ipv4 proto q (inl (refl, refl))
                                  frame_length 12 ports n l ps b))))
              ]))
]
