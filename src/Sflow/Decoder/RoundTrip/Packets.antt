-- ===== src/Sflow/Decoder/RoundTrip/Packets.antt =====
-- `parseIPv4` on whole packets, and the byte counts of both parsers.
use unifabric.Common.{
  [], ◌∷◌, ◌++◌, ℕ, ◌+◌, ◌*◌, ◌/◌, ◌%◌, ◌<◌, ◌≤◌, true, false, some, ltb, leb, ◌==◌, nat_eq, length,
  length-append, if◌then◌else◌, Bool-cases, ◌≡◌, refl, sym, ap, ◌∙◌, arith, inl, inr,
}
use unifabric.Sflow.Decoder.Bytes.{Bytes, byte_at, slice, slice_middle}
use unifabric.Sflow.Decoder.Headers.{
  ether_type_ipv4, is_transport, ports_at, ipv4_bytes, parse_ipv4, ipv6_bytes,
}
use unifabric.Sflow.Decoder.RoundTrip.{
  append_assoc, clone_ip_same, uint16_at_next, Ports, port_bytes, src_port_of, dst_port_of,
  ports_at_next,
}

-- the byte count of a flow: the length of the frame, or what the packet says where that is 0
abbrev pub bytes_or : ℕ → ℕ → ℕ
bytes_or frame_length n = if frame_length == 0 then n else frame_length

ipv4_bytes_next :
    (xs zs : Bytes) (high low frame_length : ℕ)
    → length xs ≡ 2
    → ipv4_bytes (xs ++ high ∷ low ∷ zs) frame_length
      ≡ some (bytes_or frame_length (high * 256 + low))
unfolding ipv4_bytes
ipv4_bytes_next xs zs high low frame_length e =
    let l : leb 4 (length (xs ++ high ∷ low ∷ zs)) ≡ true =
      ground (arith, e, length-append xs (high ∷ low ∷ zs)) in
    let u = uint16_at_next xs zs high low 2 (sym e) in
    elim (Bool-cases (frame_length == 0)) [ inl b ↦ rw (b, l, u) refl | inr b ↦ rw b refl ]

pub ipv6_bytes_next :
    (xs zs : Bytes) (high low frame_length : ℕ)
    → length xs ≡ 4
    → ipv6_bytes (xs ++ high ∷ low ∷ zs) frame_length
      ≡ some (bytes_or frame_length (40 + (high * 256 + low)))
unfolding ipv6_bytes
ipv6_bytes_next xs zs high low frame_length e =
    let l : leb 6 (length (xs ++ high ∷ low ∷ zs)) ≡ true =
      ground (arith, e, length-append xs (high ∷ low ∷ zs)) in
    let u = uint16_at_next xs zs high low 4 (sym e) in
    elim (Bool-cases (frame_length == 0)) [ inl b ↦ rw (b, l, u) refl | inr b ↦ rw b refl ]

-- an IPv4 header of `ihl` words with its options, then ports and payload
pub record Ipv4Packet : Type 0 where
  pub ihl : ℕ
  pub tos : ℕ
  pub length_high : ℕ
  pub length_low : ℕ
  pub id_high : ℕ
  pub id_low : ℕ
  pub fragment_high : ℕ
  pub fragment_low : ℕ
  pub ttl : ℕ
  pub proto : ℕ
  pub checksum_high : ℕ
  pub checksum_low : ℕ
  pub src : Bytes
  pub dst : Bytes
  pub options : Bytes
  pub ports : Ports
  pub payload : Bytes

abbrev pub IsIpv4Packet : Ipv4Packet → Type 0
IsIpv4Packet p =
    (5 ≤ p.ihl)
    × (p.ihl < 16)
    × (is_transport p.proto ≡ true)
    × (length p.src ≡ 4)
    × (length p.dst ≡ 4)
    × (length p.options + 20 ≡ p.ihl * 4)

abbrev ipv4_head : Ipv4Packet → Bytes
ipv4_head p =
    (64 + p.ihl)
    ∷ p.tos
    ∷ p.length_high
    ∷ p.length_low
    ∷ p.id_high
    ∷ p.id_low
    ∷ p.fragment_high
    ∷ p.fragment_low
    ∷ p.ttl
    ∷ p.proto
    ∷ p.checksum_high
    ∷ p.checksum_low
    ∷ []

unfoldable pub ipv4_packet : Ipv4Packet → Bytes
ipv4_packet p =
    ipv4_head p ++ (p.src ++ (p.dst ++ (p.options ++ (port_bytes p.ports ++ p.payload))))

-- parseIPv4 on a whole IPv4 packet of TCP, UDP or SCTP, with any options: it returns the addresses,
-- the protocol and the two ports of the packet, and the frame length, or the total length of the
-- packet where the frame length is 0.
pub parse_ipv4-ipv4_packet :
    (p : Ipv4Packet) (frame_length : ℕ)
    → IsIpv4Packet p
    → parse_ipv4 (ipv4_packet p) frame_length
      ≡ some (
          some (record {
            flow_bytes = bytes_or frame_length (p.length_high * 256 + p.length_low);
            src_addr = some p.src;
            dst_addr = some p.dst;
            etype = ether_type_ipv4;
            proto = p.proto;
            src_port = src_port_of p.ports;
            dst_port = dst_port_of p.ports;
          }))
unfolding parse_ipv4 ipv4_packet byte_at
parse_ipv4-ipv4_packet p frame_length (low, high, t, ls, ld, lo) =
    let ip = ipv4_packet p in
    let head = ipv4_head p in
    let behind = port_bytes p.ports ++ p.payload in
    let l : length ip
        ≡ 12 + (length p.src + (length p.dst + (length p.options + (4 + length p.payload)))) =
      omega (
        arith,
        length-append p.src (p.dst ++ (p.options ++ behind)),
        length-append p.dst (p.options ++ behind),
        length-append p.options behind,
      ) in
    let at_dst : ip ≡ (head ++ p.src) ++ (p.dst ++ (p.options ++ behind)) =
      sym (append_assoc head p.src (p.dst ++ (p.options ++ behind))) in
    let at_ports : ip ≡ (((head ++ p.src) ++ p.dst) ++ p.options) ++ behind =
      at_dst
      ∙ sym (append_assoc (head ++ p.src) p.dst (p.options ++ behind))
      ∙ sym (append_assoc ((head ++ p.src) ++ p.dst) p.options behind) in
    let short : ltb (length ip) 20 ≡ false = ground (arith, l, ls, ld) in
    let d : (64 + p.ihl) / 16 ≡ 4 = omega (arith, high) in
    let r : (64 + p.ihl) % 16 ≡ p.ihl = omega (arith, high) in
    let small : ltb (p.ihl * 4) 20 ≡ false = ground (arith, low) in
    let inside : ltb (length ip) (p.ihl * 4) ≡ false = ground (arith, l, ls, ld, lo) in
    let ports : ports_at ip p.proto (p.ihl * 4) ≡ some (src_port_of p.ports, dst_port_of p.ports) =
      ap (λ bs. ports_at bs p.proto (p.ihl * 4)) at_ports
      ∙ ports_at_next (((head ++ p.src) ++ p.dst) ++ p.options) p.payload p.ports p.proto
          (p.ihl * 4)
          (omega (
            arith,
            ls,
            ld,
            lo,
            length-append ((head ++ p.src) ++ p.dst) p.options,
            length-append (head ++ p.src) p.dst,
            length-append head p.src,
          ))
          t in
    let count : ipv4_bytes ip frame_length
        ≡ some (bytes_or frame_length (p.length_high * 256 + p.length_low)) =
      ipv4_bytes_next ((64 + p.ihl) ∷ p.tos ∷ []) _ p.length_high p.length_low frame_length refl in
    let src : slice ip 12 16 ≡ some p.src =
      slice_middle head p.src (p.dst ++ (p.options ++ behind)) 12 16 refl (omega (arith, ls)) in
    let dst : slice ip 16 20 ≡ some p.dst =
      ap (λ bs. slice bs 16 20) at_dst
      ∙ slice_middle (head ++ p.src) p.dst (p.options ++ behind) 16 20
          (omega (arith, ls, length-append head p.src))
          (omega (arith, ls, ld, length-append head p.src)) in
    rw
      (short, d, r, small, inside, ports, count, src, dst, clone_ip_same p.src, clone_ip_same p.dst)
      refl
