-- ===== src/Sflow/Decoder/RoundTrip/Ipv6.antt =====
-- `parseIPv6` on whole packets.
use unifabric.Common.{
  List, [], ◌∷◌, ◌++◌, ℕ, ◌+◌, ◌*◌, ◌/◌, ◌<◌, ◌≤◌, true, false, some, ltb, nat_eq, length,
  length-append, ◌≡◌, refl, sym, ap, ◌∙◌, arith,
}
use unifabric.Sflow.Decoder.Bytes.{Bytes, byte_at, slice, slice_middle}
use unifabric.Sflow.Decoder.Headers.{
  is_transport, ports_at, skip_extensions, ipv6_bytes, finish_ipv6, parse_ipv6, ether_type_ipv6,
}
use unifabric.Sflow.Decoder.RoundTrip.{
  append_assoc, clone_ip_same, Ports, port_bytes, src_port_of, dst_port_of, ports_at_next,
}
use unifabric.Sflow.Decoder.RoundTrip.Chain.{
  Extension, AreExtensions, first_of, chain_bytes, IsUpper, skip_extensions_over,
}
use unifabric.Sflow.Decoder.RoundTrip.Packets.{bytes_or, ipv6_bytes_next}

-- an IPv6 header, extension headers, then ports and payload
pub record Ipv6Packet : Type 0 where
  pub class_high : ℕ
  pub class_low : ℕ
  pub flow_high : ℕ
  pub flow_low : ℕ
  pub length_high : ℕ
  pub length_low : ℕ
  pub hop_limit : ℕ
  pub src : Bytes
  pub dst : Bytes
  pub extensions : List Extension
  pub proto : ℕ
  pub ports : Ports
  pub payload : Bytes

abbrev pub IsIpv6Packet : Ipv6Packet → Type 0
IsIpv6Packet p =
    (p.class_high < 16)
    × (length p.src ≡ 16)
    × (length p.dst ≡ 16)
    × (length p.extensions ≤ 8)
    × AreExtensions p.extensions
    × IsUpper p.proto
    × (is_transport p.proto ≡ true)

abbrev ipv6_head : Ipv6Packet → Bytes
ipv6_head p =
    (96 + p.class_high)
    ∷ p.class_low
    ∷ p.flow_high
    ∷ p.flow_low
    ∷ p.length_high
    ∷ p.length_low
    ∷ first_of p.extensions p.proto
    ∷ p.hop_limit
    ∷ []

unfoldable pub ipv6_packet : Ipv6Packet → Bytes
ipv6_packet p =
    ipv6_head p
    ++ (p.src ++ (p.dst ++ (chain_bytes p.extensions p.proto ++ (port_bytes p.ports ++ p.payload))))

-- parseIPv6 on a whole IPv6 packet of TCP, UDP or SCTP behind at most eight extension headers whose
-- length bytes are below the wrap (255, or 254 in an authentication header): it returns the
-- addresses, the number of the upper-layer protocol and the two ports of the packet, and the frame
-- length, or 40 more than the payload length of the packet where the frame length is 0.
pub parse_ipv6-ipv6_packet :
    (p : Ipv6Packet) (frame_length : ℕ)
    → IsIpv6Packet p
    → parse_ipv6 (ipv6_packet p) frame_length
      ≡ some (
          some (record {
            flow_bytes = bytes_or frame_length (40 + (p.length_high * 256 + p.length_low));
            src_addr = some p.src;
            dst_addr = some p.dst;
            etype = ether_type_ipv6;
            proto = p.proto;
            src_port = src_port_of p.ports;
            dst_port = dst_port_of p.ports;
          }))
unfolding parse_ipv6 ipv6_packet byte_at finish_ipv6
parse_ipv6-ipv6_packet p frame_length (c, ls, ld, most, es, upper, t) =
    let ip = ipv6_packet p in
    let head = ipv6_head p in
    let chain = chain_bytes p.extensions p.proto in
    let behind = port_bytes p.ports ++ p.payload in
    let first = first_of p.extensions p.proto in
    let offset = 40 + length chain in
    let l : length ip
        ≡ 8 + (length p.src + (length p.dst + (length chain + (4 + length p.payload)))) =
      omega (
        arith,
        length-append p.src (p.dst ++ (chain ++ behind)),
        length-append p.dst (chain ++ behind),
        length-append chain behind,
      ) in
    let at_dst : ip ≡ (head ++ p.src) ++ (p.dst ++ (chain ++ behind)) =
      sym (append_assoc head p.src (p.dst ++ (chain ++ behind))) in
    let at_chain : ip ≡ ((head ++ p.src) ++ p.dst) ++ (chain ++ behind) =
      at_dst ∙ sym (append_assoc (head ++ p.src) p.dst (chain ++ behind)) in
    let at_ports : ip ≡ (((head ++ p.src) ++ p.dst) ++ chain) ++ behind =
      at_chain ∙ sym (append_assoc ((head ++ p.src) ++ p.dst) chain behind) in
    let fixed : length ((head ++ p.src) ++ p.dst) ≡ 40 =
      omega (arith, ls, ld, length-append (head ++ p.src) p.dst, length-append head p.src) in
    let short : ltb (length ip) 40 ≡ false = ground (arith, l, ls, ld) in
    let d : (96 + p.class_high) / 16 ≡ 6 = omega (arith, c) in
    let skip : skip_extensions 8 ip first 40 ≡ some (some (p.proto, offset)) =
      ap (λ bs. skip_extensions 8 bs first 40) at_chain
      ∙ skip_extensions_over p.extensions 8 ((head ++ p.src) ++ p.dst) behind p.proto 40 most es
          upper (sym fixed) in
    let ports : ports_at ip p.proto offset ≡ some (src_port_of p.ports, dst_port_of p.ports) =
      ap (λ bs. ports_at bs p.proto offset) at_ports
      ∙ ports_at_next (((head ++ p.src) ++ p.dst) ++ chain) p.payload p.ports p.proto offset
          (omega (arith, fixed, length-append ((head ++ p.src) ++ p.dst) chain)) t in
    let count : ipv6_bytes ip frame_length
        ≡ some (bytes_or frame_length (40 + (p.length_high * 256 + p.length_low))) =
      ipv6_bytes_next ((96 + p.class_high) ∷ p.class_low ∷ p.flow_high ∷ p.flow_low ∷ []) _
        p.length_high p.length_low frame_length refl in
    let src : slice ip 8 24 ≡ some p.src =
      slice_middle head p.src (p.dst ++ (chain ++ behind)) 8 24 refl (omega (arith, ls)) in
    let dst : slice ip 24 40 ≡ some p.dst =
      ap (λ bs. slice bs 24 40) at_dst
      ∙ slice_middle (head ++ p.src) p.dst (chain ++ behind) 24 40
          (omega (arith, ls, length-append head p.src))
          (omega (arith, ls, ld, length-append head p.src)) in
    rw (short, d, skip, ports, count, src, dst, clone_ip_same p.src, clone_ip_same p.dst) refl
