-- ===== src/Sflow/Decoder/Examples.antt =====
-- The decoder of sFlow datagrams on concrete packets.
use unifabric.Common.{
  List, [], ◌∷◌, ℕ, ◌+◌, ◌*◌, ◌-◌, ◌<◌, ◌≤◌, true, Option, none, some, ◌==◌, nat_eq, if◌then◌else◌,
  ◌≡◌, refl, arith, inl, inr,
}
use unifabric.Sflow.Decoder.Bytes.{Bytes, AreBytes, byte_at}
use unifabric.Sflow.Decoder.Headers.{
  ether_type_ipv4, ether_type_ipv6, parse_ipv4, parse_ipv6, parse_sampled_header, has_options,
  read_extension, skip_sized_header, skip_header,
}
use unifabric.Sflow.Decoder.Records.{
  sampled_header, extended_gateway, flow_sample, other_sample, Packet, Decoder, time_of,
  sampler_address, decode_datagram,
}
use unifabric.Sflow.Decoder.Bounds.{IsParsed}
use unifabric.Sflow.Decoder.Bounds.Frame.{parse_sampled_header_in}
use unifabric.Sflow.Decoder.Exact.{packet_rows, decode_datagram_exact}
use unifabric.Sflow.Decoder.RoundTrip.{Ports, src_port_of, dst_port_of}
use unifabric.Sflow.Decoder.RoundTrip.Packets.{
  Ipv4Packet, ipv4_packet, bytes_or, parse_ipv4-ipv4_packet,
}
use unifabric.Sflow.Decoder.RoundTrip.Ipv6.{Ipv6Packet, ipv6_packet, parse_ipv6-ipv6_packet}
use unifabric.Sflow.Decoder.RoundTrip.Frames.{Tag, frame, parse_sampled_header-frame}
use unifabric.Sflow.Decoder.Wrap.{read_extension_moves}

abbrev ports : Ports
ports = record { src_high = 0; src_low = 53; dst_high = 31; dst_low = 144 }

abbrev v4_packet : Ipv4Packet
v4_packet = record {
  ihl = 5;
  tos = 0;
  length_high = 0;
  length_low = 60;
  id_high = 0;
  id_low = 1;
  fragment_high = 64;
  fragment_low = 0;
  ttl = 64;
  proto = 17;
  checksum_high = 0;
  checksum_low = 0;
  src = 10 ∷ 0 ∷ 0 ∷ 1 ∷ [];
  dst = 10 ∷ 0 ∷ 0 ∷ 2 ∷ [];
  options = [];
  ports = ports;
  payload = [];
}

parse_ipv4-ipv4_packet_example :
    parse_ipv4 (ipv4_packet v4_packet) 0
    ≡ some (
        some (record {
          flow_bytes = bytes_or 0 (v4_packet.length_high * 256 + v4_packet.length_low);
          src_addr = some v4_packet.src;
          dst_addr = some v4_packet.dst;
          etype = ether_type_ipv4;
          proto = v4_packet.proto;
          src_port = src_port_of v4_packet.ports;
          dst_port = dst_port_of v4_packet.ports;
        }))
parse_ipv4-ipv4_packet_example =
    parse_ipv4-ipv4_packet v4_packet 0 (omega arith, omega arith, refl, refl, refl, refl)

abbrev address : ℕ → Bytes
address n = 253 ∷ 0 ∷ 0 ∷ 0 ∷ 0 ∷ 0 ∷ 0 ∷ 0 ∷ 0 ∷ 0 ∷ 0 ∷ 0 ∷ 0 ∷ 0 ∷ 0 ∷ n ∷ []

abbrev v6_packet : Ipv6Packet
v6_packet = record {
  class_high = 0;
  class_low = 0;
  flow_high = 0;
  flow_low = 0;
  length_high = 0;
  length_low = 20;
  hop_limit = 64;
  src = address 1;
  dst = address 2;
  extensions =
      record { kind = 0; content = 0 ∷ 5 ∷ 2 ∷ 0 ∷ 0 ∷ 1 ∷ 0 ∷ [] }
      ∷ record { kind = 44; content = 0 ∷ 0 ∷ 0 ∷ 0 ∷ 0 ∷ 0 ∷ 7 ∷ [] }
      ∷ [];
  proto = 6;
  ports = ports;
  payload = [];
}

parse_ipv6-ipv6_packet_example :
    parse_ipv6 (ipv6_packet v6_packet) 90
    ≡ some (
        some (record {
          flow_bytes = bytes_or 90 (40 + (v6_packet.length_high * 256 + v6_packet.length_low));
          src_addr = some v6_packet.src;
          dst_addr = some v6_packet.dst;
          etype = ether_type_ipv6;
          proto = v6_packet.proto;
          src_port = src_port_of v6_packet.ports;
          dst_port = dst_port_of v6_packet.ports;
        }))
parse_ipv6-ipv6_packet_example = parse_ipv6-ipv6_packet v6_packet 90 (
  omega arith,
  refl,
  refl,
  omega arith,
  (
    inl (refl, (0, 5 ∷ 2 ∷ 0 ∷ 0 ∷ 1 ∷ 0 ∷ [], refl, omega arith, refl)),
    (inr (inl (refl, refl)), tt),
  ),
  (refl, (λ e. omega (arith, e)), λ e. omega (arith, e)),
  refl,
)

abbrev macs : Bytes
macs = 0 ∷ 1 ∷ 2 ∷ 3 ∷ 4 ∷ 5 ∷ 6 ∷ 7 ∷ 8 ∷ 9 ∷ 10 ∷ 11 ∷ []

abbrev vlan : List Tag
vlan = record { type_high = 129; type_low = 0; control_high = 0; control_low = 7 } ∷ []

parse_sampled_header-frame_example :
    parse_sampled_header (frame macs vlan 8 0 (ipv4_packet v4_packet)) 64 ≡ (
      if 8 * 256 + 0 == ether_type_ipv4
      then parse_ipv4 (ipv4_packet v4_packet) 64
      else if 8 * 256 + 0 == ether_type_ipv6
      then parse_ipv6 (ipv4_packet v4_packet) 64
      else some none)
parse_sampled_header-frame_example =
    parse_sampled_header-frame macs vlan 8 0 (ipv4_packet v4_packet) 64 refl (omega arith)
      (refl, tt) refl

abbrev sampled : Bytes
sampled =
    0 ∷ 1 ∷ 2 ∷ 3 ∷ 4 ∷ 5 ∷ 6 ∷ 7 ∷ 8 ∷ 9 ∷ 10 ∷ 11 ∷ 8 ∷ 0 ∷ 69 ∷ 0 ∷ 0 ∷ 60 ∷ 0 ∷ 1 ∷ 64 ∷ 0 ∷ 64
    ∷ 17 ∷ 0 ∷ 0 ∷ 10 ∷ 0 ∷ 0 ∷ 1 ∷ 10 ∷ 0 ∷ 0 ∷ 2 ∷ 0 ∷ 53 ∷ 31 ∷ 144 ∷ []

sampled-AreBytes : AreBytes sampled
sampled-AreBytes = ground arith

parse_sampled_header_in_example : IsParsed 0 (parse_sampled_header sampled 0)
parse_sampled_header_in_example = parse_sampled_header_in sampled 0 sampled-AreBytes

abbrev packet : Packet
packet = record {
  agent_ip = none;
  packet_sequence_number = 9;
  samples =
      flow_sample 1000 (sampled_header sampled 64 ∷ extended_gateway 64512 64513 ∷ [])
      ∷ other_sample
      ∷ [];
}

abbrev decode : Bytes → Option Packet
decode [] = none
decode (b ∷ bs) = some packet

abbrev decoder : Decoder
decoder = record { now = some 1700 }

abbrev sender : Option (Option Bytes)
sender = some (some (192 ∷ 168 ∷ 0 ∷ 9 ∷ []))

decode_datagram_exact_example :
    decode_datagram decode decoder 5 (0 ∷ []) sender
    ≡ some (
        some (
          packet_rows
            (time_of decoder 5)
            packet.packet_sequence_number
            (sampler_address packet sender)
            packet.samples))
decode_datagram_exact_example =
    decode_datagram_exact decode decoder 5 (0 ∷ []) sender packet refl
      ((sampled-AreBytes, (tt, tt)), (tt, tt))

-- a header of hop-by-hop options with the length byte 255 is not skipped
abbrev long_options : Bytes
long_options = 17 ∷ 255 ∷ []

abbrev start : ℕ
start = 0

abbrev largest : ℕ
largest = 255

read_extension_moves_example :
    (has_options start ≡ true → largest < 255 → start ≡ start + 8 * (largest + 1))
    × (has_options start ≡ true → largest ≡ 255 → start ≡ start)
    × (start ≡ 51 → largest < 254 → start ≡ start + 4 * (largest + 2))
    × (start ≡ 51 → 254 ≤ largest → start ≡ start + 4 * (largest - 254))
unfolding read_extension byte_at skip_sized_header skip_header
read_extension_moves_example =
    read_extension_moves long_options start start largest 17 start refl (omega arith) refl
