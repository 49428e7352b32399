-- ===== src/Sflow/Decoder/Headers.antt =====
-- `parseSampledHeader`, `parseIPv4` and `parseIPv6`. The outer none is a panic, the inner none the
-- result `false`. A sum of bytes wraps at 256 where the code adds before it converts.
use unifabric.Common.{
  ℕ, zero, suc, ◌+◌, ◌*◌, ◌/◌, ◌%◌, Bool, not, Option, none, some, ltb, leb, ◌&&◌, ◌||◌, ◌==◌,
  nat_eq, length, if◌then◌else◌, map,
}
use unifabric.Sflow.Decoder.Bytes.{Bytes, ◌>>=◌, byte_at, slice_from, slice, big_endian_uint16}

abbrev pub ether_type_ipv4 : ℕ
ether_type_ipv4 = 2048

abbrev pub ether_type_ipv6 : ℕ
ether_type_ipv6 = 34525

abbrev pub proto_tcp : ℕ
proto_tcp = 6

abbrev pub proto_udp : ℕ
proto_udp = 17

abbrev pub proto_sctp : ℕ
proto_sctp = 132

-- a nil address is none
pub record ParsedFlow : Type 0 where
  pub flow_bytes : ℕ
  pub src_addr : Option Bytes
  pub dst_addr : Option Bytes
  pub etype : ℕ
  pub proto : ℕ
  pub src_port : ℕ
  pub dst_port : ℕ

unfoldable pub clone_ip : Option Bytes → Option Bytes
clone_ip none = none
clone_ip (some ip) = some (map (λ b. b) ip)

-- `binary.BigEndian.Uint16(bs[low:low+2])`
unfoldable pub uint16_at : Bytes → ℕ → Option ℕ
uint16_at bs low = slice bs low (low + 2) >>= λ s. big_endian_uint16 s

abbrev pub is_transport : ℕ → Bool
is_transport proto = proto == proto_tcp || proto == proto_udp || proto == proto_sctp

-- the two ports at `offset`, zero where there are none
unfoldable pub ports_at : Bytes → ℕ → ℕ → Option (ℕ × ℕ)
ports_at ip proto offset =
    if is_transport proto && leb (offset + 4) (length ip)
    then (uint16_at ip offset >>= λ src_port.
        uint16_at ip (offset + 2) >>= λ dst_port. some (src_port, dst_port))
    else some (0, 0)

unfoldable pub ipv4_bytes : Bytes → ℕ → Option ℕ
ipv4_bytes ip frame_length =
    if frame_length == 0 && leb 4 (length ip) then uint16_at ip 2 else some frame_length

unfoldable pub parse_ipv4 : Bytes → ℕ → Option (Option ParsedFlow)
parse_ipv4 ip frame_length =
    if ltb (length ip) 20
    then some none
    else (byte_at ip 0 >>= λ first.
        let ihl = (first % 16) * 4 in
        if not (first / 16 == 4) || ltb ihl 20 || ltb (length ip) ihl
        then some none
        else (byte_at ip 9 >>= λ proto. ports_at ip proto ihl >>= λ ports.
            ipv4_bytes ip frame_length >>= λ bytes_count. slice ip 12 16 >>= λ src.
            slice ip 16 20 >>= λ dst. some (
              some (record {
                flow_bytes = bytes_count;
                src_addr = clone_ip (some src);
                dst_addr = clone_ip (some dst);
                etype = ether_type_ipv4;
                proto = proto;
                src_port = ports.0;
                dst_port = ports.1;
              }))))

-- One round of the loop over the extension headers: the packet is too short for the header, the
-- header is skipped (with the next header and the new offset), or there is none.
pub data HeaderStep : Type 0 where
  truncated : HeaderStep
  skipped : ℕ → ℕ → HeaderStep
  no_extension : HeaderStep

unfoldable pub skip_header : Bytes → ℕ → ℕ → Option HeaderStep
skip_header ip offset hdr_len =
    if ltb (length ip) (offset + hdr_len)
    then some truncated
    else (byte_at ip offset >>= λ next_header. some (skipped next_header (offset + hdr_len)))

-- the headers with a length byte: `int(ip[offset+1]+extra) * unit`
unfoldable pub skip_sized_header : Bytes → ℕ → ℕ → ℕ → Option HeaderStep
skip_sized_header ip offset extra unit =
    if ltb (length ip) (offset + 2)
    then some truncated
    else (byte_at ip (offset + 1) >>= λ b. skip_header ip offset (((b + extra) % 256) * unit))

abbrev pub has_options : ℕ → Bool
has_options next_header = next_header == 0 || next_header == 43 || next_header == 60

unfoldable pub read_extension : Bytes → ℕ → ℕ → Option HeaderStep
read_extension ip next_header offset =
    if has_options next_header
    then skip_sized_header ip offset 1 8
    else if next_header == 44
    then skip_header ip offset 8
    else if next_header == 51
    then skip_sized_header ip offset 2 4
    else some no_extension

abbrev pub Place : Type 0
Place = ℕ × ℕ

-- what a round does after its step: the `switch` with its return, its assignments and its `goto`
abbrev pub after_step : (ℕ → ℕ → Option (Option Place)) → Place → HeaderStep → Option (Option Place)
after_step next_round place truncated = some none
after_step next_round place (skipped next_header offset) = next_round next_header offset
after_step next_round place no_extension = some (some place)

-- `for i := 0; i < 8; i++`: the last next header and the offset after the extensions
unfoldable pub skip_extensions : ℕ → Bytes → ℕ → ℕ → Option (Option Place)
skip_extensions zero ip next_header offset = some (some (next_header, offset))
skip_extensions (suc i) ip next_header offset =
    read_extension ip next_header offset
    >>= after_step (λ n o. skip_extensions i ip n o) (next_header, offset)

unfoldable pub ipv6_bytes : Bytes → ℕ → Option ℕ
ipv6_bytes ip frame_length =
    if frame_length == 0 && leb 6 (length ip)
    then (uint16_at ip 4 >>= λ n. some (40 + n))
    else some frame_length

-- after the loop: it returned, or the code after the label `done`
unfoldable pub finish_ipv6 : Bytes → ℕ → Option Place → Option (Option ParsedFlow)
finish_ipv6 ip frame_length none = some none
finish_ipv6 ip frame_length (some (next_header, offset)) =
    ports_at ip next_header offset >>= λ ports. ipv6_bytes ip frame_length >>= λ bytes_count.
    slice ip 8 24 >>= λ src. slice ip 24 40 >>= λ dst. some (
      some (record {
        flow_bytes = bytes_count;
        src_addr = clone_ip (some src);
        dst_addr = clone_ip (some dst);
        etype = ether_type_ipv6;
        proto = next_header;
        src_port = ports.0;
        dst_port = ports.1;
      }))

unfoldable pub parse_ipv6 : Bytes → ℕ → Option (Option ParsedFlow)
parse_ipv6 ip frame_length =
    if ltb (length ip) 40
    then some none
    else (byte_at ip 0 >>= λ first.
        if not (first / 16 == 6)
        then some none
        else (byte_at ip 6 >>= λ next_header.
            skip_extensions 8 ip next_header 40 >>= finish_ipv6 ip frame_length))

abbrev pub is_tag : ℕ → Bool
is_tag etype = etype == 33024 || etype == 34984 || etype == 37120

-- `for i := 0; i < 2; i++`: the type and the offset after the VLAN tags
unfoldable pub skip_tags : ℕ → Bytes → ℕ → ℕ → Option (Option Place)
skip_tags zero header etype offset = some (some (etype, offset))
skip_tags (suc i) header etype offset =
    if not (is_tag etype)
    then some (some (etype, offset))
    else if ltb (length header) (offset + 4)
    then some none
    else (uint16_at header (offset + 2) >>= λ etype'. skip_tags i header etype' (offset + 4))

unfoldable pub parse_payload : Bytes → ℕ → Option Place → Option (Option ParsedFlow)
parse_payload header frame_length none = some none
parse_payload header frame_length (some (etype, offset)) =
    if etype == ether_type_ipv4
    then (slice_from header offset >>= λ ip. parse_ipv4 ip frame_length)
    else if etype == ether_type_ipv6
    then (slice_from header offset >>= λ ip. parse_ipv6 ip frame_length)
    else some none

unfoldable pub parse_sampled_header : Bytes → ℕ → Option (Option ParsedFlow)
parse_sampled_header header frame_length =
    if ltb (length header) 14
    then some none
    else (uint16_at header 12 >>= λ etype.
        skip_tags 2 header etype 14 >>= parse_payload header frame_length)
