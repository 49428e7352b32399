-- ===== src/Sflow/Decoder/Records.antt =====
-- `DecodeDatagram` and `recordsFromFlowRecords`. A packet of the sFlow library is the data below,
-- where a value and a pointer to it are the same constructor; its decoder is a parameter.
use unifabric.Common.{
  List, [], ◌∷◌, ◌++◌, ℕ, Option, none, some, ◌||◌, ◌==◌, nat_eq, length, if◌then◌else◌, ℤ, pos,
}
use unifabric.Sflow.Types.{FlowRecord, EndpointAttribution}
use unifabric.Sflow.Decoder.Bytes.{Bytes, ◌>>=◌}
use unifabric.Sflow.Decoder.Headers.{
  ParsedFlow, ether_type_ipv4, ether_type_ipv6, clone_ip, parse_sampled_header,
}

-- sflowdecoder.SampledIPBase
pub record SampledIpBase : Type 0 where
  pub base_length : ℕ
  pub protocol : ℕ
  pub src_ip : Option Bytes
  pub dst_ip : Option Bytes
  pub src_port : ℕ
  pub dst_port : ℕ

-- the data of a sflowdecoder.FlowRecord
pub data RecordData : Type 0 where
  sampled_ipv4 sampled_ipv6 : SampledIpBase → RecordData
  sampled_header : Bytes → ℕ → RecordData
  extended_gateway : ℕ → ℕ → RecordData
  other_record : RecordData

pub data Sample : Type 0 where
  flow_sample expanded_flow_sample : ℕ → List RecordData → Sample
  other_sample : Sample

-- sflowdecoder.Packet
pub record Packet : Type 0 where
  pub agent_ip : Option Bytes
  pub packet_sequence_number : ℕ
  pub samples : List Sample

-- `len(ip)`
abbrev pub ip_length : Option Bytes → ℕ
ip_length none = 0
ip_length (some ip) = length ip

unfoldable pub parsed_from_sampled_ip : SampledIpBase → ℕ → ParsedFlow
parsed_from_sampled_ip base etype = record {
  flow_bytes = base.base_length;
  src_addr = base.src_ip;
  dst_addr = base.dst_ip;
  etype = etype;
  proto = base.protocol;
  src_port = base.src_port;
  dst_port = base.dst_port;
}

-- the variables of the first loop
pub record Collected : Type 0 where
  pub src_as : ℕ
  pub dst_as : ℕ
  pub parsed : List ParsedFlow

abbrev pub add_parsed : Collected → ParsedFlow → Collected
add_parsed c flow = record c { parsed = c.parsed ++ flow ∷ [] }

-- `if pf, ok := parseSampledHeader(…); ok`
abbrev pub add_found : Collected → Option ParsedFlow → Collected
add_found c none = c
add_found c (some flow) = add_parsed c flow

unfoldable pub collect_record : Collected → RecordData → Option Collected
collect_record c (sampled_ipv4 base) =
    some (add_parsed c (parsed_from_sampled_ip base ether_type_ipv4))
collect_record c (sampled_ipv6 base) =
    some (add_parsed c (parsed_from_sampled_ip base ether_type_ipv6))
collect_record c (sampled_header header frame_length) =
    parse_sampled_header header frame_length >>= λ found. some (add_found c found)
collect_record c (extended_gateway src_as dst_as) =
    some (record c { src_as = src_as; dst_as = dst_as })
collect_record c other_record = some c

unfoldable pub collect_records : Collected → List RecordData → Option Collected
collect_records c [] = some c
collect_records c (data_of_record ∷ flow_records) =
    collect_record c data_of_record >>= λ c'. collect_records c' flow_records

abbrev no_attribution : EndpointAttribution
no_attribution = record {
  pod_name = "";
  pod_namespace = "";
  node_name = "";
  top_owner_kind = "";
  top_owner_name = "";
  top_owner_namespace = "";
}

abbrev pub flow_type_sflow5 : ℤ
flow_type_sflow5 = pos 1

module _ (now sequence_num sampling_rate : ℕ) (sampler_ip : Option Bytes) where
  unfoldable pub row_of : ℕ → ℕ → ParsedFlow → FlowRecord Bytes
  row_of src_as dst_as flow = record {
    flow_type = flow_type_sflow5;
    time_received = now;
    sequence_num = sequence_num;
    sampling_rate = sampling_rate;
    sampler_address = clone_ip sampler_ip;
    time_flow_start = now;
    time_flow_end = now;
    flow_bytes = if flow.flow_bytes == 0 then 1 else flow.flow_bytes;
    packets = 1;
    src_addr = clone_ip flow.src_addr;
    dst_addr = clone_ip flow.dst_addr;
    src_as = src_as;
    dst_as = dst_as;
    etype = flow.etype;
    proto = flow.proto;
    src_port = flow.src_port;
    dst_port = flow.dst_port;
    src_attribution = no_attribution;
    dst_attribution = no_attribution;
  }

  -- the second loop
  unfoldable pub rows_of : ℕ → ℕ → List ParsedFlow → List (FlowRecord Bytes)
  rows_of src_as dst_as [] = []
  rows_of src_as dst_as (flow ∷ parsed) =
      let rest = rows_of src_as dst_as parsed in
      if ip_length flow.src_addr == 0 || ip_length flow.dst_addr == 0
      then rest
      else row_of src_as dst_as flow ∷ rest

  unfoldable pub records_from_flow_records : List RecordData → Option (List (FlowRecord Bytes))
  records_from_flow_records flow_records =
      collect_records (record { src_as = 0; dst_as = 0; parsed = [] }) flow_records >>= λ c.
      some (rows_of c.src_as c.dst_as c.parsed)

unfoldable pub sample_records : ℕ → ℕ → Option Bytes → Sample → Option (List (FlowRecord Bytes))
sample_records now sequence_num sampler_ip (flow_sample rate flow_records) =
    records_from_flow_records now sequence_num rate sampler_ip flow_records
sample_records now sequence_num sampler_ip (expanded_flow_sample rate flow_records) =
    records_from_flow_records now sequence_num rate sampler_ip flow_records
sample_records now sequence_num sampler_ip other_sample = some []

unfoldable pub all_records :
    ℕ → ℕ → Option Bytes → List (FlowRecord Bytes) → List Sample → Option (List (FlowRecord Bytes))
all_records now sequence_num sampler_ip flows [] = some flows
all_records now sequence_num sampler_ip flows (sample ∷ samples) =
    sample_records now sequence_num sampler_ip sample >>= λ more.
    all_records now sequence_num sampler_ip (flows ++ more) samples

-- the address of the agent, or of the sender where the packet has none; no sender is none
unfoldable pub sampler_address : Packet → Option (Option Bytes) → Option Bytes
sampler_address packet none = packet.agent_ip
sampler_address packet (some remote_ip) =
    if ip_length packet.agent_ip == 0 then remote_ip else packet.agent_ip

-- Decoder, whose clock is read once for each datagram; `Now` is nil where it is none
pub record Decoder : Type 0 where
  pub now : Option ℕ

abbrev pub time_of : Decoder → ℕ → ℕ
time_of d clock = elim d.now [ none ↦ clock | some now ↦ now ]

-- The inner none is the error of the sFlow library.
module _ (decode_message_version : Bytes → Option Packet) where
  unfoldable pub decode_datagram :
      Decoder → ℕ → Bytes → Option (Option Bytes) → Option (Option (List (FlowRecord Bytes)))
  decode_datagram d clock payload remote = elim (decode_message_version payload) [
    | none ↦ some none
    | some packet ↦
        all_records (time_of d clock) packet.packet_sequence_number (sampler_address packet remote)
          [] packet.samples
        >>= λ flows. some (some flows)
  ]
