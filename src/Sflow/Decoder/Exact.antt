-- ===== src/Sflow/Decoder/Exact.antt =====
-- Which rows `DecodeDatagram` returns.
use mathlib.Core.List.{append-nil, append_assoc}
use unifabric.Common.{
  List, [], ◌∷◌, ◌++◌, map, filter, ℕ, Option, some, nat_eq, ◌≡◌, refl, sym, ap, ◌∙◌,
}
use unifabric.Sflow.Types.{FlowRecord}
use unifabric.Sflow.Decoder.Bytes.{Bytes, ◌>>=◌}
use unifabric.Sflow.Decoder.Records.{
  RecordData, Sample, flow_sample, expanded_flow_sample, other_sample, Packet, Collected, row_of,
  rows_of, records_from_flow_records, sample_records, all_records, sampler_address, Decoder,
  time_of, decode_datagram,
}
use unifabric.Sflow.Decoder.Rows.{
  sample_flows, last_gateway, AllHaveBytes, collect_records-collected, has_both, rows_of-map,
}

-- A row for each record with a flow that has both addresses, in their order: with the AS numbers of
-- the last gateway record, wherever that stands.
abbrev pub record_rows : ℕ → ℕ → Option Bytes → ℕ → List RecordData → List (FlowRecord Bytes)
record_rows now seq ip rate flow_records =
    let known = last_gateway (0, 0) flow_records in
    map (row_of now seq rate ip (known.0) (known.1)) (filter has_both (sample_flows flow_records))

records_from_flow_records-record_rows :
    (now seq rate : ℕ) (ip : Option Bytes) (flow_records : List RecordData)
    → AllHaveBytes flow_records
    → records_from_flow_records now seq rate ip flow_records
      ≡ some (record_rows now seq ip rate flow_records)
unfolding records_from_flow_records
records_from_flow_records-record_rows now seq rate ip flow_records h =
    let start : Collected = record { src_as = 0; dst_as = 0; parsed = [] } in
    let known = last_gateway (0, 0) flow_records in
    ap (λ o. o >>= λ (c : Collected). some (rows_of now seq rate ip c.src_as c.dst_as c.parsed))
      (collect_records-collected flow_records start h)
    ∙ ap some (rows_of-map now seq rate ip (known.0) (known.1) (sample_flows flow_records))

abbrev pub SampleHasBytes : Sample → Type 0
SampleHasBytes (flow_sample rate flow_records) = AllHaveBytes flow_records
SampleHasBytes (expanded_flow_sample rate flow_records) = AllHaveBytes flow_records
SampleHasBytes other_sample = Unit

abbrev pub SamplesHaveBytes : List Sample → Type 0
SamplesHaveBytes [] = Unit
SamplesHaveBytes (x ∷ xs) = SampleHasBytes x × SamplesHaveBytes xs

abbrev pub sample_rows : ℕ → ℕ → Option Bytes → Sample → List (FlowRecord Bytes)
sample_rows now seq ip (flow_sample rate flow_records) = record_rows now seq ip rate flow_records
sample_rows now seq ip (expanded_flow_sample rate flow_records) =
    record_rows now seq ip rate flow_records
sample_rows now seq ip other_sample = []

-- the rows of the samples of a packet, one sample after the other
abbrev pub packet_rows : ℕ → ℕ → Option Bytes → List Sample → List (FlowRecord Bytes)
packet_rows now seq ip [] = []
packet_rows now seq ip (sample ∷ samples) =
    sample_rows now seq ip sample ++ packet_rows now seq ip samples

sample_records-sample_rows :
    (now seq : ℕ) (ip : Option Bytes) (sample : Sample)
    → SampleHasBytes sample
    → sample_records now seq ip sample ≡ some (sample_rows now seq ip sample)
unfolding sample_records
sample_records-sample_rows now seq ip (flow_sample rate flow_records) h =
    records_from_flow_records-record_rows now seq rate ip flow_records h
sample_records-sample_rows now seq ip (expanded_flow_sample rate flow_records) h =
    records_from_flow_records-record_rows now seq rate ip flow_records h
sample_records-sample_rows now seq ip other_sample h = refl

all_records-packet_rows :
    (now seq : ℕ) (ip : Option Bytes) (samples : List Sample) (flows : List (FlowRecord Bytes))
    → SamplesHaveBytes samples
    → all_records now seq ip flows samples ≡ some (flows ++ packet_rows now seq ip samples)
unfolding all_records
all_records-packet_rows now seq ip [] flows h = ap some (sym (append-nil flows))
all_records-packet_rows now seq ip (x ∷ xs) flows h =
    ap (λ o. o >>= λ more. all_records now seq ip (flows ++ more) xs)
      (sample_records-sample_rows now seq ip x h.0)
    ∙ all_records-packet_rows now seq ip xs (flows ++ sample_rows now seq ip x) h.1
    ∙ ap some (append_assoc flows (sample_rows now seq ip x) (packet_rows now seq ip xs))

-- On a payload that the sFlow library decodes, into a packet whose sampled headers are bytes,
-- DecodeDatagram neither panics nor returns an error. Its rows are exactly these, in the order of the
-- samples of the packet and of their records: one for each record that holds sampled addresses or a
-- header that parseSampledHeader accepts, where neither address is empty, with the AS numbers of the
-- last gateway record of the sample, wherever that stands, the sampling rate of the sample, and the
-- time, the sequence number and the sampler of the packet.
pub decode_datagram_exact :
    (decode_message_version : Bytes → Option Packet) (d : Decoder) (clock : ℕ) (payload : Bytes)
    (remote : Option (Option Bytes)) (packet : Packet)
    → decode_message_version payload ≡ some packet
    → SamplesHaveBytes packet.samples
    → decode_datagram decode_message_version d clock payload remote
      ≡ some (
          some (
            packet_rows
              (time_of d clock)
              packet.packet_sequence_number
              (sampler_address packet remote)
              packet.samples))
unfolding decode_datagram
decode_datagram_exact decode_message_version d clock payload remote packet e h =
    let now = time_of d clock in
    let seq = packet.packet_sequence_number in
    let ip = sampler_address packet remote in
    rw (e, decode_datagram)
      (ap (λ o. o >>= λ flows. some (some flows))
        (all_records-packet_rows now seq ip packet.samples [] h))
