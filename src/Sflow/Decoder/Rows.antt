-- ===== src/Sflow/Decoder/Rows.antt =====
-- The two loops of `recordsFromFlowRecords`: which flows are collected, and which become rows.
use mathlib.Core.List.{append-nil, append_assoc}
use unifabric.Common.{
  List, [], ◌∷◌, ◌++◌, map, filter, ℕ, Bool, not, ◌&&◌, Option, none, some, ◌==◌, nat_eq,
  Bool-cases, ◌≡◌, refl, sym, ap, ◌∙◌, inl, inr,
}
use unifabric.Sflow.Decoder.Bytes.{Bytes, AreBytes, ◌>>=◌}
use unifabric.Sflow.Decoder.Headers.{
  ParsedFlow, ether_type_ipv4, ether_type_ipv6, parse_sampled_header,
}
use unifabric.Sflow.Decoder.Bounds.{IsParsed}
use unifabric.Sflow.Decoder.Bounds.Frame.{parse_sampled_header_in}
use unifabric.Sflow.Decoder.Records.{
  RecordData, sampled_ipv4, sampled_ipv6, sampled_header, extended_gateway, other_record, ip_length,
  parsed_from_sampled_ip, Collected, add_found, collect_record, collect_records, row_of, rows_of,
}

-- the flows that a parsed header gives: one, or none where it is not accepted
abbrev pub found_flows : Option (Option ParsedFlow) → List ParsedFlow
found_flows none = []
found_flows (some none) = []
found_flows (some (some flow)) = flow ∷ []

-- the flows that one record of a sample stands for, one at most
abbrev pub flows_of : RecordData → List ParsedFlow
flows_of (sampled_ipv4 base) = parsed_from_sampled_ip base ether_type_ipv4 ∷ []
flows_of (sampled_ipv6 base) = parsed_from_sampled_ip base ether_type_ipv6 ∷ []
flows_of (sampled_header header frame_length) =
    found_flows (parse_sampled_header header frame_length)
flows_of (extended_gateway src_as dst_as) = []
flows_of other_record = []

abbrev pub sample_flows : List RecordData → List ParsedFlow
sample_flows [] = []
sample_flows (x ∷ flow_records) = flows_of x ++ sample_flows flow_records

-- the AS numbers of the last gateway record
abbrev pub last_gateway : ℕ × ℕ → List RecordData → ℕ × ℕ
last_gateway known [] = known
last_gateway known (extended_gateway src_as dst_as ∷ flow_records) =
    last_gateway (src_as, dst_as) flow_records
last_gateway known (sampled_ipv4 base ∷ flow_records) = last_gateway known flow_records
last_gateway known (sampled_ipv6 base ∷ flow_records) = last_gateway known flow_records
last_gateway known (sampled_header header n ∷ flow_records) = last_gateway known flow_records
last_gateway known (other_record ∷ flow_records) = last_gateway known flow_records

abbrev pub HasBytes : RecordData → Type 0
HasBytes (sampled_header header n) = AreBytes header
HasBytes (sampled_ipv4 base) = Unit
HasBytes (sampled_ipv6 base) = Unit
HasBytes (extended_gateway src_as dst_as) = Unit
HasBytes other_record = Unit

abbrev pub AllHaveBytes : List RecordData → Type 0
AllHaveBytes [] = Unit
AllHaveBytes (x ∷ xs) = HasBytes x × AllHaveBytes xs

-- `c` with further flows and other AS numbers
abbrev pub collected : Collected → ℕ × ℕ → List ParsedFlow → Collected
collected c known flows = record { src_as = known.0; dst_as = known.1; parsed = c.parsed ++ flows }

collect_record-collected :
    (c : Collected) (x : RecordData)
    → HasBytes x
    → collect_record c x
      ≡ some (collected c (last_gateway (c.src_as, c.dst_as) (x ∷ [])) (flows_of x))
unfolding collect_record
collect_record-collected c (sampled_ipv4 base) h = refl
collect_record-collected c (sampled_ipv6 base) h = refl
collect_record-collected c (sampled_header header n) h =
    found (parse_sampled_header header n) (parse_sampled_header_in header n h)
  where
    found :
        (o : Option (Option ParsedFlow))
        → IsParsed n o
        → (o >>= λ f. some (add_found c f))
          ≡ some (collected c (c.src_as, c.dst_as) (found_flows o))
    found none k = absurd k
    found (some none) k =
        ap (λ fs. some (record { src_as = c.src_as; dst_as = c.dst_as; parsed = fs }))
          (sym (append-nil c.parsed))
    found (some (some a)) k = refl
collect_record-collected c (extended_gateway s d) h =
    ap (λ fs. some (record { src_as = s; dst_as = d; parsed = fs })) (sym (append-nil c.parsed))
collect_record-collected c other_record h =
    ap (λ fs. some (record { src_as = c.src_as; dst_as = c.dst_as; parsed = fs }))
      (sym (append-nil c.parsed))

last_gateway_step :
    (known : ℕ × ℕ) (x : RecordData) (xs : List RecordData)
    → last_gateway (last_gateway known (x ∷ [])) xs ≡ last_gateway known (x ∷ xs)
last_gateway_step known (sampled_ipv4 base) xs = refl
last_gateway_step known (sampled_ipv6 base) xs = refl
last_gateway_step known (sampled_header header n) xs = refl
last_gateway_step known (extended_gateway s d) xs = refl
last_gateway_step known other_record xs = refl

-- The first loop collects the flows of the records in their order.
pub collect_records-collected :
    (xs : List RecordData) (c : Collected)
    → AllHaveBytes xs
    → collect_records c xs
      ≡ some (collected c (last_gateway (c.src_as, c.dst_as) xs) (sample_flows xs))
unfolding collect_records
collect_records-collected [] c h =
    ap (λ fs. some (record { src_as = c.src_as; dst_as = c.dst_as; parsed = fs }))
      (sym (append-nil c.parsed))
collect_records-collected (x ∷ xs) c h =
    let known = last_gateway (c.src_as, c.dst_as) (x ∷ []) in
    rw (collect_record-collected c x h.0) (
      collect_records-collected xs (collected c known (flows_of x)) h.1
      ∙ ap (λ fs. some (collected (record c { parsed = [] }) (last_gateway known xs) fs))
          (append_assoc c.parsed (flows_of x) (sample_flows xs))
      ∙ ap (λ k. some (collected c k (flows_of x ++ sample_flows xs)))
          (last_gateway_step (c.src_as, c.dst_as) x xs))

-- Both addresses are there.
abbrev pub has_both : ParsedFlow → Bool
has_both flow = not (ip_length flow.src_addr == 0) && not (ip_length flow.dst_addr == 0)

-- The second loop leaves out the flows without an address.
pub rows_of-map :
    (now seq rate : ℕ) (ip : Option Bytes) (s d : ℕ) (parsed : List ParsedFlow)
    → rows_of now seq rate ip s d parsed ≡ map (row_of now seq rate ip s d) (filter has_both parsed)
unfolding rows_of filter
rows_of-map now seq rate ip s d [] = refl
rows_of-map now seq rate ip s d (flow ∷ parsed) =
    let rest = rows_of-map now seq rate ip s d parsed in
    elim (Bool-cases (ip_length flow.src_addr == 0)) [
      | inl a ↦ rw a rest
      | inr a ↦ elim (Bool-cases (ip_length flow.dst_addr == 0)) [
        | inl b ↦ rw (a, b) rest
        | inr b ↦ rw (a, b) (ap (λ rs. row_of now seq rate ip s d flow ∷ rs) rest)
      ]
    ]
