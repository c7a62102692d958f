-- ===== src/Decoder/FlowSamples.antt =====
-- internal/decoder/sflow5.go: the flow samples of a datagram, each of which yields a record at most. A
-- read outside a slice is a panic, `none`.
pub mod Choosing
pub mod Reading
use xflow_exporter.Common.{
  ℕ, zero, suc, ◌+◌, ◌*◌, ◌/◌, ◌%◌, ◌^◌, Bool, true, false, not, ◌&&◌, ◌||◌, Option, none, some,
  List, [], ◌∷◌, ◌++◌, map, if◌then◌else◌, nat_eqb, length, take, drop, lookup, insert,
}
use xflow_exporter.Common.Bytes.{◌>>=◌}
use xflow_exporter.Flow.{Addr, Record, zero_record, sflow_v5, Direction, Time}
use xflow_exporter.Decoder.Reason.{
  Reason, Result, ok, err, malformed, domain_limit, unsupported_header_protocol,
}
use xflow_exporter.Decoder.Domain.{DomainKey, domain_key_eq}
use xflow_exporter.Decoder.Samplers.{track_sampler}
use xflow_exporter.Decoder.Store.{Store, domain}
use xflow_exporter.Decoder.State.{DecoderState, issue}
use xflow_exporter.Decoder.Fields.{or_zero}
use xflow_exporter.Decoder.Netflow9.{track_packet}
use xflow_exporter.Decoder.ByteReader.{
  ByteReader, new_byte_reader, read_word, take_bytes, skip_bytes,
}
use xflow_exporter.Decoder.SampledPackets.{
  if_value_mask, sflow_if_index, sflow_direction, raw_packet_header, packet_record_kind,
  header_protocol, read_raw_header, read_sampled_ipv4, read_sampled_ipv6,
}

-- What a flow sample states of itself.
pub record SampleHead : Type 0 where
  pub sequence : ℕ
  pub source : ℕ
  pub sampling_rate : ℕ
  pub pool : ℕ
  pub drops : ℕ
  pub input_if : ℕ
  pub output_if : ℕ

abbrev pub word_or_zero : ByteReader → ℕ × ByteReader
word_or_zero r = let (v, r') = read_word r in (or_zero v, r')

-- The source of a sample, a type over an index.
unfoldable pub read_source : Bool → ByteReader → ℕ × ByteReader
read_source true r =
    let (kind, r1) = word_or_zero r in
    let (index, r2) = word_or_zero r1 in (kind * 2 ^ 32 + index, r2)
read_source false r =
    let (packed, r1) = word_or_zero r in (packed / 2 ^ 24 * 2 ^ 32 + packed % 2 ^ 24, r1)

-- The two interfaces of a sample.
unfoldable pub read_interfaces : Bool → ByteReader → (ℕ × ℕ) × ByteReader
read_interfaces true r =
    let (in_format, r1) = word_or_zero r in
    let (in_value, r2) = word_or_zero r1 in
    let (out_format, r3) = word_or_zero r2 in
    let (out_value, r4) = word_or_zero r3 in
    ((sflow_if_index in_format in_value, sflow_if_index out_format out_value), r4)
read_interfaces false r =
    let (input, r1) = word_or_zero r in
    let (output, r2) = word_or_zero r1 in
    (
      (
        sflow_if_index (input / 2 ^ 30) (input % 2 ^ 30),
        sflow_if_index (output / 2 ^ 30) (output % 2 ^ 30),
      ),
      r2,
    )

-- The head of a sample, in its compact or its expanded form.
unfoldable pub read_sample_head : Bool → ByteReader → SampleHead × ByteReader
read_sample_head expanded r =
    let (sequence, r1) = word_or_zero r in
    let (source, r2) = read_source expanded r1 in
    let (sampling_rate, r3) = word_or_zero r2 in
    let (pool, r4) = word_or_zero r3 in
    let (drops, r5) = word_or_zero r4 in
    let ((input_if, output_if), r6) = read_interfaces expanded r5 in
    (
      record {
        sequence = sequence;
        source = source;
        sampling_rate = sampling_rate;
        pool = pool;
        drops = drops;
        input_if = input_if;
        output_if = output_if;
      },
      r6,
    )

-- The record that describes the packet so far, with its kind.
abbrev pub Chosen : Type 0
Chosen = Option (ℕ × List ℕ)

-- A raw header wins over a pre-parsed record, and the first of a kind over the next.
unfoldable pub choose : Option ℕ → List ℕ → Chosen → Chosen
choose none bytes chosen = chosen
choose (some kind) bytes none = some (kind, bytes)
choose (some kind) bytes (some (chosen_kind, chosen)) =
    if nat_eqb kind raw_packet_header && not (nat_eqb chosen_kind raw_packet_header)
    then some (kind, bytes)
    else some (chosen_kind, chosen)

-- A type and a length, and the body of that length.
unfoldable pub read_body : ByteReader → Option (ℕ × List ℕ) × ByteReader
read_body r =
    let (kind, r1) = read_word r in
    let (size, r2) = read_word r1 in
    elim kind [
      | none ↦ (none, r2)
      | some kind' ↦ elim size [
        | none ↦ (none, r2)
        | some n ↦
            let (body, r3) = take_bytes n r2 in
            elim body [ none ↦ (none, r3) | some bytes ↦ (some (kind', bytes), r3) ]
      ]
    ]

-- The loop over the records of one sample; `none` where one of them does not fit.
unfoldable pub choose_record : ℕ → ByteReader → Chosen → Option Chosen
choose_record zero r chosen = some chosen
choose_record (suc n) r chosen =
    let (body, r') = read_body r in
    elim body [
      | none ↦ none
      | some (kind, bytes) ↦ choose_record n r' (choose (packet_record_kind kind) bytes chosen)
    ]

abbrev pub opened_sample : Addr → SampleHead → Record
opened_sample exporter head = record zero_record {
  exporter = exporter;
  version = sflow_v5;
  flows = 1;
  packets = 1;
  bytes_reported = true;
  packets_reported = true;
  sampling_rate = head.sampling_rate;
  input_if = head.input_if;
  output_if = head.output_if;
  direction = sflow_direction head.source head.input_if head.output_if;
}

abbrev pub parsed_or_malformed : Option Record → Result Record
parsed_or_malformed none = err malformed
parsed_or_malformed (some parsed) = ok parsed

-- The raw header of a link layer that is walked.
unfoldable pub read_layer : Option ℕ → List ℕ → Record → Option (Result Record)
read_layer none bytes r = some (err malformed)
read_layer (some protocol) bytes r =
    if nat_eqb protocol 1 || nat_eqb protocol 11 || nat_eqb protocol 12
    then (read_raw_header bytes r >>= λ parsed. some (parsed_or_malformed parsed))
    else some (err unsupported_header_protocol)

-- The record that the chosen one is read into, or the reason why it is not. The kinds are the three
-- that `sflowPacketRecordKind` answers.
unfoldable pub read_chosen : ℕ → List ℕ → Record → Option (Result Record)
read_chosen kind bytes r =
    if nat_eqb kind raw_packet_header
    then read_layer (header_protocol bytes) bytes r
    else if nat_eqb kind 3
    then some (parsed_or_malformed (read_sampled_ipv4 bytes r))
    else some (parsed_or_malformed (read_sampled_ipv6 bytes r))

-- What a sample adds: a record, or an error that is counted.
abbrev pub appended : Addr → List Record → Result Record → DecoderState → List Record × DecoderState
appended exporter dst (ok r) s = (dst ++ (r ∷ []), s)
appended exporter dst (err reason) s = (dst, issue sflow_v5 exporter reason s)

-- `appendSFlowRecord`
unfoldable pub append_sflow_record :
    Addr → SampleHead → Chosen → List Record → DecoderState → Option (List Record × DecoderState)
append_sflow_record exporter head none dst s = some (dst, s)
append_sflow_record exporter head (some (kind, bytes)) dst s =
    read_chosen kind bytes (opened_sample exporter head) >>= λ parsed.
    some (appended exporter dst parsed s)

-- `d.templates.trackSamplerLocked(domain, …)`
unfoldable pub track_sample : DomainKey → SampleHead → Store → Store
track_sample key head s = elim (lookup key s.domains) [
  | none ↦ s
  | some d ↦
      let (d', refused) =
        track_sampler d s.ttl s.samplers_refused head.source head.sequence head.sampling_rate
          head.pool head.drops d.last_seen in
      record s { domains = insert key d' s.domains; samplers_refused = refused }
]

-- `decodeSFlowFlowSample` from the records on.
unfoldable pub sample_records :
    DomainKey
    → SampleHead
    → ℕ
    → ByteReader
    → List Record
    → DecoderState
    → Option (List Record × DecoderState)
sample_records key head n r dst s = elim (choose_record n r none) [
  | none ↦ some (dst, issue sflow_v5 key.exporter malformed s)
  | some chosen ↦ append_sflow_record key.exporter head chosen dst s
]

-- `decodeSFlowFlowSample`
unfoldable pub decode_flow_sample :
    DomainKey → List ℕ → Bool → List Record → DecoderState → Option (List Record × DecoderState)
decode_flow_sample key sample expanded dst s =
    let (head, r) = read_sample_head expanded (new_byte_reader sample) in
    let (records, r') = read_word r in
    elim records [
      | none ↦ some (dst, issue sflow_v5 key.exporter malformed s)
      | some n ↦
          sample_records key head n r' dst
            (record s { templates = track_sample key head s.templates })
    ]

-- `decodeSFlowSample`
unfoldable pub decode_sflow_sample :
    DomainKey → ℕ → List ℕ → List Record → DecoderState → Option (List Record × DecoderState)
decode_sflow_sample key sample_type sample dst s =
    let format = sample_type % 2 ^ 12 in
    if not (nat_eqb (sample_type / 2 ^ 12) 0)
    then some (dst, s)
    else if nat_eqb format 1
    then decode_flow_sample key sample false dst s
    else if nat_eqb format 3
    then decode_flow_sample key sample true dst s
    else some (dst, s)
