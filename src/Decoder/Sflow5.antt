-- ===== src/Decoder/Sflow5.antt =====
-- internal/decoder/sflow5.go: the parser of sFlow v5. A read outside a slice is a panic, `none`. What
-- `decodeSFlowV5` returns beside an error is not modelled: `Decode` drops it.
pub mod Stamping
pub mod Total
use xflow_exporter.Common.{
  ℕ, zero, suc, ◌+◌, ◌*◌, ◌/◌, ◌%◌, ◌^◌, Bool, true, false, not, ◌&&◌, ◌||◌, Option, none, some,
  List, [], ◌∷◌, ◌++◌, map, if◌then◌else◌, nat_eqb, length, take, drop, lookup, insert,
}
use xflow_exporter.Common.Bytes.{◌>>=◌}
use xflow_exporter.Flow.{Addr, Record, zero_record, sflow_v5, Direction, Time}
use xflow_exporter.Decoder.Reason.{
  Reason, Result, ok, err, malformed, domain_limit, unsupported_header_protocol,
}
use xflow_exporter.Decoder.Domain.{DomainKey, domain_key_eq}
use xflow_exporter.Decoder.Samplers.{track_sampler}
use xflow_exporter.Decoder.Store.{Store, domain}
use xflow_exporter.Decoder.State.{DecoderState, issue}
use xflow_exporter.Decoder.Fields.{or_zero}
use xflow_exporter.Decoder.Netflow9.{track_packet}
use xflow_exporter.Decoder.ByteReader.{
  ByteReader, new_byte_reader, read_word, take_bytes, skip_bytes,
}
use xflow_exporter.Decoder.SampledPackets.{
  if_value_mask, sflow_if_index, sflow_direction, raw_packet_header, packet_record_kind,
  header_protocol, read_raw_header, read_sampled_ipv4, read_sampled_ipv6,
}
use xflow_exporter.Decoder.FlowSamples.{word_or_zero, read_body, decode_sflow_sample}

-- The loop over the samples of a datagram.
unfoldable pub sflow_samples :
    ℕ
    → DomainKey
    → ByteReader
    → List Record
    → DecoderState
    → Option (Result (List Record) × DecoderState)
sflow_samples zero key r dst s = some (ok dst, s)
sflow_samples (suc n) key r dst s =
    let (body, r') = read_body r in
    elim body [
      | none ↦ some (err malformed, s)
      | some (sample_type, sample) ↦
          decode_sflow_sample key sample_type sample dst s >>= λ p. sflow_samples n key r' p.0 p.1
    ]

abbrev pub with_odid : ℕ → Record → Record
with_odid odid r = record r { odid = odid }

-- The loop that stamps what a datagram appended with its sub-agent.
abbrev pub stamped_from : ℕ → ℕ → Result (List Record) → Result (List Record)
stamped_from before odid (err reason) = err reason
stamped_from before odid (ok records) =
    ok (take before records ++ map (with_odid odid) (drop before records))

-- `decodeSFlowV5` behind the agent's address.
unfoldable pub sflow_body :
    Addr
    → ℕ
    → ByteReader
    → List Record
    → Time
    → DecoderState
    → Option (Result (List Record) × DecoderState)
sflow_body exporter port r dst at s =
    let (sub_agent, r1) = word_or_zero r in
    let (sequence, r2) = word_or_zero r1 in
    let (samples, r3) = read_word (skip_bytes 4 r2) in
    let key : DomainKey = record { exporter = exporter; odid = sub_agent; proto = sflow_v5 } in
    elim samples [
      | none ↦ some (err malformed, s)
      | some n ↦
          let (store, granted) = domain key at s.templates in
          if granted
          then (sflow_samples n key r3 dst
                (record s { templates = track_packet key port sequence store })
              >>= λ p. some (stamped_from (length dst) sub_agent p.0, p.1))
          else some (ok dst, issue sflow_v5 exporter domain_limit (record s { templates = store }))
    ]

-- `decodeSFlowV5`
unfoldable pub decode_sflow_v5 :
    Addr
    → ℕ
    → List ℕ
    → List Record
    → Time
    → DecoderState
    → Option (Result (List Record) × DecoderState)
decode_sflow_v5 exporter port payload dst at s =
    let (addr_type, r) = word_or_zero (skip_bytes 4 (new_byte_reader payload)) in
    if nat_eqb addr_type 1
    then sflow_body exporter port (skip_bytes 4 r) dst at s
    else if nat_eqb addr_type 2
    then sflow_body exporter port (skip_bytes 16 r) dst at s
    else some (err malformed, s)
