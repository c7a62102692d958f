-- ===== src/Decoder/Netflow8.antt =====
-- internal/decoder/netflow8.go: the parser of NetFlow v8. A read outside a slice is a panic, `none`.
pub mod Schemes
pub mod Outcome
use xflow_exporter.Common.{
  ℕ, zero, suc, ◌+◌, ◌*◌, Bool, true, false, ◌||◌, Option, none, some, List, [], ◌∷◌, ◌++◌, not,
  if◌then◌else◌, ltb, nat_eqb, nat_eq, length, Map, lookup,
}
use xflow_exporter.Common.Bytes.{u8_at, be16_at, be32_at, slice_from, ◌>>=◌}
use xflow_exporter.Flow.{Addr, Record, zero_record, netflow_v8, Time, unix}
use xflow_exporter.Decoder.Reason.{Result, ok, err, malformed, unsupported_aggregation}
use xflow_exporter.Decoder.Clock.{ExportClock, anchor_pair}
use xflow_exporter.Decoder.Domain.{DomainKey}
use xflow_exporter.Decoder.Store.{Store, domain}
use xflow_exporter.Decoder.Accounting.{link, write_back}
use xflow_exporter.Decoder.Netflow5.{tracked}
use xflow_exporter.Decoder.AggregatedRecords.{
  read_v8_as, read_v8_proto_port, read_v8_src_prefix, read_v8_dst_prefix, read_v8_prefix,
  read_v8_dest_only, read_v8_src_dst, read_v8_full_flow, read_v8_tos_as, read_v8_tos_proto_port,
  read_v8_tos_src_prefix, read_v8_tos_dst_prefix, read_v8_tos_prefix, read_v8_prefix_port,
}

abbrev pub netflow_v8_header_len : ℕ
netflow_v8_header_len = 28

abbrev pub netflow_v8_agg_version : ℕ
netflow_v8_agg_version = 2

-- `65535 / 28`
abbrev pub netflow_v8_max_count : ℕ
netflow_v8_max_count = 2340

-- `netflowV8Scheme`
pub record Scheme : Type 0 where
  pub record_len : ℕ
  pub read : List ℕ → Record → Option Record

-- `netflowV8Schemes`
abbrev pub netflow_v8_schemes : Map ℕ Scheme
netflow_v8_schemes =
    (1, record { record_len = 28; read = read_v8_as })
    ∷ (2, record { record_len = 28; read = read_v8_proto_port })
    ∷ (3, record { record_len = 32; read = read_v8_src_prefix })
    ∷ (4, record { record_len = 32; read = read_v8_dst_prefix })
    ∷ (5, record { record_len = 40; read = read_v8_prefix })
    ∷ (6, record { record_len = 32; read = read_v8_dest_only })
    ∷ (7, record { record_len = 40; read = read_v8_src_dst })
    ∷ (8, record { record_len = 44; read = read_v8_full_flow })
    ∷ (9, record { record_len = 32; read = read_v8_tos_as })
    ∷ (10, record { record_len = 32; read = read_v8_tos_proto_port })
    ∷ (11, record { record_len = 32; read = read_v8_tos_src_prefix })
    ∷ (12, record { record_len = 32; read = read_v8_tos_dst_prefix })
    ∷ (13, record { record_len = 40; read = read_v8_tos_prefix })
    ∷ (14, record { record_len = 40; read = read_v8_prefix_port })
    ∷ []

-- The offsets of `anchorV8Times`
unfoldable pub first_offset : ℕ → ℕ
first_offset method = if nat_eqb method 7 then 16 else if nat_eqb method 8 then 20 else 12

-- `anchorV8Times`, which counts no inversion
unfoldable pub anchor_v8_times : List ℕ → Record → ExportClock → ℕ → Option Record
anchor_v8_times bytes r clock method = do
  first ← be32_at bytes (first_offset method)
  last ← be32_at bytes (first_offset method + 4)
  let (start, end, shown) = anchor_pair clock first last
  some (record r { start = start; end = end })

abbrev pub opened_v8 : Addr → ℕ → Record
opened_v8 exporter method = record zero_record {
  exporter = exporter;
  version = netflow_v8;
  odid = method;
}

-- The loop over the records from an offset on.
unfoldable pub netflow_v8_records :
    Addr → ℕ → Scheme → List ℕ → ExportClock → ℕ → ℕ → List Record → Option (List Record)
netflow_v8_records exporter method scheme payload clock offset zero dst = some dst
netflow_v8_records exporter method scheme payload clock offset (suc n) dst =
    slice_from payload offset >>= λ bytes. scheme.read bytes (opened_v8 exporter method) >>= λ r.
    anchor_v8_times bytes r clock method >>= λ r'.
    netflow_v8_records exporter method scheme payload clock (offset + scheme.record_len) n
      (dst ++ (r' ∷ []))

-- What `decodeNetFlowV8` does once the datagram holds its records.
unfoldable pub netflow_v8_body :
    Addr
    → ℕ
    → List ℕ
    → ℕ
    → Scheme
    → ℕ
    → List Record
    → Time
    → Store
    → Option (Result (List Record) × Store)
netflow_v8_body exporter port payload method scheme count dst now s = do
  let key : DomainKey = record { exporter = exporter; odid = method; proto = netflow_v8 }
  let (s', granted) = domain key now s
  seq ← be32_at payload 16
  engine ← be16_at payload 20
  let here = if granted then tracked (link key s') port seq count engine else none
  uptime ← be32_at payload 4
  secs ← be32_at payload 8
  nanos ← be32_at payload 12
  let clock : ExportClock = record { at = unix secs nanos; uptime_ms = uptime; has_uptime = true }
  records ← netflow_v8_records exporter method scheme payload clock netflow_v8_header_len count dst
  some (ok records, write_back key here s')

-- `decodeNetFlowV8` from the record count on.
unfoldable pub netflow_v8_counted :
    Addr
    → ℕ
    → List ℕ
    → ℕ
    → Scheme
    → ℕ
    → List Record
    → Time
    → Store
    → Option (Result (List Record) × Store)
netflow_v8_counted exporter port payload method scheme count dst now s =
    if ltb count 1 || ltb netflow_v8_max_count count
    then some (err malformed, s)
    else if ltb (length payload) (netflow_v8_header_len + count * scheme.record_len)
    then some (err malformed, s)
    else netflow_v8_body exporter port payload method scheme count dst now s

-- `decodeNetFlowV8`; the `dst` it returns with an error is the one it got.
unfoldable pub decode_netflow_v8 :
    Addr → ℕ → List ℕ → List Record → Time → Store → Option (Result (List Record) × Store)
decode_netflow_v8 exporter port payload dst now s =
    if ltb (length payload) netflow_v8_header_len
    then some (err malformed, s)
    else u8_at payload 22 >>= λ method. u8_at payload 23 >>= λ agg_version.
        if not (nat_eqb agg_version netflow_v8_agg_version)
        then some (err malformed, s)
        else (elim (lookup method netflow_v8_schemes) [
          | none ↦ some (err unsupported_aggregation, s)
          | some scheme ↦ be16_at payload 2 >>= λ count.
              netflow_v8_counted exporter port payload method scheme count dst now s
        ])
