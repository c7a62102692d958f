-- ===== src/Decoder/Netflow5.antt =====
-- internal/decoder/netflow5.go: the parser of NetFlow v5. A read outside a slice is a panic, `none`.
pub mod Outcome
pub mod Wire
use xflow_exporter.Common.{
  ℕ, zero, suc, ◌+◌, ◌*◌, ◌%◌, ◌^◌, Bool, true, false, not, ◌||◌, Option, none, some, List, [], ◌∷◌,
  ◌++◌, if◌then◌else◌, ltb, nat_eqb, length,
}
use xflow_exporter.Common.Bytes.{u8_at, be16_at, be32_at, slice_from, ◌>>=◌}
use xflow_exporter.Flow.{Addr, v4, Record, zero_record, netflow_v5, Time, unix}
use xflow_exporter.Decoder.Reason.{Result, ok, err, malformed}
use xflow_exporter.Decoder.Clock.{ExportClock, anchor_pair}
use xflow_exporter.Decoder.Domain.{DomainKey}
use xflow_exporter.Decoder.Sequence.{track_record_sequence}
use xflow_exporter.Decoder.Store.{Store, domain}
use xflow_exporter.Decoder.Accounting.{
  Link, link, write_back, count_clock_pair, netflow_v5_sampler_rate,
}

abbrev pub netflow_v5_header_len : ℕ
netflow_v5_header_len = 24

abbrev pub netflow_v5_record_len : ℕ
netflow_v5_record_len = 48

abbrev pub netflow_v5_max_count : ℕ
netflow_v5_max_count = 30

-- `& 0x3FFF` keeps the low 14 bits.
abbrev pub netflow_v5_sampling : ℕ → ℕ
netflow_v5_sampling field = field % 2 ^ 14

-- The record's own rate where the header's is zero.
abbrev pub rate_for : Link → ℕ → ℕ → Link × ℕ
rate_for here header_rate sampler_id =
    if nat_eqb header_rate 0 then netflow_v5_sampler_rate here sampler_id else (here, header_rate)

-- `netflowV5Record`
unfoldable pub netflow_v5_record : Addr → List ℕ → ExportClock → ℕ → Link → Option (Record × Link)
netflow_v5_record exporter r clock header_rate here = do
  first ← be32_at r 24
  last ← be32_at r 28
  let (start, end, shown) = anchor_pair clock first last
  let counted = count_clock_pair (not shown) here
  sampler_id ← be16_at r 46
  let (here', rate) = rate_for counted header_rate sampler_id
  src_addr ← be32_at r 0
  dst_addr ← be32_at r 4
  src_port ← be16_at r 32
  dst_port ← be16_at r 34
  protocol ← u8_at r 38
  tos ← u8_at r 39
  tcp_flags ← u8_at r 37
  input_if ← be16_at r 12
  output_if ← be16_at r 14
  packets ← be32_at r 16
  bytes ← be32_at r 20
  src_as ← be16_at r 40
  dst_as ← be16_at r 42
  src_mask ← u8_at r 44
  dst_mask ← u8_at r 45
  some (
    record zero_record {
      exporter = exporter;
      version = netflow_v5;
      src_addr = v4 src_addr;
      dst_addr = v4 dst_addr;
      src_port = src_port;
      dst_port = dst_port;
      protocol = protocol;
      tos = tos;
      tos_reported = true;
      tcp_flags = tcp_flags;
      tcp_flags_reported = true;
      input_if = input_if;
      output_if = output_if;
      packets = packets;
      bytes = bytes;
      bytes_reported = true;
      packets_reported = true;
      flows = 1;
      src_as = src_as;
      dst_as = dst_as;
      src_mask = src_mask;
      dst_mask = dst_mask;
      start = start;
      end = end;
      sampling_rate = rate;
    },
    here',
  )

-- The loop over the records from the offset on: what was appended, and the domain.
unfoldable pub netflow_v5_records :
    Addr → List ℕ → ExportClock → ℕ → ℕ → ℕ → List Record → Link → Option (List Record × Link)
netflow_v5_records exporter payload clock rate offset zero dst here = some (dst, here)
netflow_v5_records exporter payload clock rate offset (suc n) dst here =
    slice_from payload offset >>= λ r. netflow_v5_record exporter r clock rate here >>= λ p.
    netflow_v5_records exporter payload clock rate (offset + netflow_v5_record_len) n
      (dst ++ (p.0 ∷ [])) p.1

-- The domain tracked by one datagram.
abbrev pub tracked : Link → ℕ → ℕ → ℕ → ℕ → Link
tracked none port seq count engine = none
tracked (some (d, t)) port seq count engine =
    some (track_record_sequence d port seq count engine true, t)

abbrev pub netflow_v5_key : Addr → DomainKey
netflow_v5_key exporter = record { exporter = exporter; odid = 0; proto = netflow_v5 }

-- What `decodeNetFlowV5` does once the datagram holds its records.
unfoldable pub netflow_v5_body :
    Addr → ℕ → List ℕ → ℕ → List Record → Time → Store → Option (Result (List Record) × Store)
netflow_v5_body exporter port payload count dst now s = do
  let s' = (domain (netflow_v5_key exporter) now s).0
  seq ← be32_at payload 16
  engine ← be16_at payload 20
  let here = tracked (link (netflow_v5_key exporter) s') port seq count engine
  uptime ← be32_at payload 4
  secs ← be32_at payload 8
  nanos ← be32_at payload 12
  sampling ← be16_at payload 22
  let clock : ExportClock = record { at = unix secs nanos; uptime_ms = uptime; has_uptime = true }
  (records, here') ←
      netflow_v5_records exporter payload clock (netflow_v5_sampling sampling) netflow_v5_header_len
        count dst here
  some (ok records, write_back (netflow_v5_key exporter) here' s')

-- `decodeNetFlowV5`; the `dst` it returns with an error is the one it got.
unfoldable pub decode_netflow_v5 :
    Addr → ℕ → List ℕ → List Record → Time → Store → Option (Result (List Record) × Store)
decode_netflow_v5 exporter port payload dst now s =
    if ltb (length payload) netflow_v5_header_len
    then some (err malformed, s)
    else be16_at payload 2 >>= λ count.
        if ltb count 1 || ltb netflow_v5_max_count count
        then some (err malformed, s)
        else if ltb (length payload) (netflow_v5_header_len + count * netflow_v5_record_len)
        then some (err malformed, s)
        else netflow_v5_body exporter port payload count dst now s
