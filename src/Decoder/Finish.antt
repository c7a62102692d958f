-- ===== src/Decoder/Finish.antt =====
-- internal/decoder/fields.go: what `finishRecord` settles once every element of a record is read. A
-- read outside a slice, and a rate asked of the nil domain, is a panic, `none`.
pub mod Addresses
pub mod Finished
use xflow_exporter.Common.{
  ℕ, ◌+◌, Bool, true, false, not, ◌&&◌, ◌||◌, Option, none, some, List, [], if◌then◌else◌, ltb,
  nat_eqb, length, add64,
}
use xflow_exporter.Common.Bytes.{◌>>=◌}
use xflow_exporter.Flow.{Addr, no_addr, v4, v6, addr_is_valid, Record, Time}
use xflow_exporter.Decoder.Clock.{ExportClock, with_boot_time, anchor, withhold_inverted}
use xflow_exporter.Decoder.Domain.{DomainState, SamplerTable}
use xflow_exporter.Decoder.Declarations.{correction_for, scoped_correction, inherited_correction}
use xflow_exporter.Decoder.Accounting.{Link, count_clock_pair, count_aggregate, owed_counted}
use xflow_exporter.Decoder.Packets.{read_ethernet_frame, read_ip_packet}
use xflow_exporter.Decoder.Fields.{FieldState, AddrPair}

-- `netip.Addr.IsUnspecified`: 0.0.0.0, and :: without a zone
unfoldable pub is_unspecified : Addr → Bool
is_unspecified no_addr = false
is_unspecified (v4 a) = nat_eqb a 0
is_unspecified (v6 a []) = nat_eqb a 0
is_unspecified (v6 a zone) = false

abbrev pub is_reading : Addr → Bool
is_reading a = addr_is_valid a && not (is_unspecified a)

-- `addrPair.carries`
unfoldable pub carries : AddrPair → Bool
carries p = is_reading p.src || is_reading p.dst

-- An address, or where it is absent the other family's.
abbrev pub or_addr : Addr → Addr → Addr
or_addr no_addr other = other
or_addr a other = a

-- `resolveAddrs`
unfoldable pub resolve_addrs : Record → FieldState → Record
resolve_addrs r s =
    let swapped = not (carries s.ipv4) && carries s.ipv6 in
    let first = if swapped then s.ipv6 else s.ipv4 in
    let second = if swapped then s.ipv4 else s.ipv6 in
    record r { src_addr = or_addr first.src second.src; dst_addr = or_addr first.dst second.dst }

-- The egress counters, where the record carries no ingress ones.
abbrev pub out_bytes_taken : Option ℕ → Record → Record
out_bytes_taken none r = r
out_bytes_taken (some v) r =
    if r.bytes_reported then r else record r { bytes = v; bytes_reported = true }

abbrev pub out_packets_taken : Option ℕ → Record → Record
out_packets_taken none r = r
out_packets_taken (some v) r =
    if r.packets_reported then r else record r { packets = v; packets_reported = true }

abbrev pub has_bytes : List ℕ → Bool
has_bytes p = ltb 0 (length p)

-- The walk over the section, where the record has no address of its own.
unfoldable pub walk_section : Record → FieldState → Option Record
walk_section r s =
    if addr_is_valid r.src_addr || addr_is_valid r.dst_addr
    then some r
    else if has_bytes s.frame_section
    then (read_ethernet_frame s.frame_section r >>= λ walked. some walked.1)
    else if has_bytes s.ip_section
    then read_ip_packet s.ip_section r
    else some r

-- What one sampled packet counts, where the record does not say.
abbrev pub one_packet : FieldState → Record → Record
one_packet s r =
    let r' : Record =
      if r.packets_reported then r else record r { packets = 1; packets_reported = true } in
    if not r'.bytes_reported && ltb 0 s.frame_size
    then record r' { bytes = s.frame_size; bytes_reported = true }
    else r'

-- `resolvePacketSection`
unfoldable pub resolve_packet_section : Record → FieldState → Option Record
resolve_packet_section r s =
    if not (has_bytes s.frame_section) && not (has_bytes s.ip_section)
    then some r
    else walk_section r s >>= λ r'. some (one_packet s r')

-- The uptime pair anchored on the clock, which may lack an uptime.
abbrev pub anchored : ExportClock → Option ℕ → Option ℕ → Option (Time × Time)
anchored clock none last = none
anchored clock (some first) none = none
anchored clock (some first) (some last) =
    if clock.has_uptime then some (anchor clock first, anchor clock last) else none

-- `flowClockPair`; `none` is its `false`.
unfoldable pub flow_clock_pair : FieldState → ExportClock → Option (Time × Time)
flow_clock_pair s clock =
    if not (nat_eqb s.start_abs 0) && not (nat_eqb s.end_abs 0)
    then some (s.start_abs, s.end_abs)
    else anchored (with_boot_time clock s.boot_at) s.first_uptime s.last_uptime

abbrev pub stamped : Record → Option (Time × Time) → Link → Record × Link
stamped r none here = (r, here)
stamped r (some (start, end)) here =
    let (start', end', shown) = withhold_inverted start end in
    (record r { start = start'; end = end' }, count_clock_pair (not shown) here)

-- `resolveFlowClock`
unfoldable pub resolve_flow_clock : Record → FieldState → ExportClock → Link → Record × Link
resolve_flow_clock r s clock here = stamped r (flow_clock_pair s clock) here

-- The rate of a record that names no selection process.
abbrev pub unnamed_rate : Option ℕ → DomainState → SamplerTable → SamplerTable × (ℕ × Bool)
unnamed_rate none d t = (t, inherited_correction d t)
unnamed_rate (some rate) d t = (t, (rate, false))

-- `rateInForce`: the table, and the rate with whether one is owed
unfoldable pub record_rate : FieldState → ℕ → DomainState → SamplerTable → SamplerTable × (ℕ × Bool)
record_rate s input_if d t = elim s.sampler [
  | some id ↦ correction_for d t id true
  | none ↦ elim s.selector [
    | some id ↦ correction_for d t id false
    | none ↦ unnamed_rate (scoped_correction d t s.template input_if) d t
  ]
]

-- The rate that a record which carried none takes.
unfoldable pub rated : Record → FieldState → Link → Option (Record × Link)
rated r s none = if nat_eqb r.sampling_rate 0 then none else some (r, none)
rated r s (some (d, t)) =
    if nat_eqb r.sampling_rate 0
    then (let (t', (rate, owed)) = record_rate s r.input_if d t in
        some (record r { sampling_rate = rate }, some (owed_counted owed d, t')))
    else some (r, some (d, t))

-- `finishRecord`
unfoldable pub finish_record : Record → FieldState → ExportClock → Link → Option (Record × Link)
finish_record r s clock here =
    let counted =
      out_packets_taken s.out_packets (out_bytes_taken s.out_bytes (resolve_addrs r s)) in
    resolve_packet_section counted s >>= λ r'.
    let (timed, here') = resolve_flow_clock r' s clock here in
    rated timed s
      (if timed.flows_reported then count_aggregate (nat_eqb timed.flows 0) here' else here')
