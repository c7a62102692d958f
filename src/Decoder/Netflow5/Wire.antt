-- ===== src/Decoder/Netflow5/Wire.antt =====
-- The NetFlow v5 datagrams that a device writes, and what internal/decoder/netflow5.go reads back.
use xflow_exporter.Common.{
  ℕ, zero, suc, ◌+◌, ◌*◌, ◌/◌, ◌%◌, ◌≤◌, ◌<◌, ◌≡◌, refl, ◌∙◌, sym, true, false, Option, none, some,
  List, [], ◌∷◌, map, ◌++◌, nat_eqb, length, drop, arith,
}
use xflow_exporter.Common.Bytes.{byte_or, word16, word32}
use xflow_exporter.Flow.{Addr, v4, Record, zero_record, netflow_v5, Time, unix}
use xflow_exporter.Decoder.Reason.{Result, ok}
use xflow_exporter.Decoder.Clock.{ExportClock, anchor_pair}
use xflow_exporter.Decoder.Store.{Store}
use xflow_exporter.Decoder.Accounting.{Link}
use xflow_exporter.Decoder.Netflow5.{decode_netflow_v5, netflow_v5_sampling}
use xflow_exporter.Decoder.Netflow5.Outcome.{row, rows, is_well_formed, decode_netflow_v5_lem}

-- The record format, with the pad bytes that the collector does not read.
pub record WireFlow : Type 0 where
  pub src : ℕ
  pub dst : ℕ
  pub next_hop : ℕ
  pub input : ℕ
  pub output : ℕ
  pub packets : ℕ
  pub octets : ℕ
  pub first : ℕ
  pub last : ℕ
  pub src_port : ℕ
  pub dst_port : ℕ
  pub pad : ℕ
  pub flags : ℕ
  pub protocol : ℕ
  pub tos : ℕ
  pub src_as : ℕ
  pub dst_as : ℕ
  pub src_mask : ℕ
  pub dst_mask : ℕ
  pub pad2 : ℕ

abbrev pub be16 : ℕ → List ℕ → List ℕ
be16 v rest = v / 256 ∷ v % 256 ∷ rest

abbrev pub be32 : ℕ → List ℕ → List ℕ
be32 v rest = be16 (v / 65536) (be16 (v % 65536) rest)

abbrev pub write_flow : WireFlow → List ℕ → List ℕ
write_flow f rest = be32 f.src (
    be32 f.dst (
      be32 f.next_hop (
        be16 f.input (
          be16 f.output (
            be32 f.packets (
              be32 f.octets (
                be32 f.first (
                  be32 f.last (
                    be16 f.src_port (
                      be16 f.dst_port (
                        f.pad
                        ∷ f.flags
                        ∷ f.protocol
                        ∷ f.tos
                        ∷ be16 f.src_as
                            (be16 f.dst_as (f.src_mask ∷ f.dst_mask ∷ be16 f.pad2 rest)))))))))))))

abbrev pub write_flows : List WireFlow → List ℕ → List ℕ
write_flows [] trailing = trailing
write_flows (f ∷ fs) trailing = write_flow f (write_flows fs trailing)

-- The record that a flow is read as.
abbrev pub flow_record : Addr → ExportClock → ℕ → WireFlow → Record
flow_record exporter clock rate f =
    let (start, end, shown) = anchor_pair clock f.first f.last in
    record zero_record {
      exporter = exporter;
      version = netflow_v5;
      src_addr = v4 f.src;
      dst_addr = v4 f.dst;
      src_port = f.src_port;
      dst_port = f.dst_port;
      protocol = f.protocol;
      tos = f.tos;
      tos_reported = true;
      tcp_flags = f.flags;
      tcp_flags_reported = true;
      input_if = f.input;
      output_if = f.output;
      packets = f.packets;
      bytes = f.octets;
      bytes_reported = true;
      packets_reported = true;
      flows = 1;
      src_as = f.src_as;
      dst_as = f.dst_as;
      src_mask = f.src_mask;
      dst_mask = f.dst_mask;
      start = start;
      end = end;
      sampling_rate = rate;
    }

halves : (v : ℕ) → v / 256 * 256 + v % 256 ≡ v
halves v = omega arith

quarters :
    (v : ℕ)
    → (v / 65536 / 256 * 256 + v / 65536 % 256) * 65536 + (v % 65536 / 256 * 256 + v % 65536 % 256)
      ≡ v
quarters v = omega arith

row-write_flow :
    (exporter : Addr) (f : WireFlow) (rest : List ℕ) (clock : ExportClock) (rate : ℕ) (here : Link)
    → 0 < rate
    → (row exporter (write_flow f rest) clock rate here).0 ≡ flow_record exporter clock rate f
unfolding word32 word16 byte_or
row-write_flow exporter f rest clock rate here h =
    rw
      (
        quarters f.first,
        quarters f.last,
        quarters f.src,
        quarters f.dst,
        quarters f.packets,
        quarters f.octets,
        halves f.src_port,
        halves f.dst_port,
        halves f.input,
        halves f.output,
        halves f.src_as,
        halves f.dst_as,
        halves f.pad2,
        positive,
      )
      refl
  where
    positive : nat_eqb rate 0 ≡ false
    positive = ground arith

drop_nothing : (k : ℕ) → drop {A = ℕ} k [] ≡ []
drop_nothing zero = refl
drop_nothing (suc k) = refl

suc_plus : (i k : ℕ) → suc i + k ≡ suc (i + k)
suc_plus i k = omega arith

zero_plus : (k : ℕ) → 0 + k ≡ k
zero_plus k = omega arith

drop-add : (m n : ℕ) (xs : List ℕ) → drop (m + n) xs ≡ drop n (drop m xs)
drop-add zero n xs = rw (zero_plus n) refl
drop-add (suc m) n [] = rw (suc_plus m n) (sym (drop_nothing n))
drop-add (suc m) n (x ∷ xs) = rw (suc_plus m n) (drop-add m n xs)

rows-write_flows :
    (exporter : Addr) (payload trailing : List ℕ) (clock : ExportClock) (rate offset : ℕ)
    (fs : List WireFlow) (here : Link)
    → 0 < rate
    → drop offset payload ≡ write_flows fs trailing
    → (rows exporter payload clock rate offset (length fs) here).0
      ≡ map (flow_record exporter clock rate) fs
unfolding rows
rows-write_flows exporter payload trailing clock rate offset [] here h at_offset = refl
rows-write_flows exporter payload trailing clock rate offset (f ∷ fs) here h at_offset =
    let r = row exporter (drop offset payload) clock rate here in
    let first : r.0 ≡ flow_record exporter clock rate f =
      rw at_offset (row-write_flow exporter f (write_flows fs trailing) clock rate here h) in
    let behind : drop (offset + 48) payload ≡ write_flows fs trailing =
      drop-add offset 48 payload ∙ rw at_offset refl in
    let others =
      rows-write_flows exporter payload trailing clock rate (offset + 48) fs r.1 h behind in
    rw (first, others) refl

-- A datagram: the header's clock, sequence, engine and sampling field, the flows, and what trails.
pub record WireHeader : Type 0 where
  pub uptime : ℕ
  pub seconds : ℕ
  pub nanos : ℕ
  pub sequence : ℕ
  pub engine : ℕ
  pub sampling : ℕ

abbrev pub write_datagram : WireHeader → List WireFlow → List ℕ → List ℕ
write_datagram h fs trailing = be16 5 (
    be16 (length fs) (
      be32 h.uptime (
        be32 h.seconds (
          be32 h.nanos
            (be32 h.sequence (be16 h.engine (be16 h.sampling (write_flows fs trailing))))))))

abbrev pub header_clock : WireHeader → ExportClock
header_clock h = record { at = unix h.seconds h.nanos; uptime_ms = h.uptime; has_uptime = true }

length-write_flows :
    (fs : List WireFlow) (trailing : List ℕ)
    → length (write_flows fs trailing) ≡ length fs * 48 + length trailing
length-write_flows [] trailing = omega arith
length-write_flows (f ∷ fs) trailing = omega (arith, length-write_flows fs trailing)

abbrev pub records_of : Option (Result (List Record) × Store) → Option (List Record)
records_of (some (ok records, s)) = some records
records_of _ = none

-- A datagram of 1 to 30 flows whose header names a sampling rate is read back as those flows, in
-- order, after the records given, with that rate and with their instants anchored on the header's
-- clock; what trails the flows changes nothing.
pub decode-write_datagram :
    (exporter : Addr) (port : ℕ) (h : WireHeader) (fs : List WireFlow) (trailing : List ℕ)
    (dst : List Record) (now : Time) (s : Store)
    → 1 ≤ length fs
    → length fs ≤ 30
    → 0 < netflow_v5_sampling h.sampling
    → records_of (decode_netflow_v5 exporter port (write_datagram h fs trailing) dst now s)
      ≡ some
          (dst ++ map (flow_record exporter (header_clock h) (netflow_v5_sampling h.sampling)) fs)
decode-write_datagram exporter port h fs trailing dst now s least most sampled =
    let payload = write_datagram h fs trailing in
    rw (decode_netflow_v5_lem exporter port payload dst now s, well_formed)
      (rw (count, clock_uptime, clock_seconds, clock_nanos, rate)
        (rw
          (rows-write_flows exporter payload trailing (header_clock h)
            (netflow_v5_sampling h.sampling) 24 fs _ sampled refl)
          refl))
  where
    count : word16 (write_datagram h fs trailing) 2 ≡ length fs
    count = unfold word16 byte_or in halves (length fs)

    clock_uptime : word32 (write_datagram h fs trailing) 4 ≡ h.uptime
    clock_uptime = unfold word32 word16 byte_or in quarters h.uptime

    clock_seconds : word32 (write_datagram h fs trailing) 8 ≡ h.seconds
    clock_seconds = unfold word32 word16 byte_or in quarters h.seconds

    clock_nanos : word32 (write_datagram h fs trailing) 12 ≡ h.nanos
    clock_nanos = unfold word32 word16 byte_or in quarters h.nanos

    rate : word16 (write_datagram h fs trailing) 22 ≡ h.sampling
    rate = unfold word16 byte_or in halves h.sampling

    well_formed : is_well_formed (write_datagram h fs trailing) ≡ true
    well_formed = rw count (ground (arith, length-write_flows fs trailing))
