-- ===== src/Decoder/Dispatch.antt =====
-- internal/decoder/decoder.go: `Decode`, which routes a datagram to its parser and accounts for what
-- came of it. A panic is `none`. One instant stands for the readings of the clock that one call takes.
pub mod Fixed
pub mod Safety
use xflow_exporter.Common.{ℕ, ◌-◌, Option, none, some, List, length}
use xflow_exporter.Common.Bytes.{◌>>=◌}
use xflow_exporter.Flow.{
  Addr, Record, Time, Version, version_unknown, netflow_v5, netflow_v8, netflow_v9, ipfix, sflow_v5,
}
use xflow_exporter.Decoder.Reason.{Reason, Result, ok, err, unsupported_version}
use xflow_exporter.Decoder.Sniff.{sniff_version}
use xflow_exporter.Decoder.Stats.{exporter, account, count_flows}
use xflow_exporter.Decoder.Store.{Store}
use xflow_exporter.Decoder.State.{DecoderState, issue}
use xflow_exporter.Decoder.Netflow5.{decode_netflow_v5}
use xflow_exporter.Decoder.Netflow8.{decode_netflow_v8}
use xflow_exporter.Decoder.Netflow9.{decode_netflow_v9}
use xflow_exporter.Decoder.Ipfix.{decode_ipfix}
use xflow_exporter.Decoder.Sflow5.{decode_sflow_v5}

-- A parser that touches the template store alone.
abbrev pub on_templates :
    DecoderState
    → Option (Result (List Record) × Store)
    → Option (Result (List Record) × DecoderState)
on_templates s parsed = parsed >>= λ p. some (p.0, record s { templates = p.1 })

-- `decodeVersion`
unfoldable pub decode_version :
    Version
    → Addr
    → ℕ
    → List ℕ
    → List Record
    → Time
    → DecoderState
    → Option (Result (List Record) × DecoderState)
decode_version netflow_v5 src port payload dst at s =
    on_templates s (decode_netflow_v5 src port payload dst at s.templates)
decode_version netflow_v8 src port payload dst at s =
    on_templates s (decode_netflow_v8 src port payload dst at s.templates)
decode_version netflow_v9 src port payload dst at s = decode_netflow_v9 src port payload dst at s
decode_version ipfix src port payload dst at s = decode_ipfix src port payload dst at s
decode_version sflow_v5 src port payload dst at s = decode_sflow_v5 src port payload dst at s
decode_version version_unknown src port payload dst at s = some (err unsupported_version, s)

-- What `Decode` answers: the records, and the reason of a rejection.
abbrev pub Outcome : Type 0
Outcome = List Record × Option Reason

-- The accounting behind the parser; a parser only appends, so the cut to `before` leaves `dst`.
abbrev pub accounted :
    Version
    → Addr
    → List Record
    → Time
    → Result (List Record) × DecoderState
    → Outcome × DecoderState
accounted version src dst at (err reason, s) = ((dst, some reason), issue version src reason s)
accounted version src dst at (ok records, s) = (
  (records, none),
  record s { stats = account src (count_flows version (length records - length dst) at) s.stats },
)

-- `Decode` behind the sniffing.
unfoldable pub decode_sniffed :
    Result Version
    → Addr
    → ℕ
    → List ℕ
    → List Record
    → Time
    → DecoderState
    → Option (Outcome × DecoderState)
decode_sniffed (err reason) src port payload dst at s =
    some ((dst, some reason), issue version_unknown src reason s)
decode_sniffed (ok version) src port payload dst at s =
    decode_version version src port payload dst at s >>= λ p. some (accounted version src dst at p)

-- `Decode`, of the device and the port that sent the datagram
unfoldable pub decode :
    Addr → ℕ → List ℕ → List Record → Time → DecoderState → Option (Outcome × DecoderState)
decode src port payload dst at s = sniff_version payload >>= λ sniffed.
    decode_sniffed sniffed src port payload dst at
      (record s { stats = (exporter src at s.stats).0 })
