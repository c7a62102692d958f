-- ===== src/Decoder/Netflow9.antt =====
-- internal/decoder/netflow9.go: the parser of NetFlow v9. A read outside a slice and a division by zero
-- are panics, `none`; so is fuel that runs out. What `decodeNetFlowV9` returns beside an error is not
-- modelled: `Decode` drops it.
pub mod Total
use xflow_exporter.Common.{
  ℕ, zero, suc, ◌+◌, ◌-◌, ◌*◌, ◌/◌, ◌%◌, Bool, true, false, not, ◌&&◌, ◌||◌, Option, none, some,
  List, [], ◌∷◌, ◌++◌, if◌then◌else◌, ltb, leb, nat_eqb, length, lookup, insert,
}
use xflow_exporter.Common.Bytes.{be16_at, be32_at, slice, ◌>>=◌}
use xflow_exporter.Flow.{Addr, Record, zero_record, netflow_v9, Time, unix}
use xflow_exporter.Decoder.Reason.{
  Reason, Result, ok, err, malformed, missing_template, invalid_template, reserved_set,
  domain_limit,
}
use xflow_exporter.Decoder.Clock.{ExportClock}
use xflow_exporter.Decoder.Domain.{DomainKey, Template, TemplateField, TemplateRef, domain_key_eq}
use xflow_exporter.Decoder.Sequence.{track_sequence}
use xflow_exporter.Decoder.Store.{Store, domain, store_lookup}
use xflow_exporter.Decoder.Accounting.{Link, link, write_back}
use xflow_exporter.Decoder.Apps.{AppTables, resolve_application}
use xflow_exporter.Decoder.State.{DecoderState, issue}
use xflow_exporter.Decoder.Fields.{FieldState, fresh_fields, apply_field}
use xflow_exporter.Decoder.Finish.{finish_record}
use xflow_exporter.Decoder.Options.{OptionsState, no_options, apply_option, apply_v9_scope, commit}
use xflow_exporter.Decoder.Register.{register_template, fixed_record_len}
use xflow_exporter.Decoder.TemplateFlowSets.{
  v9_min_data_set_id, parse_v9_templates, parse_v9_options_templates,
}
use xflow_exporter.Decoder.DataFlowSets.{complain, decode_v9_data_set}

abbrev pub netflow_v9_header_len : ℕ
netflow_v9_header_len = 20

abbrev pub flow_set_header_len : ℕ
flow_set_header_len = 4

abbrev pub keep_records : List Record → Option DecoderState → Option (List Record × DecoderState)
keep_records dst none = none
keep_records dst (some s) = some (dst, s)

-- `decodeV9FlowSet`
unfoldable pub decode_v9_flow_set :
    DomainKey
    → ℕ
    → ℕ
    → List ℕ
    → ExportClock
    → Time
    → List Record
    → DecoderState
    → Option (List Record × DecoderState)
decode_v9_flow_set key port set_id set clock at dst s =
    if nat_eqb set_id 0
    then keep_records dst (parse_v9_templates key port set at s)
    else if nat_eqb set_id 1
    then keep_records dst (parse_v9_options_templates key port set at s)
    else if leb v9_min_data_set_id set_id
    then decode_v9_data_set key port set_id set clock at dst s
    else some (complain key dst s reserved_set)

-- The loop of `decodeNetFlowV9` over the flowsets from an offset on.
unfoldable pub v9_flow_sets :
    ℕ
    → DomainKey
    → ℕ
    → List ℕ
    → ℕ
    → ExportClock
    → Time
    → List Record
    → DecoderState
    → Option (Result (List Record) × DecoderState)
v9_flow_sets zero key port payload offset clock at dst s = none
v9_flow_sets (suc fuel) key port payload offset clock at dst s =
    elim (leb (offset + flow_set_header_len) (length payload)) [
      | false ↦ some (ok dst, s)
      | true ↦ be16_at payload offset >>= λ set_id. be16_at payload (offset + 2) >>= λ set_len.
          elim (ltb set_len flow_set_header_len || ltb (length payload) (offset + set_len)) [
            | true ↦ some (err malformed, s)
            | false ↦ slice payload (offset + flow_set_header_len) (offset + set_len) >>= λ set.
                decode_v9_flow_set key port set_id set clock at dst s >>= λ p.
                v9_flow_sets fuel key port payload (offset + set_len) clock at p.0 p.1
          ]
    ]

-- The domain that the datagram numbers, on its session.
unfoldable pub track_packet : DomainKey → ℕ → ℕ → Store → Store
track_packet key port seq s = elim (lookup key s.domains) [
  | none ↦ s
  | some d ↦ record s { domains = insert key (track_sequence d port seq) s.domains }
]

-- `decodeNetFlowV9`
unfoldable pub decode_netflow_v9 :
    Addr
    → ℕ
    → List ℕ
    → List Record
    → Time
    → DecoderState
    → Option (Result (List Record) × DecoderState)
decode_netflow_v9 exporter port payload dst at s =
    if ltb (length payload) netflow_v9_header_len
    then some (err malformed, s)
    else be32_at payload 4 >>= λ uptime. be32_at payload 8 >>= λ secs. be32_at payload 12 >>= λ seq.
        be32_at payload 16 >>= λ odid.
        let key : DomainKey = record { exporter = exporter; odid = odid; proto = netflow_v9 } in
        let (store, granted) = domain key at s.templates in
        let clock : ExportClock = record {
          at = unix secs 0;
          uptime_ms = uptime;
          has_uptime = true;
        } in
        if granted
        then v9_flow_sets (length payload) key port payload netflow_v9_header_len clock at dst
            (record s { templates = track_packet key port seq store })
        else some (ok dst, issue netflow_v9 exporter domain_limit (record s { templates = store }))
