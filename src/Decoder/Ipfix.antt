-- ===== src/Decoder/Ipfix.antt =====
-- internal/decoder/ipfix.go: the parser of IPFIX. A read outside a slice is a panic, `none`; so is fuel
-- that runs out. What `decodeIPFIX` returns beside an error is not modelled: `Decode` drops it.
pub mod Total
use xflow_exporter.Common.{
  ℕ, zero, suc, ◌+◌, ◌%◌, ◌^◌, Bool, true, false, ◌||◌, Option, none, some, List, [], ◌∷◌, ◌++◌,
  if◌then◌else◌, ltb, leb, nat_eqb, length, take, lookup, insert,
}
use xflow_exporter.Common.Bytes.{be16_at, be32_at, slice, ◌>>=◌}
use xflow_exporter.Flow.{Addr, Record, zero_record, Time, unix}
use xflow_exporter.Flow.{ipfix}
use xflow_exporter.Decoder.Reason.{
  Reason, Result, ok, err, malformed, missing_template, reserved_set, domain_limit,
}
use xflow_exporter.Decoder.Clock.{ExportClock}
use xflow_exporter.Decoder.Domain.{DomainKey, Template, TemplateField, TemplateRef, domain_key_eq}
use xflow_exporter.Decoder.Sequence.{track_record_sequence}
use xflow_exporter.Decoder.Store.{Store, domain, store_lookup}
use xflow_exporter.Decoder.State.{DecoderState, issue}
use xflow_exporter.Decoder.Fields.{FieldState, fresh_fields, apply_field}
use xflow_exporter.Decoder.Options.{
  OptionsState, no_options, apply_option, apply_ipfix_scope, commit,
}
use xflow_exporter.Decoder.Register.{register_template}
use xflow_exporter.Decoder.DataFlowSets.{close_record, with_strings}
use xflow_exporter.Decoder.TemplateSets.{
  next_field_value, parse_ipfix_templates, parse_ipfix_options_templates, min_data_set_id,
}
use xflow_exporter.Decoder.IpfixLengths.{check_ipfix_lengths}
use xflow_exporter.Decoder.DataSets.{SetRead, complain_of, decode_ipfix_data_set}

abbrev pub ipfix_header_len : ℕ
ipfix_header_len = 16

abbrev pub untouched : List Record → Bool → Option DecoderState → Option (SetRead × DecoderState)
untouched dst complete none = none
untouched dst complete (some s) = some (record { dst = dst; records = 0; complete = complete }, s)

-- The `register` of `decodeIPFIXSet`
abbrev pub register_at : DomainKey → ℕ → Time → ℕ → Option Template → DecoderState → DecoderState
register_at key port at id t s = register_template key (record { port = port; id = id }) t at s

-- `decodeIPFIXSet`
unfoldable pub decode_ipfix_set :
    DomainKey
    → ℕ
    → ℕ
    → List ℕ
    → Bool
    → ExportClock
    → Time
    → List Record
    → DecoderState
    → Option (SetRead × DecoderState)
decode_ipfix_set key port set_id set complete clock at dst s =
    if nat_eqb set_id 2
    then untouched dst complete
        (parse_ipfix_templates (register_at key port at) s.templates.max_fields set s)
    else if nat_eqb set_id 3
    then untouched dst complete
        (parse_ipfix_options_templates (register_at key port at) s.templates.max_fields set s)
    else if leb min_data_set_id set_id
    then decode_ipfix_data_set key port set_id set complete clock at dst s
    else some (complain_of key reserved_set dst 0 s)

-- The loop of `decodeIPFIX` over the sets from an offset on.
unfoldable pub ipfix_sets :
    ℕ
    → DomainKey
    → ℕ
    → List ℕ
    → ℕ
    → ExportClock
    → Time
    → SetRead
    → DecoderState
    → Option (SetRead × DecoderState)
ipfix_sets zero key port msg offset clock at so_far s = none
ipfix_sets (suc fuel) key port msg offset clock at so_far s = elim (leb (offset + 4) (length msg)) [
  | false ↦ some (so_far, s)
  | true ↦ be16_at msg offset >>= λ set_id. be16_at msg (offset + 2) >>= λ set_len.
      slice msg (offset + 4) (offset + set_len) >>= λ set.
      decode_ipfix_set key port set_id set so_far.complete clock at so_far.dst s >>= λ p.
      ipfix_sets fuel key port msg (offset + set_len) clock at
        (record p.0 { records = so_far.records + p.0.records }) p.1
]

-- The domain that the message numbers, on its session.
unfoldable pub track_records : DomainKey → ℕ → ℕ → SetRead → Store → Store
track_records key port seq read s = elim (lookup key s.domains) [
  | none ↦ s
  | some d ↦ record s {
    domains =
        insert key (track_record_sequence d port seq (read.records % 2 ^ 32) 0 read.complete)
          s.domains;
  }
]

-- What `decodeIPFIX` does with a message whose lengths fit.
unfoldable pub ipfix_body :
    DomainKey
    → ℕ
    → ℕ
    → List ℕ
    → ExportClock
    → Time
    → List Record
    → DecoderState
    → Option (Result (List Record) × DecoderState)
ipfix_body key port seq msg clock at dst s =
    ipfix_sets (length msg) key port msg ipfix_header_len clock at
      (record { dst = dst; records = 0; complete = true }) s
    >>= λ p.
        some (ok p.0.dst, record p.1 { templates = track_records key port seq p.0 p.1.templates })

-- `decodeIPFIX` from the domain on.
unfoldable pub ipfix_message :
    DomainKey
    → ℕ
    → ℕ
    → List ℕ
    → ExportClock
    → Time
    → List Record
    → DecoderState
    → Option (Result (List Record) × DecoderState)
ipfix_message key port seq msg clock at dst s =
    check_ipfix_lengths key port msg at s.templates >>= λ checked.
    let s' : DecoderState = record s { templates = checked.0 } in
    if checked.1 then ipfix_body key port seq msg clock at dst s' else some (err malformed, s')

-- `decodeIPFIX`
unfoldable pub decode_ipfix :
    Addr
    → ℕ
    → List ℕ
    → List Record
    → Time
    → DecoderState
    → Option (Result (List Record) × DecoderState)
decode_ipfix exporter port payload dst at s =
    if ltb (length payload) ipfix_header_len
    then some (err malformed, s)
    else be16_at payload 2 >>= λ msg_len.
        if ltb msg_len ipfix_header_len || ltb (length payload) msg_len
        then some (err malformed, s)
        else be32_at payload 4 >>= λ secs. be32_at payload 8 >>= λ seq.
            be32_at payload 12 >>= λ odid.
            let key : DomainKey = record { exporter = exporter; odid = odid; proto = ipfix } in
            let (store, granted) = domain key at s.templates in
            let clock : ExportClock = record {
              at = unix secs 0;
              uptime_ms = 0;
              has_uptime = false;
            } in
            let s' : DecoderState = record s { templates = store } in
            if granted
            then ipfix_message key port seq (take msg_len payload) clock at dst s'
            else some (ok dst, issue ipfix exporter domain_limit s')
