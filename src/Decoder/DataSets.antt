-- ===== src/Decoder/DataSets.antt =====
-- internal/decoder/ipfix.go: the records of one data set. A read outside a slice is a panic, `none`; so
-- is fuel that runs out.
pub mod Reading
use xflow_exporter.Common.{
  ℕ, zero, suc, ◌+◌, ◌%◌, ◌^◌, Bool, true, false, ◌||◌, Option, none, some, List, [], ◌∷◌, ◌++◌,
  if◌then◌else◌, ltb, leb, nat_eqb, length, take, lookup, insert,
}
use xflow_exporter.Common.Bytes.{be16_at, be32_at, slice, ◌>>=◌}
use xflow_exporter.Flow.{Addr, Record, zero_record, Time, unix}
use xflow_exporter.Flow.{ipfix}
use xflow_exporter.Decoder.Reason.{
  Reason, Result, ok, err, malformed, missing_template, reserved_set, domain_limit,
}
use xflow_exporter.Decoder.Clock.{ExportClock}
use xflow_exporter.Decoder.Domain.{DomainKey, Template, TemplateField, TemplateRef, domain_key_eq}
use xflow_exporter.Decoder.Sequence.{track_record_sequence}
use xflow_exporter.Decoder.Store.{Store, domain, store_lookup}
use xflow_exporter.Decoder.State.{DecoderState, issue}
use xflow_exporter.Decoder.Fields.{FieldState, fresh_fields, apply_field}
use xflow_exporter.Decoder.Options.{
  OptionsState, no_options, apply_option, apply_ipfix_scope, commit,
}
use xflow_exporter.Decoder.Register.{register_template}
use xflow_exporter.Decoder.DataFlowSets.{close_record, with_strings}
use xflow_exporter.Decoder.TemplateSets.{
  next_field_value, parse_ipfix_templates, parse_ipfix_options_templates, min_data_set_id,
}
use xflow_exporter.Decoder.IpfixLengths.{check_ipfix_lengths}

-- The loop of `readIPFIXOptionsRecord` from the field `i` on: the options and the offset behind the
-- record, `some none` where a value does not fit.
unfoldable pub ipfix_options_fields :
    List TemplateField → ℕ → ℕ → List ℕ → ℕ → OptionsState → Option (Option (OptionsState × ℕ))
ipfix_options_fields [] scope_count i set offset o = some (some (o, offset))
ipfix_options_fields (f ∷ rest) scope_count i set offset o =
    next_field_value f set offset >>= λ found. elim found [
      | none ↦ some none
      | some (value, next) ↦
          let scoped =
            if ltb i scope_count
            then (apply_ipfix_scope o f.field_type f.enterprise value).0
            else o in
          ipfix_options_fields rest scope_count (suc i) set next
            (apply_option scoped f.field_type f.enterprise value).0
    ]

-- What a step over a record answers: the state, and the offset behind the record, `none` where a value
-- did not fit.
abbrev pub committed :
    DomainKey → ℕ → Time → Option (OptionsState × ℕ) → DecoderState → DecoderState × Option ℕ
committed key port at none s = (s, none)
committed key port at (some (o, next)) s = (commit o key port at s, some next)

-- `readIPFIXOptionsRecord`
unfoldable pub read_ipfix_options_record :
    DomainKey → ℕ → Template → List ℕ → ℕ → Time → DecoderState → Option (DecoderState × Option ℕ)
read_ipfix_options_record key port tpl set offset at s =
    ipfix_options_fields tpl.fields tpl.scope_count 0 set offset no_options >>= λ walked.
    some (committed key port at walked s)

-- The loop of `decodeIPFIXRecord` over the fields; what was interned before a value that does not fit
-- stays.
unfoldable pub ipfix_fields :
    List TemplateField → List ℕ → ℕ → Record → FieldState → Option (Record × FieldState × Option ℕ)
ipfix_fields [] set offset r fs = some (r, fs, some offset)
ipfix_fields (f ∷ rest) set offset r fs = next_field_value f set offset >>= λ found. elim found [
  | none ↦ some (r, fs, none)
  | some (value, next) ↦
      let (r', fs', read) = apply_field r fs f.field_type f.enterprise value in
      ipfix_fields rest set next r' fs'
]

-- The records after one more, the state, and the offset behind it, `none` where it was not whole.
abbrev pub Stepped : Type 0
Stepped = (List Record × Option ℕ) × DecoderState

-- The end of `decodeIPFIXRecord`.
abbrev pub ipfix_closed :
    DomainKey
    → Record
    → FieldState
    → Option ℕ
    → ExportClock
    → List Record
    → DecoderState
    → Option Stepped
ipfix_closed key r fs none clock dst s =
    some ((dst, none), record s { apps = with_strings fs s.apps })
ipfix_closed key r fs (some next) clock dst s =
    close_record key r fs clock s >>= λ p. some ((dst ++ (p.0 ∷ []), some next), p.1)

-- `decodeIPFIXRecord`
unfoldable pub decode_ipfix_record :
    DomainKey
    → TemplateRef
    → Template
    → List ℕ
    → ℕ
    → ExportClock
    → Time
    → List Record
    → DecoderState
    → Option Stepped
decode_ipfix_record key ref tpl set offset clock at dst s =
    if tpl.options
    then (read_ipfix_options_record key ref.port tpl set offset at s >>= λ p.
        some ((dst, p.1), p.0))
    else (let opened : Record = record zero_record {
      exporter = key.exporter;
      version = ipfix;
      odid = key.odid;
      flows = 1;
    } in
        ipfix_fields tpl.fields set offset opened (fresh_fields s.apps.strings ref) >>= λ walked.
        ipfix_closed key walked.0 walked.1 walked.2 clock dst s)

-- What a set leaves: the records, how many of the set's data records were read, and whether that count
-- can be trusted.
pub record SetRead : Type 0 where
  pub dst : List Record
  pub records : ℕ
  pub complete : Bool

abbrev pub complain_of :
    DomainKey → Reason → List Record → ℕ → DecoderState → SetRead × DecoderState
complain_of key reason dst records s = (
  record { dst = dst; records = records; complete = false },
  issue key.proto key.exporter reason s,
)

-- The loop of `decodeIPFIXDataSet` from an offset on.
unfoldable pub ipfix_records :
    ℕ
    → DomainKey
    → TemplateRef
    → Template
    → List ℕ
    → ℕ
    → ℕ
    → Bool
    → ExportClock
    → Time
    → List Record
    → DecoderState
    → Option (SetRead × DecoderState)
ipfix_records zero key ref tpl set offset records complete clock at dst s = none
ipfix_records (suc fuel) key ref tpl set offset records complete clock at dst s =
    elim (leb (offset + tpl.record_len) (length set)) [
      | false ↦ some (record { dst = dst; records = records; complete = complete }, s)
      | true ↦ decode_ipfix_record key ref tpl set offset clock at dst s >>= λ p. elim p.0.1 [
        | none ↦ some (complain_of key malformed p.0.0 records p.1)
        | some next ↦
            ipfix_records fuel key ref tpl set next (records + 1) complete clock at p.0.0 p.1
      ]
    ]

-- `decodeIPFIXDataSet`
unfoldable pub decode_ipfix_data_set :
    DomainKey
    → ℕ
    → ℕ
    → List ℕ
    → Bool
    → ExportClock
    → Time
    → List Record
    → DecoderState
    → Option (SetRead × DecoderState)
decode_ipfix_data_set key port set_id set complete clock at dst s =
    let ref : TemplateRef = record { port = port; id = set_id } in
    let (store, found) = store_lookup key ref at s.templates in
    let s' : DecoderState = record s { templates = store } in
    elim found [
      | none ↦ some (complain_of key missing_template dst 0 s')
      | some tpl ↦ ipfix_records (suc (length set)) key ref tpl set 0 0 complete clock at dst s'
    ]
