-- ===== src/Decoder/DataFlowSets.antt =====
-- internal/decoder/netflow9.go: the data flowsets, read against their templates. A read outside a slice
-- and a division by zero are panics, `none`.
pub mod Walking
use xflow_exporter.Common.{
  ℕ, zero, suc, ◌+◌, ◌-◌, ◌*◌, ◌/◌, ◌%◌, Bool, true, false, not, ◌&&◌, ◌||◌, Option, none, some,
  List, [], ◌∷◌, ◌++◌, if◌then◌else◌, ltb, leb, nat_eqb, length, lookup, insert,
}
use xflow_exporter.Common.Bytes.{be16_at, be32_at, slice, ◌>>=◌}
use xflow_exporter.Flow.{Addr, Record, zero_record, netflow_v9, Time, unix}
use xflow_exporter.Decoder.Reason.{
  Reason, Result, ok, err, malformed, missing_template, invalid_template, reserved_set,
  domain_limit,
}
use xflow_exporter.Decoder.Clock.{ExportClock}
use xflow_exporter.Decoder.Domain.{DomainKey, Template, TemplateField, TemplateRef, domain_key_eq}
use xflow_exporter.Decoder.Sequence.{track_sequence}
use xflow_exporter.Decoder.Store.{Store, domain, store_lookup}
use xflow_exporter.Decoder.Accounting.{Link, link, write_back}
use xflow_exporter.Decoder.Apps.{AppTables, resolve_application}
use xflow_exporter.Decoder.State.{DecoderState, issue}
use xflow_exporter.Decoder.Fields.{FieldState, fresh_fields, apply_field}
use xflow_exporter.Decoder.Finish.{finish_record}
use xflow_exporter.Decoder.Options.{OptionsState, no_options, apply_option, apply_v9_scope, commit}
use xflow_exporter.Decoder.Register.{register_template, fixed_record_len}

-- The loop of `readV9OptionsRecord` over the fields from the index `i` on.
unfoldable pub v9_options_fields :
    List TemplateField → ℕ → ℕ → List ℕ → ℕ → OptionsState → Option OptionsState
v9_options_fields [] scope_count i bytes offset o = some o
v9_options_fields (f ∷ rest) scope_count i bytes offset o =
    slice bytes offset (offset + f.length) >>= λ value.
    let scoped = if ltb i scope_count then apply_v9_scope o f.field_type value else o in
    v9_options_fields rest scope_count (suc i) bytes (offset + f.length)
      (apply_option scoped f.field_type f.enterprise value).0

-- `readV9OptionsRecord`
unfoldable pub read_v9_options_record :
    DomainKey → ℕ → Template → List ℕ → Time → DecoderState → Option DecoderState
read_v9_options_record key port tpl bytes at s =
    v9_options_fields tpl.fields tpl.scope_count 0 bytes 0 no_options >>= λ o.
    some (commit o key port at s)

-- The loop of `appendV9Record` over the fields.
unfoldable pub v9_fields :
    List TemplateField → List ℕ → ℕ → Record → FieldState → Option (Record × FieldState)
v9_fields [] bytes offset r fs = some (r, fs)
v9_fields (f ∷ rest) bytes offset r fs = slice bytes offset (offset + f.length) >>= λ value.
    let (r', fs', read) = apply_field r fs f.field_type f.enterprise value in
    v9_fields rest bytes (offset + f.length) r' fs'

-- The state that the reading of a record leaves: the strings it interned, and its domain.
abbrev pub with_strings : FieldState → AppTables → AppTables
with_strings fs a = record a { strings = fs.strings }

-- The end of `appendV9Record`, which IPFIX shares.
unfoldable pub close_record :
    DomainKey → Record → FieldState → ExportClock → DecoderState → Option (Record × DecoderState)
close_record key r fs clock s = finish_record r fs clock (link key s.templates) >>= λ finished.
    let apps = with_strings fs s.apps in
    some (
      resolve_application key.exporter apps finished.0,
      record s { templates = write_back key finished.1 s.templates; apps = apps },
    )

-- `appendV9Record`
unfoldable pub v9_record :
    DomainKey
    → TemplateRef
    → Template
    → List ℕ
    → ExportClock
    → DecoderState
    → Option (Record × DecoderState)
v9_record key ref tpl bytes clock s =
    let opened : Record = record zero_record {
      exporter = key.exporter;
      version = netflow_v9;
      odid = key.odid;
      flows = 1;
    } in
    v9_fields tpl.fields bytes 0 opened (fresh_fields s.apps.strings ref) >>= λ walked.
    close_record key walked.0 walked.1 clock s

-- One round of the loop of `decodeV9DataSet`.
unfoldable pub v9_data_record :
    DomainKey
    → TemplateRef
    → Template
    → List ℕ
    → ExportClock
    → Time
    → List Record
    → DecoderState
    → Option (List Record × DecoderState)
v9_data_record key ref tpl bytes clock at dst s =
    if tpl.options
    then (read_v9_options_record key ref.port tpl bytes at s >>= λ s'. some (dst, s'))
    else v9_record key ref tpl bytes clock s >>= λ p. some (dst ++ (p.0 ∷ []), p.1)

-- The loop of `decodeV9DataSet`, over the records from the index `i` on.
unfoldable pub v9_data_records :
    ℕ
    → ℕ
    → DomainKey
    → TemplateRef
    → Template
    → List ℕ
    → ExportClock
    → Time
    → List Record
    → DecoderState
    → Option (List Record × DecoderState)
v9_data_records zero i key ref tpl set clock at dst s = some (dst, s)
v9_data_records (suc n) i key ref tpl set clock at dst s =
    slice set (i * tpl.record_len) (i * tpl.record_len + tpl.record_len) >>= λ bytes.
    v9_data_record key ref tpl bytes clock at dst s >>= λ p.
    v9_data_records n (suc i) key ref tpl set clock at p.0 p.1

abbrev pub complain : DomainKey → List Record → DecoderState → Reason → List Record × DecoderState
complain key dst s reason = (dst, issue key.proto key.exporter reason s)

-- What `decodeV9DataSet` does with the template that it found.
unfoldable pub v9_data_set_of :
    Template
    → DomainKey
    → TemplateRef
    → List ℕ
    → ExportClock
    → Time
    → List Record
    → DecoderState
    → Option (List Record × DecoderState)
v9_data_set_of tpl key ref set clock at dst s =
    if tpl.has_variable
    then some (complain key dst s invalid_template)
    else if nat_eqb tpl.record_len 0
    then none
    else if nat_eqb (length set / tpl.record_len) 0
    then some (complain key dst s malformed)
    else v9_data_records (length set / tpl.record_len) 0 key ref tpl set clock at dst s

-- `decodeV9DataSet`
unfoldable pub decode_v9_data_set :
    DomainKey
    → ℕ
    → ℕ
    → List ℕ
    → ExportClock
    → Time
    → List Record
    → DecoderState
    → Option (List Record × DecoderState)
decode_v9_data_set key port set_id set clock at dst s =
    let ref : TemplateRef = record { port = port; id = set_id } in
    let (store, found) = store_lookup key ref at s.templates in
    let s' : DecoderState = record s { templates = store } in
    elim found [
      | none ↦ some (complain key dst s' missing_template)
      | some tpl ↦ v9_data_set_of tpl key ref set clock at dst s'
    ]
