-- ===== src/Decoder/TemplateFlowSets.antt =====
-- internal/decoder/netflow9.go: the flowsets that announce templates. A read outside a slice is a
-- panic, `none`; so is fuel that runs out.
pub mod Announcing
use xflow_exporter.Common.{
  ℕ, zero, suc, ◌+◌, ◌-◌, ◌*◌, ◌/◌, ◌%◌, Bool, true, false, not, ◌&&◌, ◌||◌, Option, none, some,
  List, [], ◌∷◌, ◌++◌, if◌then◌else◌, ltb, leb, nat_eqb, length, lookup, insert,
}
use xflow_exporter.Common.Bytes.{be16_at, be32_at, slice, ◌>>=◌}
use xflow_exporter.Flow.{Addr, Record, zero_record, netflow_v9, Time, unix}
use xflow_exporter.Decoder.Reason.{
  Reason, Result, ok, err, malformed, missing_template, invalid_template, reserved_set,
  domain_limit,
}
use xflow_exporter.Decoder.Clock.{ExportClock}
use xflow_exporter.Decoder.Domain.{DomainKey, Template, TemplateField, TemplateRef, domain_key_eq}
use xflow_exporter.Decoder.Sequence.{track_sequence}
use xflow_exporter.Decoder.Store.{Store, domain, store_lookup}
use xflow_exporter.Decoder.Accounting.{Link, link, write_back}
use xflow_exporter.Decoder.Apps.{AppTables, resolve_application}
use xflow_exporter.Decoder.State.{DecoderState, issue}
use xflow_exporter.Decoder.Fields.{FieldState, fresh_fields, apply_field}
use xflow_exporter.Decoder.Finish.{finish_record}
use xflow_exporter.Decoder.Options.{OptionsState, no_options, apply_option, apply_v9_scope, commit}
use xflow_exporter.Decoder.Register.{register_template, fixed_record_len}

abbrev pub v9_min_data_set_id : ℕ
v9_min_data_set_id = 256

abbrev pub more_fields : TemplateField → Option (List TemplateField) → Option (List TemplateField)
more_fields f none = none
more_fields f (some rest) = some (f ∷ rest)

-- The loop over the specifiers, from the field `i` on: `some none` where a field behind the scopes is
-- of no width. The data templates have no scopes.
unfoldable pub v9_specs : List ℕ → ℕ → ℕ → ℕ → ℕ → Option (Option (List TemplateField))
v9_specs set offset scope_count i zero = some (some [])
v9_specs set offset scope_count i (suc n) = be16_at set (offset + i * 4) >>= λ field_type.
    be16_at set (offset + i * 4 + 2) >>= λ width. elim (nat_eqb width 0 && leb scope_count i) [
      | true ↦ some none
      | false ↦ v9_specs set offset scope_count (suc i) n >>= λ rest.
          some
            (more_fields (record { field_type = field_type; length = width; enterprise = 0 }) rest)
    ]

-- `parseV9FieldSpecs`: the fields, `none` where it refuses them, and where the walk resumes.
unfoldable pub parse_v9_field_specs :
    List ℕ → ℕ → ℕ → ℕ → ℕ → Option (Option (List TemplateField) × ℕ)
parse_v9_field_specs set offset template_id field_count max_fields =
    let next = offset + field_count * 4 in
    if ltb field_count 1
    then some (none, length set)
    else if ltb template_id v9_min_data_set_id
        || ltb max_fields field_count
        || ltb (length set) next
    then some (none, next)
    else v9_specs set offset 0 0 field_count >>= λ fields. some (fields, next)

abbrev pub data_template : Option (List TemplateField) → Option Template
data_template none = none
data_template (some fields) = some (record {
  fields = fields;
  record_len = fixed_record_len fields;
  has_variable = false;
  scope_count = 0;
  options = false;
  refreshed_at = 0;
  noted = false;
})

abbrev pub options_template : ℕ → Option (List TemplateField) → Option Template
options_template scope_count none = none
options_template scope_count (some fields) = some (record {
  fields = fields;
  record_len = fixed_record_len fields;
  has_variable = false;
  scope_count = scope_count;
  options = true;
  refreshed_at = 0;
  noted = false;
})

-- The loop of `parseV9Templates` from an offset on.
unfoldable pub v9_templates :
    ℕ → DomainKey → ℕ → List ℕ → ℕ → Time → DecoderState → Option DecoderState
v9_templates zero key port set offset at s = none
v9_templates (suc fuel) key port set offset at s = elim (leb (offset + 4) (length set)) [
  | false ↦ some s
  | true ↦ be16_at set offset >>= λ id. be16_at set (offset + 2) >>= λ field_count.
      parse_v9_field_specs set (offset + 4) id field_count s.templates.max_fields >>= λ parsed.
      v9_templates fuel key port set parsed.1 at
        (register_template key (record { port = port; id = id }) (data_template parsed.0) at s)
]

-- `parseV9Templates`
unfoldable pub parse_v9_templates :
    DomainKey → ℕ → List ℕ → Time → DecoderState → Option DecoderState
parse_v9_templates key port set at s = v9_templates (suc (length set)) key port set 0 at s

-- The loop of `parseV9OptionsTemplates` from an offset on.
unfoldable pub v9_options_templates :
    ℕ → DomainKey → ℕ → List ℕ → ℕ → Time → DecoderState → Option DecoderState
v9_options_templates zero key port set offset at s = none
v9_options_templates (suc fuel) key port set offset at s = elim (leb (offset + 6) (length set)) [
  | false ↦ some s
  | true ↦ be16_at set offset >>= λ id. be16_at set (offset + 2) >>= λ scope_bytes.
      be16_at set (offset + 4) >>= λ option_bytes.
      let ref : TemplateRef = record { port = port; id = id } in
      let scope_count = scope_bytes / 4 in
      let field_count = scope_count + option_bytes / 4 in
      let next = offset + 6 + field_count * 4 in
      elim (not (nat_eqb (scope_bytes % 4) 0)
        || not (nat_eqb (option_bytes % 4) 0)
        || ltb field_count 1) [
          | true ↦ some (register_template key ref none at s)
          | false ↦
              elim (ltb id v9_min_data_set_id
                || ltb s.templates.max_fields field_count
                || ltb (length set) next) [
                  | true ↦
                      v9_options_templates fuel key port set next at
                        (register_template key ref none at s)
                  | false ↦ v9_specs set (offset + 6) scope_count 0 field_count >>= λ fields.
                      v9_options_templates fuel key port set next at
                        (register_template key ref (options_template scope_count fields) at s)
                ]
        ]
]

-- `parseV9OptionsTemplates`
unfoldable pub parse_v9_options_templates :
    DomainKey → ℕ → List ℕ → Time → DecoderState → Option DecoderState
parse_v9_options_templates key port set at s =
    v9_options_templates (suc (length set)) key port set 0 at s
