-- ===== src/Decoder/TemplateSets.antt =====
-- internal/decoder/ipfix.go: the IPFIX sets that announce templates, and one field's value. A read
-- outside a slice is a panic, `none`; so is fuel that runs out.
pub mod Compiling
use xflow_exporter.Common.{
  ℕ, zero, suc, ◌+◌, ◌-◌, ◌%◌, ◌^◌, Bool, true, false, not, ◌&&◌, ◌||◌, Option, none, some, List,
  [], ◌∷◌, if◌then◌else◌, ltb, leb, nat_eqb, length,
}
use xflow_exporter.Common.Bytes.{u8_at, be16_at, be32_at, slice, ◌>>=◌}
use xflow_exporter.Decoder.Domain.{Template, TemplateField}

abbrev pub min_data_set_id : ℕ
min_data_set_id = 256

abbrev pub variable_field_length : ℕ
variable_field_length = 65535

abbrev pub has_enterprise : ℕ → Bool
has_enterprise field_type = leb (2 ^ 15) field_type

-- A value of a given length at an offset, `some none` where the set does not hold it.
unfoldable pub value_at : List ℕ → ℕ → ℕ → Option (Option (List ℕ × ℕ))
value_at set offset size =
    if ltb (length set) (offset + size)
    then some none
    else slice set offset (offset + size) >>= λ value. some (some (value, offset + size))

-- `nextFieldValue`: the value and the offset past it; `some none` is its `false`.
unfoldable pub next_field_value : TemplateField → List ℕ → ℕ → Option (Option (List ℕ × ℕ))
next_field_value f set offset =
    if not (nat_eqb f.length variable_field_length)
    then value_at set offset f.length
    else if leb (length set) offset
    then some none
    else u8_at set offset >>= λ short.
        if not (nat_eqb short 255)
        then value_at set (offset + 1) short
        else if ltb (length set) (offset + 3)
        then some none
        else be16_at set (offset + 1) >>= λ long. value_at set (offset + 3) long

-- What `parseIPFIXFieldSpecs` reads: the fields, the least length of a record, whether one varies, and
-- the offset past the specifiers.
pub record Specs : Type 0 where
  pub fields : List TemplateField
  pub min_len : ℕ
  pub has_variable : Bool
  pub next : ℕ

-- A field in front of the others.
unfoldable pub add_spec : TemplateField → Specs → Specs
add_spec f specs =
    if nat_eqb f.length variable_field_length
    then record specs {
      fields = f ∷ specs.fields;
      min_len = 1 + specs.min_len;
      has_variable = true;
    }
    else record specs { fields = f ∷ specs.fields; min_len = f.length + specs.min_len }

abbrev pub with_spec : TemplateField → Option Specs → Option Specs
with_spec f none = none
with_spec f (some specs) = some (add_spec f specs)

-- `parseIPFIXFieldSpecs`; `some none` is its `false`.
unfoldable pub ipfix_specs : List ℕ → ℕ → ℕ → Option (Option Specs)
ipfix_specs set offset zero =
    some (some (record { fields = []; min_len = 0; has_variable = false; next = offset }))
ipfix_specs set offset (suc n) = elim (ltb (length set) (offset + 4)) [
  | true ↦ some none
  | false ↦ be16_at set offset >>= λ field_type. be16_at set (offset + 2) >>= λ width.
      elim (has_enterprise field_type) [
        | false ↦ elim (nat_eqb width 0) [
          | true ↦ some none
          | false ↦ ipfix_specs set (offset + 4) n >>= λ rest.
              some (
                with_spec (record { field_type = field_type; length = width; enterprise = 0 }) rest)
        ]
        | true ↦ elim (ltb (length set) (offset + 8)) [
          | true ↦ some none
          | false ↦ be32_at set (offset + 4) >>= λ enterprise. elim (nat_eqb width 0) [
            | true ↦ some none
            | false ↦ ipfix_specs set (offset + 8) n >>= λ rest. some (
                with_spec
                  (record {
                    field_type = field_type % 2 ^ 15;
                    length = width;
                    enterprise = enterprise;
                  })
                  rest)
          ]
        ]
      ]
]

-- `skipIPFIXFieldSpecs`
unfoldable pub skip_specs : List ℕ → ℕ → ℕ → Option ℕ
skip_specs set offset zero = some offset
skip_specs set offset (suc n) = elim (ltb (length set) (offset + 4)) [
  | true ↦ some (offset + 4)
  | false ↦ be16_at set offset >>= λ field_type.
      skip_specs set (if has_enterprise field_type then offset + 8 else offset + 4) n
]

abbrev pub compiled : Bool → ℕ → Specs → Template
compiled options scope_count specs = record {
  fields = specs.fields;
  record_len = specs.min_len;
  has_variable = specs.has_variable;
  scope_count = scope_count;
  options = options;
  refreshed_at = 0;
  noted = false;
}

-- The template of a list of specifiers and where the walk resumes, past them either way.
abbrev pub read_or_skip : Bool → ℕ → List ℕ → ℕ → ℕ → Option Specs → Option (Option Template × ℕ)
read_or_skip options scope_count set offset count none =
    skip_specs set offset count >>= λ next. some (none, next)
read_or_skip options scope_count set offset count (some specs) =
    some (some (compiled options scope_count specs), specs.next)

-- One announcement behind its head: refused out of hand, or read.
unfoldable pub ipfix_announcement : Bool → Bool → ℕ → List ℕ → ℕ → ℕ → Option (Option Template × ℕ)
ipfix_announcement refused options scope_count set offset count =
    if refused
    then read_or_skip options scope_count set offset count none
    else ipfix_specs set offset count >>= λ specs.
        read_or_skip options scope_count set offset count specs

-- The walks hand each template to a `register` of their caller, with the state that it changes.
module _ {S : Type 0} (register : ℕ → Option Template → S → S) (max_fields : ℕ) where
  -- The loop of `parseIPFIXTemplates` from an offset on.
  unfoldable pub ipfix_templates : ℕ → List ℕ → ℕ → S → Option S
  ipfix_templates zero set offset s = none
  ipfix_templates (suc fuel) set offset s = elim (leb (offset + 4) (length set)) [
    | false ↦ some s
    | true ↦ be16_at set offset >>= λ id. be16_at set (offset + 2) >>= λ count.
        elim (nat_eqb count 0) [
          | true ↦ ipfix_templates fuel set (offset + 4) s
          | false ↦
              ipfix_announcement (ltb id min_data_set_id || ltb max_fields count) false 0 set
                (offset + 4) count
              >>= λ read. ipfix_templates fuel set read.1 (register id read.0 s)
        ]
  ]

  -- `parseIPFIXTemplates`
  unfoldable pub parse_ipfix_templates : List ℕ → S → Option S
  parse_ipfix_templates set s = ipfix_templates (suc (length set)) set 0 s

  -- The loop of `parseIPFIXOptionsTemplates` from an offset on.
  unfoldable pub ipfix_options_templates : ℕ → List ℕ → ℕ → S → Option S
  ipfix_options_templates zero set offset s = none
  ipfix_options_templates (suc fuel) set offset s = elim (leb (offset + 4) (length set)) [
    | false ↦ some s
    | true ↦ be16_at set offset >>= λ id. be16_at set (offset + 2) >>= λ count.
        elim (nat_eqb count 0) [
          | true ↦ ipfix_options_templates fuel set (offset + 4) s
          | false ↦ elim (ltb (length set) (offset + 6)) [
            | true ↦ some s
            | false ↦ be16_at set (offset + 4) >>= λ scope_count.
                ipfix_announcement
                  (ltb id min_data_set_id
                    || ltb scope_count 1
                    || ltb count scope_count
                    || ltb max_fields count)
                  true scope_count set (offset + 6) count
                >>= λ read. ipfix_options_templates fuel set read.1 (register id read.0 s)
          ]
        ]
  ]

  -- `parseIPFIXOptionsTemplates`
  unfoldable pub parse_ipfix_options_templates : List ℕ → S → Option S
  parse_ipfix_options_templates set s = ipfix_options_templates (suc (length set)) set 0 s
