-- ===== src/Decoder/TemplateFlowSets/Announcing.antt =====
-- The walks over the template flowsets of internal/decoder/netflow9.go end, whatever bytes a flowset
-- holds.
use xflow_exporter.Common.{
  ℕ, zero, suc, ◌+◌, ◌*◌, ◌/◌, ◌%◌, ◌≤◌, ◌<◌, ◌≡◌, refl, not, ◌&&◌, ◌||◌, Option, none, some, List,
  leb, ltb, nat_eqb, length, Bool-cases, inl, inr, arith, leb→le,
}
use xflow_exporter.Common.Bytes.{◌>>=◌, be16_at-inside, word16}
use xflow_exporter.Flow.{Time}
use xflow_exporter.Decoder.Domain.{DomainKey, TemplateField, TemplateRef}
use xflow_exporter.Decoder.State.{DecoderState}
use xflow_exporter.Decoder.Register.{register_template}
use xflow_exporter.Decoder.Soundness.{IsReady}
use xflow_exporter.Decoder.Soundness.Registering.{IsReady-register, IsReady-unregister}
use xflow_exporter.Decoder.TemplateFlowSets.{
  v9_specs, parse_v9_field_specs, data_template, options_template, v9_templates, parse_v9_templates,
  v9_options_templates, parse_v9_options_templates, v9_min_data_set_id,
}

v9_specs_ends :
    (set : List ℕ) (offset scopes i n : ℕ)
    → offset + (i + n) * 4 ≤ length set
    → (fields : Option (List TemplateField)) × (v9_specs set offset scopes i n ≡ some fields)
unfolding v9_specs
v9_specs_ends set offset scopes i zero h = (_, refl)
v9_specs_ends set offset scopes i (suc n) h =
    let kind = be16_at-inside set (offset + i * 4) (omega (arith, h)) in
    let width = be16_at-inside set (offset + i * 4 + 2) (omega (arith, h)) in
    let (rest, ends) = v9_specs_ends set offset scopes (suc i) n (omega (arith, h)) in
    elim (Bool-cases (nat_eqb (word16 set (offset + i * 4 + 2)) 0 && leb scopes i)) [
      | inl empty ↦ rw (v9_specs, kind, width) (rw (◌>>=◌, empty) (none, refl))
      | inr wide ↦ rw (v9_specs, kind, width) (rw (◌>>=◌, wide, ends) (_, refl))
    ]

parse_v9_field_specs_ends :
    (set : List ℕ) (offset id count most : ℕ)
    → offset ≤ length set
    → (fields : Option (List TemplateField)) × (next : ℕ) × (parse_v9_field_specs set offset id
          count most
        ≡ some (fields, next))
      × (offset ≤ next)
unfolding parse_v9_field_specs
parse_v9_field_specs_ends set offset id count most h = elim (Bool-cases (ltb count 1)) [
  | inl empty ↦ rw (parse_v9_field_specs, empty) (none, length set, refl, h)
  | inr some_fields ↦
      elim (Bool-cases
        (ltb id v9_min_data_set_id || ltb most count || ltb (length set) (offset + count * 4))) [
          | inl refused ↦
              rw (parse_v9_field_specs, some_fields, refused)
                (none, offset + count * 4, refl, omega arith)
          | inr fine ↦
              let (fields, ends) = v9_specs_ends set offset 0 0 count (ground arith) in
              rw (parse_v9_field_specs, some_fields, fine, ends)
                (fields, offset + count * 4, refl, omega arith)
        ]
]

-- The step ends, and leaves the parser what it relies on.
abbrev pub Ends : DomainKey → Option DecoderState → Type 0
Ends key step = (s' : DecoderState) × (step ≡ some s') × IsReady key s'.templates

registered :
    (key : DomainKey) (ref : TemplateRef) (fields : Option (List TemplateField)) (at : Time)
    (s : DecoderState)
    → IsReady key s.templates
    → IsReady key (register_template key ref (data_template fields) at s).templates
registered key ref none at s ready = IsReady-unregister key ref at s ready
registered key ref (some fields) at s ready = IsReady-register key ref _ at s (ground arith) ready

options_registered :
    (key : DomainKey) (ref : TemplateRef) (scopes : ℕ) (fields : Option (List TemplateField))
    (at : Time) (s : DecoderState)
    → IsReady key s.templates
    → IsReady key (register_template key ref (options_template scopes fields) at s).templates
options_registered key ref scopes none at s ready = IsReady-unregister key ref at s ready
options_registered key ref scopes (some fields) at s ready =
    IsReady-register key ref _ at s (ground arith) ready

v9_templates-Ends :
    (fuel : ℕ) (key : DomainKey) (port : ℕ) (set : List ℕ) (offset : ℕ) (at : Time)
    (s : DecoderState)
    → 0 < fuel
    → length set < offset + fuel
    → IsReady key s.templates
    → Ends key (v9_templates fuel key port set offset at s)
unfolding v9_templates
v9_templates-Ends zero key port set offset at s h enough ready = ground arith
v9_templates-Ends (suc fuel) key port set offset at s h enough ready =
    elim (Bool-cases (leb (offset + 4) (length set))) [
      | inr done ↦ rw (v9_templates, done) (s, refl, ready)
      | inl more ↦
          let le = leb→le (offset + 4) (length set) more in
          let id = be16_at-inside set offset (omega (arith, le)) in
          let count = be16_at-inside set (offset + 2) (omega (arith, le)) in
          let (fields, next, ends, ahead) =
            parse_v9_field_specs_ends set (offset + 4) (word16 set offset) (word16 set (offset + 2))
              s.templates.max_fields le in
          rw (v9_templates, more, id, count, ends)
            (v9_templates-Ends fuel key port set next at _ (omega arith) (omega arith)
              (registered key _ fields at s ready))
    ]

-- A template flowset is read to its end without a panic.
pub parse_v9_templates-Ends :
    (key : DomainKey) (port : ℕ) (set : List ℕ) (at : Time) (s : DecoderState)
    → IsReady key s.templates
    → Ends key (parse_v9_templates key port set at s)
unfolding parse_v9_templates
parse_v9_templates-Ends key port set at s ready =
    v9_templates-Ends (suc (length set)) key port set 0 at s (omega arith) (omega arith) ready

v9_options_templates-Ends :
    (fuel : ℕ) (key : DomainKey) (port : ℕ) (set : List ℕ) (offset : ℕ) (at : Time)
    (s : DecoderState)
    → 0 < fuel
    → length set < offset + fuel
    → IsReady key s.templates
    → Ends key (v9_options_templates fuel key port set offset at s)
unfolding v9_options_templates
v9_options_templates-Ends zero key port set offset at s h enough ready = ground arith
v9_options_templates-Ends (suc fuel) key port set offset at s h enough ready =
    elim (Bool-cases (leb (offset + 6) (length set))) [
      | inr done ↦ rw (v9_options_templates, done) (s, refl, ready)
      | inl more ↦
          let le = leb→le (offset + 6) (length set) more in
          let id = be16_at-inside set offset (omega (arith, le)) in
          let scope = be16_at-inside set (offset + 2) (omega (arith, le)) in
          let option = be16_at-inside set (offset + 4) (omega (arith, le)) in
          let ref : TemplateRef = record { port = port; id = word16 set offset } in
          let scope_bytes = word16 set (offset + 2) in
          let option_bytes = word16 set (offset + 4) in
          let count = scope_bytes / 4 + option_bytes / 4 in
          let without = IsReady-unregister key ref at s ready in
          elim (Bool-cases (
            not (nat_eqb (scope_bytes % 4) 0)
            || not (nat_eqb (option_bytes % 4) 0)
            || ltb count 1)) [
              | inl split ↦
                  rw (v9_options_templates, more, id, scope, option)
                    (rw (◌>>=◌, split) (_, refl, without))
              | inr whole ↦
                  elim (Bool-cases (
                    ltb (word16 set offset) v9_min_data_set_id
                    || ltb s.templates.max_fields count
                    || ltb (length set) (offset + 6 + count * 4))) [
                      | inl refused ↦
                          rw (v9_options_templates, more, id, scope, option)
                            (rw (◌>>=◌, whole, refused)
                              (v9_options_templates-Ends fuel key port set (offset + 6 + count * 4)
                                at _ (omega arith) (omega arith) without))
                      | inr fine ↦
                          let (fields, ends) =
                            v9_specs_ends set (offset + 6) (scope_bytes / 4) 0 count
                              (ground arith) in
                          rw (v9_options_templates, more, id, scope, option)
                            (rw (◌>>=◌, whole, fine, ends)
                              (v9_options_templates-Ends fuel key port set (offset + 6 + count * 4)
                                at _ (omega arith) (omega arith)
                                (options_registered key ref (scope_bytes / 4) fields at s ready)))
                    ]
            ]
    ]

-- An options template flowset is read to its end without a panic.
pub parse_v9_options_templates-Ends :
    (key : DomainKey) (port : ℕ) (set : List ℕ) (at : Time) (s : DecoderState)
    → IsReady key s.templates
    → Ends key (parse_v9_options_templates key port set at s)
unfolding parse_v9_options_templates
parse_v9_options_templates-Ends key port set at s ready =
    v9_options_templates-Ends (suc (length set)) key port set 0 at s (omega arith) (omega arith)
      ready
