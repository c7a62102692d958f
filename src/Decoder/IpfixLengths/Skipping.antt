-- ===== src/Decoder/IpfixLengths/Skipping.antt =====
-- The records of a data set are stepped over to an end, internal/decoder/ipfix.go.
use xflow_exporter.Common.{
  ℕ, zero, suc, ◌+◌, ◌≤◌, ◌<◌, ◌≡◌, refl, Bool, true, false, not, Option, none, some, List, [], ◌∷◌,
  leb, ltb, nat_eq, length, Bool-cases, Option-cases, inl, inr, arith,
}
use xflow_exporter.Decoder.Domain.{Template, TemplateField}
use xflow_exporter.Decoder.Register.{fixed_record_len}
use xflow_exporter.Decoder.Soundness.{is_walkable, least_record_len}
use xflow_exporter.Decoder.TemplateSets.Compiling.{IsFurther, next_field_value_ends, least_len}
use xflow_exporter.Decoder.IpfixLengths.{skip_fields, whole_records, holds_records}

-- The fields of a record that takes a byte take one each way that they are read.
pub least_positive :
    (fields : List TemplateField) → 0 < fixed_record_len fields → 0 < least_record_len fields
unfolding fixed_record_len least_record_len
least_positive [] h = h
least_positive (f ∷ rest) h = ground (arith, least_positive rest)

pub walkable_progress : (tpl : Template) → is_walkable tpl ≡ true → 0 < least_record_len tpl.fields
walkable_progress tpl h = elim (Bool-cases tpl.has_variable) [
  | inl varies ↦ ground arith
  | inr fixed ↦ least_positive tpl.fields (ground arith)
]

abbrev IsPast : ℕ → Option ℕ → Type 0
IsPast from none = Unit {0}
IsPast from (some next) = from ≤ next

skip_fields_ends :
    (fields : List TemplateField) (set : List ℕ) (offset : ℕ)
    → (found : Option ℕ) × (skip_fields fields set offset ≡ some found)
      × IsPast (offset + least_record_len fields) found
unfolding skip_fields least_record_len
skip_fields_ends [] set offset = (some offset, refl, omega arith)
skip_fields_ends (f ∷ rest) set offset =
    let (found, ends, further) = next_field_value_ends f set offset in
    elim (Option-cases found) [
      | inl cut ↦ rw (skip_fields, ends, cut) (none, refl, tt)
      | inr ((value, next), held) ↦
          let on : IsFurther set (offset + least_len f) (some (value, next)) =
            rw (held) at further in
          let (past, ends', behind) = skip_fields_ends rest set next in
          rw (skip_fields, ends, held, ends')
            (
              past,
              refl,
              past_of (offset + least_record_len (f ∷ rest)) (next + least_record_len rest) past
                  (ground (arith, on.0)) behind,
            )
    ]
  where
    past_of :
        (from from' : ℕ) (found : Option ℕ) → from ≤ from' → IsPast from' found → IsPast from found
    past_of from from' none h p = tt
    past_of from from' (some next) h p = omega (arith, h, p)

whole_records_ends :
    (fuel : ℕ) (tpl : Template) (set : List ℕ) (offset : ℕ)
    → is_walkable tpl ≡ true
    → 0 < fuel
    → length set < offset + fuel
    → (whole : Bool) × (whole_records fuel tpl set offset ≡ some whole)
unfolding whole_records
whole_records_ends zero tpl set offset walkable h enough = ground arith
whole_records_ends (suc fuel) tpl set offset walkable h enough =
    elim (Bool-cases (leb (offset + tpl.record_len) (length set))) [
      | inr done ↦ rw (whole_records, done) (true, refl)
      | inl more ↦
          let (found, ends, past) = skip_fields_ends tpl.fields set offset in
          elim (Option-cases found) [
            | inl cut ↦ rw (whole_records, more, ends, cut) (false, refl)
            | inr (next, held) ↦
                let on : offset + least_record_len tpl.fields ≤ next = rw (held) at past in
                rw (whole_records, more, ends, held)
                  (whole_records_ends fuel tpl set next walkable (ground arith)
                    (omega (arith, walkable_progress tpl walkable)))
          ]
    ]

pub holds_records_ends :
    (tpl : Template) (set : List ℕ)
    → is_walkable tpl ≡ true
    → (whole : Bool) × (holds_records tpl set ≡ some whole)
unfolding holds_records
holds_records_ends tpl set walkable = elim (Bool-cases (ltb (length set) tpl.record_len)) [
  | inl short ↦ rw (holds_records, short) (false, refl)
  | inr filled ↦ elim (Bool-cases (not tpl.has_variable)) [
    | inl fixed ↦ rw (holds_records, filled, fixed) (true, refl)
    | inr varies ↦
        let (whole, ends) =
          whole_records_ends (suc (length set)) tpl set 0 walkable (omega arith) (omega arith) in
        rw (holds_records, filled, ends, varies) (whole, refl)
  ]
]
