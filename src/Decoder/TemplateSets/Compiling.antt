-- ===== src/Decoder/TemplateSets/Compiling.antt =====
-- The walks over the template sets of internal/decoder/ipfix.go end, whatever bytes a set holds.
use xflow_exporter.Common.{
  ℕ, zero, suc, ◌+◌, ◌≤◌, ◌<◌, ◌≡◌, refl, Bool, true, false, ◌||◌, Option, none, some, List,
  if◌then◌else◌, leb, ltb, nat_eqb, length, Bool-cases, inl, inr, arith, leb→le,
}
use xflow_exporter.Common.Bytes.{
  u8_at-inside, be16_at-inside, be32_at-inside, slice-inside, word16, byte_or, ◌>>=◌,
}
use xflow_exporter.Decoder.Domain.{Template, TemplateField}
use xflow_exporter.Decoder.Register.{fixed_record_len}
use xflow_exporter.Decoder.Soundness.{is_measured, least_record_len}
use xflow_exporter.Decoder.TemplateSets.{
  value_at, next_field_value, Specs, add_spec, with_spec, ipfix_specs, skip_specs, read_or_skip,
  ipfix_announcement, ipfix_templates, parse_ipfix_templates, ipfix_options_templates,
  parse_ipfix_options_templates, has_enterprise, min_data_set_id,
}

-- A value, where there is one, ends inside the set and no less than so many bytes on.
abbrev pub IsFurther : List ℕ → ℕ → Option (List ℕ × ℕ) → Type 0
IsFurther set from none = Unit {0}
IsFurther set from (some (value, next)) = (from ≤ next) × (next ≤ length set)

-- The least that one field takes.
abbrev pub least_len : TemplateField → ℕ
least_len f = if nat_eqb f.length 65535 then 1 else f.length

value_at_ends :
    (set : List ℕ) (from offset size : ℕ)
    → from ≤ offset + size
    → (found : Option (List ℕ × ℕ)) × (value_at set offset size ≡ some found)
      × IsFurther set from found
unfolding value_at
value_at_ends set from offset size h = elim (Bool-cases (ltb (length set) (offset + size))) [
  | inl past ↦ rw (value_at, past) (none, refl, tt)
  | inr held ↦
      rw (value_at, held, slice-inside set offset (offset + size) (omega arith) (ground arith))
        (_, refl, (omega (arith, h), ground arith))
]

-- One field's value is read without a panic, and ends inside the set and at least so far on as the
-- field takes.
pub next_field_value_ends :
    (f : TemplateField) (set : List ℕ) (offset : ℕ)
    → (found : Option (List ℕ × ℕ)) × (next_field_value f set offset ≡ some found)
      × IsFurther set (offset + least_len f) found
unfolding next_field_value
next_field_value_ends f set offset = elim (Bool-cases (nat_eqb f.length 65535)) [
  | inr fixed ↦
      rw (next_field_value, fixed)
        (value_at_ends set (offset + f.length) offset f.length (omega arith))
  | inl varies ↦ elim (Bool-cases (leb (length set) offset)) [
    | inl past ↦ rw (next_field_value, varies, past) (none, refl, tt)
    | inr inside ↦
        let first = u8_at-inside set offset (ground arith) in
        elim (Bool-cases (nat_eqb (byte_or set offset) 255)) [
          | inr short ↦
              rw (next_field_value, varies, inside, first, short)
                (value_at_ends set (offset + 1) (offset + 1) (byte_or set offset) (omega arith))
          | inl long ↦ elim (Bool-cases (ltb (length set) (offset + 3))) [
            | inl cut ↦ rw (next_field_value, varies, inside, first, long, cut) (none, refl, tt)
            | inr held ↦
                let size = be16_at-inside set (offset + 1) (ground arith) in
                rw (next_field_value, varies, inside, first, long, held, size)
                  (value_at_ends set (offset + 1) (offset + 3) (word16 set (offset + 1))
                    (omega arith))
          ]
        ]
  ]
]

-- A layout, where there is one, whose least length is the sum of its fields where none varies.
abbrev pub is_measured_if_any : Option Template → Bool
is_measured_if_any none = true
is_measured_if_any (some t) = is_measured t

-- Specifiers that were read end behind where they begin and are measured.
abbrev IsCompiled : ℕ → Option Specs → Type 0
IsCompiled offset none = Unit {0}
IsCompiled offset (some specs) =
    (offset ≤ specs.next)
    × (specs.min_len ≡ least_record_len specs.fields)
    × ((specs.has_variable || nat_eqb specs.min_len (fixed_record_len specs.fields)) ≡ true)

IsCompiled-with_spec :
    (f : TemplateField) (from offset : ℕ) (specs : Option Specs)
    → from ≤ offset
    → IsCompiled offset specs
    → IsCompiled from (with_spec f specs)
unfolding add_spec fixed_record_len least_record_len
IsCompiled-with_spec f from offset none h c = tt
IsCompiled-with_spec f from offset (some specs) h (ahead, least, fixed) =
    elim (Bool-cases (nat_eqb f.length 65535)) [
      | inl varies ↦ rw (varies) (omega (arith, h, ahead), ground (arith, least), refl)
      | inr set_width ↦
          rw (set_width) (omega (arith, h, ahead), ground (arith, least), ground (arith, fixed))
    ]

ipfix_specs_ends :
    (set : List ℕ) (offset n : ℕ)
    → (specs : Option Specs) × (ipfix_specs set offset n ≡ some specs) × IsCompiled offset specs
unfolding ipfix_specs fixed_record_len least_record_len
ipfix_specs_ends set offset zero = (_, refl, (omega arith, refl, ground arith))
ipfix_specs_ends set offset (suc n) = elim (Bool-cases (ltb (length set) (offset + 4))) [
  | inl past ↦ rw (ipfix_specs, past) (none, refl, tt)
  | inr head ↦
      let kind = be16_at-inside set offset (ground arith) in
      let width = be16_at-inside set (offset + 2) (ground arith) in
      elim (Bool-cases (has_enterprise (word16 set offset))) [
        | inr iana ↦ elim (Bool-cases (nat_eqb (word16 set (offset + 2)) 0)) [
          | inl empty ↦
              rw (ipfix_specs, head, kind, width) (rw (◌>>=◌, iana, empty) (none, refl, tt))
          | inr wide ↦
              let (rest, ends, c) = ipfix_specs_ends set (offset + 4) n in
              rw (ipfix_specs, head, kind, width)
                (rw (◌>>=◌, iana, wide, ends)
                  (_, refl, IsCompiled-with_spec _ offset (offset + 4) rest (omega arith) c))
        ]
        | inl private ↦ elim (Bool-cases (ltb (length set) (offset + 8))) [
          | inl cut ↦
              rw (ipfix_specs, head, kind, width) (rw (◌>>=◌, private, cut) (none, refl, tt))
          | inr held ↦
              let number = be32_at-inside set (offset + 4) (ground arith) in
              elim (Bool-cases (nat_eqb (word16 set (offset + 2)) 0)) [
                | inl empty ↦
                    rw (ipfix_specs, head, kind, width)
                      (rw (◌>>=◌, private, held, number) (rw (◌>>=◌, empty) (none, refl, tt)))
                | inr wide ↦
                    let (rest, ends, c) = ipfix_specs_ends set (offset + 8) n in
                    rw (ipfix_specs, head, kind, width)
                      (rw (◌>>=◌, private, held, number)
                        (rw (◌>>=◌, wide, ends)
                          (
                            _,
                            refl,
                            IsCompiled-with_spec _ offset (offset + 8) rest (omega arith) c,
                          )))
              ]
        ]
      ]
]

skip_specs_ends :
    (set : List ℕ) (offset n : ℕ)
    → (next : ℕ) × (skip_specs set offset n ≡ some next) × (offset ≤ next)
unfolding skip_specs
skip_specs_ends set offset zero = (offset, refl, omega arith)
skip_specs_ends set offset (suc n) = elim (Bool-cases (ltb (length set) (offset + 4))) [
  | inl past ↦ rw (skip_specs, past) (offset + 4, refl, omega arith)
  | inr head ↦
      let kind = be16_at-inside set offset (ground arith) in
      let past = if has_enterprise (word16 set offset) then offset + 8 else offset + 4 in
      let (next, ends, ahead) = skip_specs_ends set past n in
      rw (skip_specs, head, kind) (rw (◌>>=◌, ends) (next, refl, ground (arith, ahead)))
]

-- An announcement is read or skipped, its walk resumes behind it, and a layout that it states is
-- measured.
abbrev IsRead : ℕ → Option (Option Template × ℕ) → Type 0
IsRead offset step =
    (t : Option Template) × (next : ℕ) × (step ≡ some (t, next))
    × (offset ≤ next)
    × (is_measured_if_any t ≡ true)

IsRead-read_or_skip :
    (options : Bool) (scopes : ℕ) (set : List ℕ) (offset count : ℕ) (specs : Option Specs)
    → IsCompiled offset specs
    → IsRead offset (read_or_skip options scopes set offset count specs)
IsRead-read_or_skip options scopes set offset count none c =
    let (next, ends, ahead) = skip_specs_ends set offset count in
    rw (ends) (none, next, refl, ahead, refl)
IsRead-read_or_skip options scopes set offset count (some specs) (ahead, least, fixed) =
    (_, _, refl, ahead, ground (arith, least, fixed))

IsRead-announcement :
    (refused options : Bool) (scopes : ℕ) (set : List ℕ) (offset count : ℕ)
    → IsRead offset (ipfix_announcement refused options scopes set offset count)
unfolding ipfix_announcement
IsRead-announcement true options scopes set offset count =
    IsRead-read_or_skip options scopes set offset count none tt
IsRead-announcement false options scopes set offset count =
    let (specs, ends, c) = ipfix_specs_ends set offset count in
    rw (ends) (IsRead-read_or_skip options scopes set offset count specs c)

-- A walk whose `register` keeps a property of its state ends with the property kept.
module _ {S : Type 0} (register : ℕ → Option Template → S → S) (max_fields : ℕ) (Keeps : S → Type 0)
    (register_keeps : (id : ℕ) (t : Option Template) (s : S)
      → is_measured_if_any t ≡ true
      → Keeps s
      → Keeps (register id t s)) where
  templates_end :
      (fuel : ℕ) (set : List ℕ) (offset : ℕ) (s : S)
      → 0 < fuel
      → length set < offset + fuel
      → Keeps s
      → (s' : S) × (ipfix_templates register max_fields fuel set offset s ≡ some s') × Keeps s'
  unfolding ipfix_templates
  templates_end zero set offset s h enough kept = ground arith
  templates_end (suc fuel) set offset s h enough kept =
      elim (Bool-cases (leb (offset + 4) (length set))) [
        | inr done ↦ rw (ipfix_templates, done) (s, refl, kept)
        | inl more ↦
            let le = leb→le (offset + 4) (length set) more in
            let id = be16_at-inside set offset (omega (arith, le)) in
            let size = be16_at-inside set (offset + 2) (omega (arith, le)) in
            let count = word16 set (offset + 2) in
            elim (Bool-cases (nat_eqb count 0)) [
              | inl withdrawn ↦
                  rw (ipfix_templates, more, id, size)
                    (rw (◌>>=◌, withdrawn)
                      (templates_end fuel set (offset + 4) s (omega arith) (omega arith) kept))
              | inr announced ↦
                  let (t, next, ends, ahead, measured) =
                    IsRead-announcement
                      (ltb (word16 set offset) min_data_set_id || ltb max_fields count) false 0 set
                      (offset + 4) count in
                  rw (ipfix_templates, more, id, size)
                    (rw (◌>>=◌, announced, ends)
                      (templates_end fuel set next (register (word16 set offset) t s) (omega arith)
                        (omega arith) (register_keeps (word16 set offset) t s measured kept)))
            ]
      ]

  -- A template set is read to its end without a panic.
  pub parse_ipfix_templates_ends :
      (set : List ℕ) (s : S)
      → Keeps s
      → (s' : S) × (parse_ipfix_templates register max_fields set s ≡ some s') × Keeps s'
  unfolding parse_ipfix_templates
  parse_ipfix_templates_ends set s kept =
      templates_end (suc (length set)) set 0 s (omega arith) (omega arith) kept

  options_templates_end :
      (fuel : ℕ) (set : List ℕ) (offset : ℕ) (s : S)
      → 0 < fuel
      → length set < offset + fuel
      → Keeps s
      → (s' : S) × (ipfix_options_templates register max_fields fuel set offset s ≡ some s')
        × Keeps s'
  unfolding ipfix_options_templates
  options_templates_end zero set offset s h enough kept = ground arith
  options_templates_end (suc fuel) set offset s h enough kept =
      elim (Bool-cases (leb (offset + 4) (length set))) [
        | inr done ↦ rw (ipfix_options_templates, done) (s, refl, kept)
        | inl more ↦
            let le = leb→le (offset + 4) (length set) more in
            let id = be16_at-inside set offset (omega (arith, le)) in
            let size = be16_at-inside set (offset + 2) (omega (arith, le)) in
            let count = word16 set (offset + 2) in
            elim (Bool-cases (nat_eqb count 0)) [
              | inl withdrawn ↦
                  rw (ipfix_options_templates, more, id, size)
                    (rw (◌>>=◌, withdrawn)
                      (options_templates_end fuel set (offset + 4) s (omega arith) (omega arith)
                        kept))
              | inr announced ↦ elim (Bool-cases (ltb (length set) (offset + 6))) [
                | inl cut ↦
                    rw (ipfix_options_templates, more, id, size)
                      (rw (◌>>=◌, announced, cut) (s, refl, kept))
                | inr head ↦
                    let scope = be16_at-inside set (offset + 4) (ground arith) in
                    let scopes = word16 set (offset + 4) in
                    let (t, next, ends, ahead, measured) =
                      IsRead-announcement
                        (ltb (word16 set offset) min_data_set_id
                          || ltb scopes 1
                          || ltb count scopes
                          || ltb max_fields count)
                        true scopes set (offset + 6) count in
                    rw (ipfix_options_templates, more, id, size)
                      (rw (◌>>=◌, announced, head, scope)
                        (rw (◌>>=◌, ends)
                          (options_templates_end fuel set next (register (word16 set offset) t s)
                            (omega arith) (omega arith)
                            (register_keeps (word16 set offset) t s measured kept))))
              ]
            ]
      ]

  -- An options template set is read to its end without a panic.
  pub parse_ipfix_options_templates_ends :
      (set : List ℕ) (s : S)
      → Keeps s
      → (s' : S) × (parse_ipfix_options_templates register max_fields set s ≡ some s') × Keeps s'
  unfolding parse_ipfix_options_templates
  parse_ipfix_options_templates_ends set s kept =
      options_templates_end (suc (length set)) set 0 s (omega arith) (omega arith) kept
