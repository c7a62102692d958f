-- ===== src/Decoder/IpfixLengths.antt =====
-- internal/decoder/ipfix.go: the check of every length in a message, before anything in it takes
-- effect. A read outside a slice is a panic, `none`; so is fuel that runs out.
pub mod Skipping
pub mod Checking
use xflow_exporter.Common.{
  ℕ, zero, suc, ◌+◌, Bool, true, false, not, ◌&&◌, ◌||◌, Option, none, some, List, [], ◌∷◌, Map,
  if◌then◌else◌, ltb, leb, nat_eqb, nat_eq, length, lookup, insert,
}
use xflow_exporter.Common.Bytes.{be16_at, slice, ◌>>=◌}
use xflow_exporter.Flow.{Time}
use xflow_exporter.Decoder.Domain.{DomainKey, Template, TemplateField, TemplateRef}
use xflow_exporter.Decoder.Templates.{same_layout}
use xflow_exporter.Decoder.Store.{Store, store_lookup, withdraw}
use xflow_exporter.Decoder.Register.{fits_a_set}
use xflow_exporter.Decoder.TemplateSets.{
  next_field_value, parse_ipfix_templates, parse_ipfix_options_templates, min_data_set_id,
}

-- The fields of one record of `holdsRecords`, and the offset behind it; `some none` is its `false`.
unfoldable pub skip_fields : List TemplateField → List ℕ → ℕ → Option (Option ℕ)
skip_fields [] set offset = some (some offset)
skip_fields (f ∷ rest) set offset = next_field_value f set offset >>= λ found. elim found [
  | none ↦ some none
  | some (value, next) ↦ skip_fields rest set next
]

-- The loop of `holdsRecords` over the records of a template that varies.
unfoldable pub whole_records : ℕ → Template → List ℕ → ℕ → Option Bool
whole_records zero tpl set offset = none
whole_records (suc fuel) tpl set offset = elim (leb (offset + tpl.record_len) (length set)) [
  | false ↦ some true
  | true ↦ skip_fields tpl.fields set offset >>= λ found. elim found [
    | none ↦ some false
    | some next ↦ whole_records fuel tpl set next
  ]
]

-- `holdsRecords`
unfoldable pub holds_records : Template → List ℕ → Option Bool
holds_records tpl set =
    if ltb (length set) tpl.record_len
    then some false
    else if not tpl.has_variable
    then some true
    else whole_records (suc (length set)) tpl set 0

-- What the walk has seen: the layouts announced, whether a length did not fit, and the store.
pub record Check : Type 0 where
  pub announced : Map ℕ (Option Template)
  pub failed : Bool
  pub store : Store

-- A layout that would be refused is none.
abbrev pub admitted_layout : Option Template → Option Template
admitted_layout none = none
admitted_layout (some t) = if fits_a_set t then some t else none

-- The `announce` of `checkIPFIXLengths`
unfoldable pub announce : ℕ → Option Template → Check → Check
announce id t c = record c { announced = insert id (admitted_layout t) c.announced }

-- The layout that a data set is held to, one announced earlier in the message included.
unfoldable pub layout_for : DomainKey → ℕ → ℕ → Time → Check → Check × Option Template
layout_for key port set_id at c = elim (lookup set_id c.announced) [
  | some t ↦ (c, t)
  | none ↦
      let (store, t) = store_lookup key (record { port = port; id = set_id }) at c.store in
      (record c { store = store }, t)
]

abbrev pub fail : Check → Check
fail c = record c { failed = true }

unfoldable pub check_data_set : Option Template → List ℕ → Check → Option Check
check_data_set none set c = some c
check_data_set (some tpl) set c =
    holds_records tpl set >>= λ whole. some (if whole then c else fail c)

-- The `switch` of `checkIPFIXLengths`
unfoldable pub check_set : DomainKey → ℕ → ℕ → List ℕ → Time → Check → Option Check
check_set key port set_id set at c =
    if nat_eqb set_id 2
    then parse_ipfix_templates announce c.store.max_fields set c
    else if nat_eqb set_id 3
    then parse_ipfix_options_templates announce c.store.max_fields set c
    else if leb min_data_set_id set_id && not c.failed
    then (let (c', tpl) = layout_for key port set_id at c in check_data_set tpl set c')
    else some c

-- The loop of `checkIPFIXLengths` from an offset on.
unfoldable pub check_sets : ℕ → DomainKey → ℕ → List ℕ → ℕ → Time → Check → Option Check
check_sets zero key port msg offset at c = none
check_sets (suc fuel) key port msg offset at c = elim (leb (offset + 4) (length msg)) [
  | false ↦ some c
  | true ↦ be16_at msg offset >>= λ set_id. be16_at msg (offset + 2) >>= λ set_len.
      elim (ltb set_len 4 || ltb (length msg) (offset + set_len)) [
        | true ↦ some (fail c)
        | false ↦ slice msg (offset + 4) (offset + set_len) >>= λ set.
            check_set key port set_id set at c >>= λ c'.
            check_sets fuel key port msg (offset + set_len) at c'
      ]
]

abbrev pub is_redefined : Option Template → Option Template → Bool
is_redefined none t = false
is_redefined (some held) none = true
is_redefined (some held) (some t) = not (same_layout held t)

-- The withdrawal of each layout that a failed message redefines. The source ranges over its map in no
-- order; each round is about its own layout.
unfoldable pub withdraw_redefined : DomainKey → ℕ → Time → Map ℕ (Option Template) → Store → Store
withdraw_redefined key port at [] s = s
withdraw_redefined key port at ((id, t) ∷ rest) s =
    let ref : TemplateRef = record { port = port; id = id } in
    let (s', held) = store_lookup key ref at s in
    withdraw_redefined key port at rest (if is_redefined held t then withdraw key ref s' else s')

-- `checkIPFIXLengths`: the store, and whether every length fits
unfoldable pub check_ipfix_lengths : DomainKey → ℕ → List ℕ → Time → Store → Option (Store × Bool)
check_ipfix_lengths key port msg at s =
    check_sets (length msg) key port msg 16 at
      (record { announced = []; failed = false; store = s })
    >>= λ c. some (
        if c.failed
        then (withdraw_redefined key port at c.announced c.store, false)
        else (c.store, true))
