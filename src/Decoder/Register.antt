-- ===== src/Decoder/Register.antt =====
-- The announcements of internal/decoder/netflow9.go that both template protocols share:
-- `registerTemplate`, `fitsASet` and `fixedRecordLen`.
use xflow_exporter.Common.{
  ℕ, ◌+◌, ◌-◌, Bool, ◌&&◌, Option, none, some, List, [], ◌∷◌, if◌then◌else◌, leb, lookup, insert,
}
use xflow_exporter.Flow.{Time}
use xflow_exporter.Decoder.Reason.{invalid_template}
use xflow_exporter.Decoder.Domain.{
  DomainKey, Template, TemplateField, TemplateRef, domain_key_eq, template_ref_eq,
}
use xflow_exporter.Decoder.Store.{Store, store_add, withdraw}
use xflow_exporter.Decoder.State.{DecoderState, issue}
use xflow_exporter.Decoder.Notes.{note_unread}

-- `fitsASet`
unfoldable pub fits_a_set : Template → Bool
fits_a_set t = leb 1 t.record_len && leb t.record_len (65535 - 4)

-- `fixedRecordLen`
unfoldable pub fixed_record_len : List TemplateField → ℕ
fixed_record_len [] = 0
fixed_record_len (f ∷ rest) = f.length + fixed_record_len rest

-- The template that the domain holds, which `t` points to once it was added.
unfoldable pub held_template : DomainKey → TemplateRef → Store → Option Template
held_template key ref s = elim (lookup key s.domains) [
  | none ↦ none
  | some d ↦ lookup ref d.templates
]

-- `t.noted.Store(settled)`
unfoldable pub mark_noted : DomainKey → TemplateRef → Bool → Store → Store
mark_noted key ref settled s = elim (lookup key s.domains) [
  | none ↦ s
  | some d ↦ elim (lookup ref d.templates) [
    | none ↦ s
    | some t ↦ record s {
      domains =
          insert key
            (record d { templates = insert ref (record t { noted = settled }) d.templates })
            s.domains;
    }
  ]
]

-- The end of `registerTemplate`: the note of a layout that has none.
unfoldable pub note_held : DomainKey → TemplateRef → Time → DecoderState → DecoderState
note_held key ref at s = elim (held_template key ref s.templates) [
  | none ↦ s
  | some t ↦
      if t.noted
      then s
      else let (s', settled) = note_unread key.proto t at s in
        record s' { templates = mark_noted key ref settled s'.templates }
]

unfoldable pub refuse_template : DomainKey → TemplateRef → DecoderState → DecoderState
refuse_template key ref s =
    let s' = issue key.proto key.exporter invalid_template s in
    record s' { templates = withdraw key ref s'.templates }

unfoldable pub accept_template :
    DomainKey → TemplateRef → Template → Time → DecoderState → DecoderState
accept_template key ref t at s =
    let (store, stored) = store_add key ref t at s.templates in
    let s' : DecoderState = record s { templates = store } in
    if stored then note_held key ref at s' else issue key.proto key.exporter invalid_template s'

-- `registerTemplate`; `none` is its nil.
unfoldable pub register_template :
    DomainKey → TemplateRef → Option Template → Time → DecoderState → DecoderState
register_template key ref none at s = refuse_template key ref s
register_template key ref (some t) at s =
    if fits_a_set t then accept_template key ref t at s else refuse_template key ref s
