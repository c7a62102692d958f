-- ===== src/Decoder/Soundness/Registering.antt =====
-- The announcements of internal/decoder/netflow9.go keep what the parsers rely on.
use xflow_exporter.Common.{
  ◌≡◌, refl, Bool, true, false, none, some, lookup, insert, lookup-insert, ◌==◌, Bool-cases,
  Option-cases, inl, inr, arith,
}
use xflow_exporter.Flow.{Time, Version}
use xflow_exporter.Decoder.Domain.{
  DomainState, DomainKey, Template, TemplateRef, domain_key_eq, template_ref_eq,
}
use xflow_exporter.Decoder.Store.{Store, store_add}
use xflow_exporter.Decoder.State.{DecoderState, issue}
use xflow_exporter.Decoder.Notes.{note_unread, next_unread}
use xflow_exporter.Decoder.Register.{
  fits_a_set, held_template, mark_noted, note_held, refuse_template, accept_template,
  register_template,
}
use xflow_exporter.Decoder.Soundness.{
  is_walkable, is_measured, is_sound, IsSoundDomain, IsReady, IsSound-insert, present_insert,
}
use xflow_exporter.Decoder.Soundness.Storing.{ready_domain, IsReady-withdraw, IsReady-store_add}

IsReady-mark_noted :
    (key : DomainKey) (ref : TemplateRef) (settled : Bool) (s : Store)
    → IsReady key s
    → IsReady key (mark_noted key ref settled s)
unfolding mark_noted
IsReady-mark_noted key ref settled s ready =
    let (d, held, own, table) = ready_domain key s ready in
    elim (Option-cases (lookup ref d.templates)) [
      | inl gone ↦ rw (mark_noted, held, gone) ready
      | inr (t, there) ↦
          let d' : DomainState = record d {
            templates = insert ref (record t { noted = settled }) d.templates;
          } in
          rw (mark_noted, held, there)
            (
              IsSound-insert key d' s.domains s.sampler_tables ready.0 (still d t there own) table,
              present_insert key d' s.domains,
            )
    ]
  where
    still :
        (d : DomainState) (t : Template)
        → lookup ref d.templates ≡ some t
        → IsSoundDomain d
        → (other : TemplateRef)
        → is_sound (lookup other (insert ref (record t { noted = settled }) d.templates)) ≡ true
    still d t there own other =
        let here : is_walkable t ≡ true = rw (there) at (own ref) in
        elim (Bool-cases (ref == other)) [
          | inl same ↦
              rw (lookup-insert ref other (record t { noted = settled }) d.templates, same) here
          | inr apart ↦
              rw (lookup-insert ref other (record t { noted = settled }) d.templates, apart)
                (own other)
        ]

note_unread_templates :
    (proto : Version) (t : Template) (at : Time) (s : DecoderState)
    → (note_unread proto t at s).0.templates ≡ s.templates
unfolding note_unread
note_unread_templates proto t at s =
    elim (Option-cases (next_unread s.apps.strings proto t 0 t.fields)) [
      | inl read ↦ rw (note_unread, read) refl
      | inr (first, unread) ↦ rw (note_unread, unread) refl
    ]

IsReady-note_held :
    (key : DomainKey) (ref : TemplateRef) (at : Time) (s : DecoderState)
    → IsReady key s.templates
    → IsReady key (note_held key ref at s).templates
unfolding note_held
IsReady-note_held key ref at s ready = elim (Option-cases (held_template key ref s.templates)) [
  | inl gone ↦ rw (note_held, gone) ready
  | inr (t, there) ↦ elim (Bool-cases t.noted) [
    | inl noted ↦ rw (note_held, there, noted) ready
    | inr new ↦ rw (note_held, there, new) (marked (record t { noted = false }))
  ]
]
  where
    marked :
        (u : Template)
        → let (s', settled) = note_unread key.proto u at s in
          IsReady key (mark_noted key ref settled s'.templates)
    marked u =
        let (s', settled) = note_unread key.proto u at s in
        IsReady-mark_noted key ref settled s'.templates
          (rw (note_unread_templates key.proto u at s) ready)

IsReady-accept :
    (key : DomainKey) (ref : TemplateRef) (t : Template) (at : Time) (s : DecoderState)
    → is_walkable t ≡ true
    → IsReady key s.templates
    → IsReady key (accept_template key ref t at s).templates
unfolding accept_template issue
IsReady-accept key ref t at s walkable ready =
    let (store, stored) = store_add key ref t at s.templates in
    let ready' = IsReady-store_add key ref t at s.templates walkable ready in
    elim (Bool-cases stored) [
      | inl taken ↦
          rw (accept_template, taken)
            (IsReady-note_held key ref at (record s { templates = store }) ready')
      | inr refused ↦ rw (accept_template, refused) ready'
    ]

-- An announcement leaves the parsers what they rely on, whether it is taken or not.
pub IsReady-register :
    (key : DomainKey) (ref : TemplateRef) (t : Template) (at : Time) (s : DecoderState)
    → is_measured t ≡ true
    → IsReady key s.templates
    → IsReady key (register_template key ref (some t) at s).templates
unfolding register_template fits_a_set refuse_template issue
IsReady-register key ref t at s measured ready = elim (Bool-cases (fits_a_set t)) [
  | inl fit ↦
      rw (register_template, fit) (IsReady-accept key ref t at s (ground (arith, fit)) ready)
  | inr misfit ↦ rw (register_template, misfit) (IsReady-withdraw key ref s.templates ready)
]

pub IsReady-unregister :
    (key : DomainKey) (ref : TemplateRef) (at : Time) (s : DecoderState)
    → IsReady key s.templates
    → IsReady key (register_template key ref none at s).templates
unfolding register_template refuse_template issue
IsReady-unregister key ref at s ready = IsReady-withdraw key ref s.templates ready
