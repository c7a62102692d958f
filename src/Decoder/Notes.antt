-- ===== src/Decoder/Notes.antt =====
-- internal/decoder/notes.go: the notes of template elements that no reader consumes. The log line
-- itself is not modelled, only whether one is written.
pub mod Limiting
use xflow_exporter.Common.{
  ℕ, suc, ◌+◌, ◌/◌, ◌^◌, Bool, true, false, not, ◌||◌, Option, none, some, List, [], ◌∷◌,
  if◌then◌else◌, leb, nat_eqb,
}
use xflow_exporter.Flow.{zero_record, Version, netflow_v9, Time}
use xflow_exporter.Flow.Identity.{version_eqb}
use xflow_exporter.Decoder.Domain.{Template, TemplateField}
use xflow_exporter.Decoder.Apps.{Interner}
use xflow_exporter.Decoder.Stats.{unix_nano}
use xflow_exporter.Decoder.State.{NoteLimiter, DecoderState}
use xflow_exporter.Decoder.Fields.{fresh_fields, apply_field}
use xflow_exporter.Decoder.Options.{no_options, apply_option, apply_ipfix_scope}

abbrev pub max_notes_per_minute : ℕ
max_notes_per_minute = 60

-- `now.Unix() / 60`, for an instant that is not before 1970
abbrev pub minute_of : Time → ℕ
minute_of now = unix_nano now / 10 ^ 9 / 60

-- A limiter in the minute of an instant.
unfoldable pub turned : NoteLimiter → Time → NoteLimiter
turned l now =
    if nat_eqb (minute_of now) l.minute then l else record l { minute = minute_of now; sent = 0 }

-- `admit`: whether the note fits, and how many were withheld since the last one admitted
unfoldable pub admit : NoteLimiter → Time → NoteLimiter × Bool × ℕ
admit l now =
    let l' = turned l now in
    if nat_eqb l'.sent max_notes_per_minute
    then (record l' { suppressed = l'.suppressed + 1 }, false, 0)
    else (record l' { sent = l'.sent + 1; suppressed = 0 }, true, l'.suppressed)

-- Whether a reader consumes the field at an index, asked with no value. The source asks one state that
-- every question may have changed; whether an element is consumed does not depend on it.
unfoldable pub is_consumed : Interner → Version → Template → ℕ → TemplateField → Bool
is_consumed strings proto t i f =
    if not t.options
    then (apply_field zero_record (fresh_fields strings (record { port = 0; id = 0 })) f.field_type
        f.enterprise []).2
    else if leb t.scope_count i
    then (apply_option no_options f.field_type f.enterprise []).1
    else if version_eqb proto netflow_v9
    then true
    else (apply_ipfix_scope no_options f.field_type f.enterprise []).1
      || (apply_option no_options f.field_type f.enterprise []).1

-- `nextUnread` from a field on, the index beside the fields that are left; `none` is its -1.
unfoldable pub next_unread : Interner → Version → Template → ℕ → List TemplateField → Option ℕ
next_unread strings proto t i [] = none
next_unread strings proto t i (f ∷ rest) =
    let later = next_unread strings proto t (suc i) rest in
    if is_consumed strings proto t i f then later else some i

-- `noteUnread`: whether the layout is settled
unfoldable pub note_unread : Version → Template → Time → DecoderState → DecoderState × Bool
note_unread proto t at s = elim (next_unread s.apps.strings proto t 0 t.fields) [
  | none ↦ (s, true)
  | some first ↦ let (notes, ok, suppressed) = admit s.notes at in (record s { notes = notes }, ok)
]
