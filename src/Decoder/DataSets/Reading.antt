-- ===== src/Decoder/DataSets/Reading.antt =====
-- Whatever bytes a data set holds, internal/decoder/ipfix.go reads its records to an end.
use xflow_exporter.Common.{
  ℕ, zero, suc, ◌+◌, ◌≤◌, ◌<◌, ◌≡◌, refl, Bool, true, false, Option, none, some, List, [], ◌∷◌, leb,
  ltb, length, Bool-cases, Option-cases, inl, inr, arith, if◌then◌else◌,
}
use xflow_exporter.Common.Bytes.{◌>>=◌}
use xflow_exporter.Flow.{Record, Time, ipfix, zero_record}
use xflow_exporter.Decoder.Clock.{ExportClock}
use xflow_exporter.Decoder.Domain.{DomainKey, Template, TemplateField, TemplateRef, domain_key_eq}
use xflow_exporter.Decoder.Store.{store_lookup}
use xflow_exporter.Decoder.State.{DecoderState, issue}
use xflow_exporter.Decoder.Fields.{FieldState, apply_field, fresh_fields}
use xflow_exporter.Decoder.Options.{OptionsState, no_options, apply_option, apply_ipfix_scope}
use xflow_exporter.Decoder.Soundness.{IsReady, is_walkable, least_record_len}
use xflow_exporter.Decoder.Soundness.Storing.{IsReady-store_lookup}
use xflow_exporter.Decoder.Soundness.Committing.{IsReady-commit}
use xflow_exporter.Decoder.DataFlowSets.Walking.{EndsWith, close_record_ends}
use xflow_exporter.Decoder.TemplateSets.Compiling.{IsFurther, next_field_value_ends, least_len}
use xflow_exporter.Decoder.IpfixLengths.Skipping.{walkable_progress}
use xflow_exporter.Decoder.DataSets.{
  ipfix_options_fields, committed, read_ipfix_options_record, ipfix_fields, Stepped, ipfix_closed,
  decode_ipfix_record, ipfix_records, decode_ipfix_data_set,
}

-- The offset behind a record, where it was whole, lies so far on.
abbrev IsBehind : ℕ → Option ℕ → Type 0
IsBehind from none = Unit {0}
IsBehind from (some next) = from ≤ next

IsBehind-le :
    (from from' : ℕ) (found : Option ℕ) → from ≤ from' → IsBehind from' found → IsBehind from found
IsBehind-le from from' none h p = tt
IsBehind-le from from' (some next) h p = omega (arith, h, p)

abbrev offset_of : {A : Type 0} → Option (A × ℕ) → Option ℕ
offset_of none = none
offset_of (some (a, next)) = some next

ipfix_options_fields_ends :
    (fields : List TemplateField) (scopes i : ℕ) (set : List ℕ) (offset : ℕ) (o : OptionsState)
    → (walked : Option (OptionsState × ℕ)) × (ipfix_options_fields fields scopes i set offset o
        ≡ some walked)
      × IsBehind (offset + least_record_len fields) (offset_of walked)
unfolding ipfix_options_fields least_record_len
ipfix_options_fields_ends [] scopes i set offset o = (_, refl, omega arith)
ipfix_options_fields_ends (f ∷ rest) scopes i set offset o =
    let (found, ends, further) = next_field_value_ends f set offset in
    elim (Option-cases found) [
      | inl cut ↦ rw (ipfix_options_fields, ends, cut) (none, refl, tt)
      | inr ((value, next), held) ↦
          let on : IsFurther set (offset + least_len f) (some (value, next)) =
            rw (held) at further in
          let scoped =
            if ltb i scopes then (apply_ipfix_scope o f.field_type f.enterprise value).0 else o in
          let (walked, ends', behind) =
            ipfix_options_fields_ends rest scopes (suc i) set next
              (apply_option scoped f.field_type f.enterprise value).0 in
          rw (ipfix_options_fields, ends, held, ends')
            (
              walked,
              refl,
              IsBehind-le (offset + least_record_len (f ∷ rest)) (next + least_record_len rest)
                  (offset_of walked) (ground (arith, on.0)) behind,
            )
    ]

ipfix_fields_end :
    (fields : List TemplateField) (set : List ℕ) (offset : ℕ) (r : Record) (fs : FieldState)
    → (r' : Record) × (fs' : FieldState) × (past : Option ℕ) × (ipfix_fields fields set offset r fs
        ≡ some (r', fs', past))
      × IsBehind (offset + least_record_len fields) past
unfolding ipfix_fields least_record_len
ipfix_fields_end [] set offset r fs = (_, _, _, refl, omega arith)
ipfix_fields_end (f ∷ rest) set offset r fs =
    let (found, ends, further) = next_field_value_ends f set offset in
    elim (Option-cases found) [
      | inl cut ↦ rw (ipfix_fields, ends, cut) (r, fs, none, refl, tt)
      | inr ((value, next), held) ↦
          let on : IsFurther set (offset + least_len f) (some (value, next)) =
            rw (held) at further in
          let (r1, fs1, read) = apply_field r fs f.field_type f.enterprise value in
          let (r', fs', past, ends', behind) = ipfix_fields_end rest set next r1 fs1 in
          rw (ipfix_fields, ends, held, ends')
            (
              r',
              fs',
              past,
              refl,
              IsBehind-le (offset + least_record_len (f ∷ rest)) (next + least_record_len rest) past
                  (ground (arith, on.0)) behind,
            )
    ]

-- One record is read, or is found cut short; the parser can go on, and further on.
abbrev RecordEnds : DomainKey → ℕ → Option Stepped → Type 0
RecordEnds key from step =
    (dst : List Record) × (past : Option ℕ) × (s' : DecoderState) × (step ≡ some ((dst, past), s'))
    × IsReady key s'.templates
    × IsBehind from past

RecordEnds-if :
    (key : DomainKey) (from : ℕ) (b : Bool) (x y : Option Stepped)
    → RecordEnds key from x
    → RecordEnds key from y
    → RecordEnds key from (if b then x else y)
RecordEnds-if key from true x y hx hy = hx
RecordEnds-if key from false x y hx hy = hy

ipfix_closed_ends :
    (key : DomainKey) (from : ℕ) (r : Record) (fs : FieldState) (past : Option ℕ)
    (clock : ExportClock) (dst : List Record) (s : DecoderState)
    → IsReady key s.templates
    → IsBehind from past
    → RecordEnds key from (ipfix_closed key r fs past clock dst s)
ipfix_closed_ends key from r fs none clock dst s ready behind = (dst, none, _, refl, ready, tt)
ipfix_closed_ends key from r fs (some next) clock dst s ready behind =
    let (r', s', ends, ready') = close_record_ends key r fs clock s ready in
    rw (ends) (_, _, s', refl, ready', behind)

committed-IsReady :
    (key : DomainKey) (port : ℕ) (at : Time) (walked : Option (OptionsState × ℕ)) (s : DecoderState)
    → IsReady key s.templates
    → IsReady key (committed key port at walked s).0.templates
      × ((committed key port at walked s).1 ≡ offset_of walked)
committed-IsReady key port at none s ready = (ready, refl)
committed-IsReady key port at (some (o, next)) s ready =
    (IsReady-commit o key port at s ready, refl)

decode_ipfix_record_ends :
    (key : DomainKey) (ref : TemplateRef) (tpl : Template) (set : List ℕ) (offset : ℕ)
    (clock : ExportClock) (at : Time) (dst : List Record) (s : DecoderState)
    → IsReady key s.templates
    → RecordEnds key
        (offset + least_record_len tpl.fields)
        (decode_ipfix_record key ref tpl set offset clock at dst s)
unfolding decode_ipfix_record read_ipfix_options_record
decode_ipfix_record_ends key ref tpl set offset clock at dst s ready =
    RecordEnds-if key (offset + least_record_len tpl.fields) tpl.options _ _ declared measured
  where
    declared :
        RecordEnds key (offset + least_record_len tpl.fields) (
          read_ipfix_options_record key ref.port tpl set offset at s >>= λ p.
          some ((dst, p.1), p.0))
    declared =
        unfold read_ipfix_options_record in
        let (walked, ends, behind) =
          ipfix_options_fields_ends tpl.fields tpl.scope_count 0 set offset no_options in
        let (ready', past) = committed-IsReady key ref.port at walked s ready in
        rw (read_ipfix_options_record, ends)
          (dst, _, (committed key ref.port at walked s).0, refl, ready', rw (past) behind)

    measured : RecordEnds key (offset + least_record_len tpl.fields) (
        let opened : Record = record zero_record {
          exporter = key.exporter;
          version = ipfix;
          odid = key.odid;
          flows = 1;
        } in
        ipfix_fields tpl.fields set offset opened (fresh_fields s.apps.strings ref) >>= λ walked.
        ipfix_closed key walked.0 walked.1 walked.2 clock dst s)
    measured =
        let opened : Record = record zero_record {
          exporter = key.exporter;
          version = ipfix;
          odid = key.odid;
          flows = 1;
        } in
        let (r, fs, past, ends, behind) =
          ipfix_fields_end tpl.fields set offset opened (fresh_fields s.apps.strings ref) in
        rw (ends) (ipfix_closed_ends key _ r fs past clock dst s ready behind)

ipfix_records_end :
    (fuel : ℕ) (key : DomainKey) (ref : TemplateRef) (tpl : Template) (set : List ℕ)
    (offset records : ℕ) (complete : Bool) (clock : ExportClock) (at : Time) (dst : List Record)
    (s : DecoderState)
    → is_walkable tpl ≡ true
    → 0 < fuel
    → length set < offset + fuel
    → IsReady key s.templates
    → EndsWith key (ipfix_records fuel key ref tpl set offset records complete clock at dst s)
unfolding ipfix_records issue
ipfix_records_end zero key ref tpl set offset records complete clock at dst s walkable h enough
      ready =
    ground arith
ipfix_records_end (suc fuel) key ref tpl set offset records complete clock at dst s walkable h
      enough ready =
    elim (Bool-cases (leb (offset + tpl.record_len) (length set))) [
      | inr done ↦ rw (ipfix_records, done) (_, s, refl, ready)
      | inl more ↦
          let (dst', past, s', ends, ready', behind) =
            decode_ipfix_record_ends key ref tpl set offset clock at dst s ready in
          elim (Option-cases past) [
            | inl cut ↦ rw (ipfix_records, more, ends) (rw (◌>>=◌, cut) (_, _, refl, ready'))
            | inr (next, whole) ↦
                let on : offset + least_record_len tpl.fields ≤ next = rw (whole) at behind in
                rw (ipfix_records, more, ends)
                  (rw (◌>>=◌, whole)
                    (ipfix_records_end fuel key ref tpl set next (records + 1) complete clock at
                      dst' s' walkable (ground arith)
                      (omega (arith, walkable_progress tpl walkable)) ready'))
          ]
    ]

pub decode_ipfix_data_set_ends :
    (key : DomainKey) (port set_id : ℕ) (set : List ℕ) (complete : Bool) (clock : ExportClock)
    (at : Time) (dst : List Record) (s : DecoderState)
    → IsReady key s.templates
    → EndsWith key (decode_ipfix_data_set key port set_id set complete clock at dst s)
unfolding decode_ipfix_data_set issue
decode_ipfix_data_set_ends key port set_id set complete clock at dst s ready =
    let ref : TemplateRef = record { port = port; id = set_id } in
    let (ready', sound) = IsReady-store_lookup key ref at s.templates ready in
    let (store, found) = store_lookup key ref at s.templates in
    elim (Option-cases found) [
      | inl missing ↦ rw (decode_ipfix_data_set, missing) (_, _, refl, ready')
      | inr (tpl, there) ↦
          let walkable : is_walkable tpl ≡ true = rw (there) at sound in
          rw (decode_ipfix_data_set, there)
            (ipfix_records_end (suc (length set)) key ref tpl set 0 0 complete clock at dst
              (record s { templates = store }) walkable (omega arith) (omega arith) ready')
    ]
