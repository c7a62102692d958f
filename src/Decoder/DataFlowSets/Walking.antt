-- ===== src/Decoder/DataFlowSets/Walking.antt =====
-- The walks over the data flowsets of internal/decoder/netflow9.go end, whatever bytes a flowset holds,
-- on templates that are sound.
use xflow_exporter.Common.{
  ℕ, zero, suc, ◌+◌, ◌-◌, ◌*◌, ◌/◌, ◌≤◌, ◌≡◌, refl, Bool, true, false, Option, some, List, [], ◌∷◌,
  ◌++◌, ltb, nat_eqb, length, take, drop, Option-cases, inl, inr, arith, lookup, if◌then◌else◌,
}
use native.Mathlib.Nat.{div-mul-le_self}
use xflow_exporter.Common.Bytes.{slice-inside, length-take-drop, ◌>>=◌}
use xflow_exporter.Flow.{Record, Time, netflow_v9, zero_record}
use xflow_exporter.Decoder.Clock.{ExportClock}
use xflow_exporter.Decoder.Domain.{
  DomainKey, DomainState, SamplerTable, TemplateField, Template, TemplateRef, domain_key_eq,
  sampler_key_eq,
}
use xflow_exporter.Decoder.Store.{Store, store_lookup, table_key}
use xflow_exporter.Decoder.Accounting.{link}
use xflow_exporter.Decoder.State.{DecoderState, issue}
use xflow_exporter.Decoder.Fields.{FieldState, apply_field, fresh_fields}
use xflow_exporter.Decoder.Finish.Finished.{finish_record_lem}
use xflow_exporter.Decoder.Options.{OptionsState, apply_option, apply_v9_scope, no_options}
use xflow_exporter.Decoder.Register.{fixed_record_len}
use xflow_exporter.Decoder.Soundness.{IsReady, IsSoundDomain, is_walkable}
use xflow_exporter.Decoder.Soundness.Storing.{ready_domain, IsReady-store_lookup}
use xflow_exporter.Decoder.Soundness.Committing.{IsReady-commit, IsReady-write}
use xflow_exporter.Decoder.DataFlowSets.{
  v9_options_fields, read_v9_options_record, v9_fields, close_record, v9_record, v9_data_record,
  v9_data_records, v9_data_set_of, decode_v9_data_set,
}

v9_options_fields_ends :
    (fields : List TemplateField) (scopes i : ℕ) (bytes : List ℕ) (offset : ℕ) (o : OptionsState)
    → offset + fixed_record_len fields ≤ length bytes
    → (o' : OptionsState) × (v9_options_fields fields scopes i bytes offset o ≡ some o')
unfolding v9_options_fields fixed_record_len
v9_options_fields_ends [] scopes i bytes offset o h = (o, refl)
v9_options_fields_ends (f ∷ rest) scopes i bytes offset o h =
    let cut = slice-inside bytes offset (offset + f.length) (omega arith) (omega (arith, h)) in
    let value = take (offset + f.length - offset) (drop offset bytes) in
    let scoped = if ltb i scopes then apply_v9_scope o f.field_type value else o in
    let (o', ends) =
      v9_options_fields_ends rest scopes (suc i) bytes (offset + f.length)
        (apply_option scoped f.field_type f.enterprise value).0 (omega (arith, h)) in
    rw (v9_options_fields, cut, ends) (o', refl)

v9_fields_ends :
    (fields : List TemplateField) (bytes : List ℕ) (offset : ℕ) (r : Record) (fs : FieldState)
    → offset + fixed_record_len fields ≤ length bytes
    → (walked : Record × FieldState) × (v9_fields fields bytes offset r fs ≡ some walked)
unfolding v9_fields fixed_record_len
v9_fields_ends [] bytes offset r fs h = (_, refl)
v9_fields_ends (f ∷ rest) bytes offset r fs h =
    let cut = slice-inside bytes offset (offset + f.length) (omega arith) (omega (arith, h)) in
    let value = take (offset + f.length - offset) (drop offset bytes) in
    let (r', fs', read) = apply_field r fs f.field_type f.enterprise value in
    let (walked, ends) = v9_fields_ends rest bytes (offset + f.length) r' fs' (omega (arith, h)) in
    rw (v9_fields, cut, ends) (walked, refl)

-- What a parser's step answers, and that the parser can go on.
abbrev pub EndsWith : {A : Type 0} → DomainKey → Option (A × DecoderState) → Type 0
EndsWith {A} key step =
    (a : A) × (s' : DecoderState) × (step ≡ some (a, s')) × IsReady key s'.templates

-- The pointer that a parser holds is not nil.
pub ready_link :
    (key : DomainKey) (s : Store)
    → IsReady key s
    → (d : DomainState) × (t : SamplerTable) × (link key s ≡ some (d, t)) × IsSoundDomain d
unfolding link
ready_link key s ready =
    let (d, held, own, table) = ready_domain key s ready in
    elim (Option-cases (lookup (table_key key) s.sampler_tables)) [
      | inl untabled ↦ ground arith
      | inr (t, tabled) ↦ rw (link, held, tabled) (d, t, refl, own)
    ]

pub close_record_ends :
    (key : DomainKey) (r : Record) (fs : FieldState) (clock : ExportClock) (s : DecoderState)
    → IsReady key s.templates
    → EndsWith key (close_record key r fs clock s)
unfolding close_record
close_record_ends key r fs clock s ready =
    let (d, t, linked, own) = ready_link key s.templates ready in
    let (r', d', t', ends, same) = finish_record_lem r fs clock d t in
    rw (close_record, linked, ends)
      (_, _, refl, IsReady-write key d' t' s.templates ready (λ ref. rw same (own ref)))

v9_record_ends :
    (key : DomainKey) (ref : TemplateRef) (tpl : Template) (bytes : List ℕ) (clock : ExportClock)
    (s : DecoderState)
    → fixed_record_len tpl.fields ≤ length bytes
    → IsReady key s.templates
    → EndsWith key (v9_record key ref tpl bytes clock s)
unfolding v9_record
v9_record_ends key ref tpl bytes clock s h ready =
    let opened : Record = record zero_record {
      exporter = key.exporter;
      version = netflow_v9;
      odid = key.odid;
      flows = 1;
    } in
    let (walked, ends) =
      v9_fields_ends tpl.fields bytes 0 opened (fresh_fields s.apps.strings ref)
        (omega (arith, h)) in
    rw (v9_record, ends) (close_record_ends key walked.0 walked.1 clock s ready)

pub EndsWith-if :
    {A : Type 0} (key : DomainKey) (b : Bool) (x y : Option (A × DecoderState))
    → (b ≡ true → EndsWith key x)
    → (b ≡ false → EndsWith key y)
    → EndsWith key (if b then x else y)
EndsWith-if key true x y then_ends else_ends = then_ends refl
EndsWith-if key false x y then_ends else_ends = else_ends refl

v9_data_record_ends :
    (key : DomainKey) (ref : TemplateRef) (tpl : Template) (bytes : List ℕ) (clock : ExportClock)
    (at : Time) (dst : List Record) (s : DecoderState)
    → fixed_record_len tpl.fields ≤ length bytes
    → IsReady key s.templates
    → EndsWith key (v9_data_record key ref tpl bytes clock at dst s)
unfolding v9_data_record read_v9_options_record
v9_data_record_ends key ref tpl bytes clock at dst s h ready =
    EndsWith-if key tpl.options _ _ (λ declares. declared) (λ measures. measured)
  where
    declared :
        EndsWith key (read_v9_options_record key ref.port tpl bytes at s >>= λ s'. some (dst, s'))
    declared =
        unfold read_v9_options_record in
        let (o, ends) =
          v9_options_fields_ends tpl.fields tpl.scope_count 0 bytes 0 no_options
            (omega (arith, h)) in
        rw (read_v9_options_record, ends) (dst, _, refl, IsReady-commit o key ref.port at s ready)

    measured :
        EndsWith key (v9_record key ref tpl bytes clock s >>= λ p. some (dst ++ (p.0 ∷ []), p.1))
    measured =
        let (r, s', ends, ready') = v9_record_ends key ref tpl bytes clock s h ready in
        rw (ends) (_, _, refl, ready')

v9_data_records_ends :
    (n i : ℕ) (key : DomainKey) (ref : TemplateRef) (tpl : Template) (set : List ℕ)
    (clock : ExportClock) (at : Time) (dst : List Record) (s : DecoderState)
    → fixed_record_len tpl.fields ≤ tpl.record_len
    → (i + n) * tpl.record_len ≤ length set
    → IsReady key s.templates
    → EndsWith key (v9_data_records n i key ref tpl set clock at dst s)
unfolding v9_data_records
v9_data_records_ends zero i key ref tpl set clock at dst s fit h ready = (dst, s, refl, ready)
v9_data_records_ends (suc n) i key ref tpl set clock at dst s fit h ready =
    let inside : i * tpl.record_len + tpl.record_len ≤ length set = omega (arith, h) in
    let cut =
      slice-inside set (i * tpl.record_len) (i * tpl.record_len + tpl.record_len) (omega arith)
        inside in
    let bytes =
      take (i * tpl.record_len + tpl.record_len - i * tpl.record_len)
        (drop (i * tpl.record_len) set) in
    let long : fixed_record_len tpl.fields ≤ length bytes = omega (
      arith,
      fit,
      length-take-drop set (i * tpl.record_len)
          (i * tpl.record_len + tpl.record_len - i * tpl.record_len) (omega (arith, inside)),
    ) in
    let (dst', s', ends, ready') =
      v9_data_record_ends key ref tpl bytes clock at dst s long ready in
    rw (v9_data_records, cut, ends)
      (v9_data_records_ends n (suc i) key ref tpl set clock at dst' s' fit (omega (arith, h))
        ready')

v9_data_set_of_ends :
    (tpl : Template) (key : DomainKey) (ref : TemplateRef) (set : List ℕ) (clock : ExportClock)
    (at : Time) (dst : List Record) (s : DecoderState)
    → is_walkable tpl ≡ true
    → IsReady key s.templates
    → EndsWith key (v9_data_set_of tpl key ref set clock at dst s)
unfolding v9_data_set_of issue
v9_data_set_of_ends tpl key ref set clock at dst s walkable ready =
    EndsWith-if key tpl.has_variable _ _ (λ varies. (dst, _, refl, ready))
      (λ fixed.
        EndsWith-if key (nat_eqb tpl.record_len 0) _ _ (λ empty. ground arith)
          (λ filled.
            EndsWith-if key (nat_eqb (length set / tpl.record_len) 0) _ _
              (λ short. (dst, _, refl, ready))
              (λ whole.
                v9_data_records_ends (length set / tpl.record_len) 0 key ref tpl set clock at dst s
                  (ground arith) (omega (arith, div-mul-le_self (length set) tpl.record_len))
                  ready)))

-- A data flowset is decoded to its end without a panic.
pub decode_v9_data_set_ends :
    (key : DomainKey) (port set_id : ℕ) (set : List ℕ) (clock : ExportClock) (at : Time)
    (dst : List Record) (s : DecoderState)
    → IsReady key s.templates
    → EndsWith key (decode_v9_data_set key port set_id set clock at dst s)
unfolding decode_v9_data_set issue
decode_v9_data_set_ends key port set_id set clock at dst s ready =
    let ref : TemplateRef = record { port = port; id = set_id } in
    let (ready', sound) = IsReady-store_lookup key ref at s.templates ready in
    let (store, found) = store_lookup key ref at s.templates in
    elim (Option-cases found) [
      | inl missing ↦ rw (decode_v9_data_set, missing) (dst, _, refl, ready')
      | inr (tpl, there) ↦
          let walkable : is_walkable tpl ≡ true = rw (there) at sound in
          rw (decode_v9_data_set, there)
            (v9_data_set_of_ends tpl key ref set clock at dst (record s { templates = store })
              walkable ready')
    ]
