-- ===== src/Decoder/Soundness/Committing.antt =====
-- The options records of internal/decoder/options.go, and the record path, keep what the parsers rely
-- on.
use xflow_exporter.Common.{
  ℕ, Bool, true, false, some, nat_eqb, lookup, insert, Bool-cases, Option-cases, inl, inr,
}
use xflow_exporter.Flow.{Time}
use xflow_exporter.Decoder.Domain.{
  DomainState, DomainKey, SamplerTable, ScopedRef, domain_key_eq, sampler_key_eq, template_ref_eq,
}
use xflow_exporter.Decoder.Declarations.{Verdict, declare, declare_scoped}
use xflow_exporter.Decoder.Store.{
  Store, counted_if, settle, store_declare, store_declare_scoped, table_key,
}
use xflow_exporter.Decoder.Accounting.{write_back}
use xflow_exporter.Decoder.State.{DecoderState}
use xflow_exporter.Decoder.Options.{
  OptionsState, sampling_rate, declared_id, set_domain_rate, declare_unnamed, commit_rate, commit,
}
use xflow_exporter.Decoder.Soundness.{
  IsSoundDomain, IsReady, IsSound-insert, IsSound-declare, present_insert, present_table,
}
use xflow_exporter.Decoder.Soundness.Storing.{ready_domain}

-- A write through the domain's pointer that leaves its templates as they are.
pub IsReady-write :
    (key : DomainKey) (d : DomainState) (t : SamplerTable) (s : Store)
    → IsReady key s
    → IsSoundDomain d
    → IsReady key (write_back key (some (d, t)) s)
unfolding write_back
IsReady-write key d t s ready own = (
  IsSound-insert key d s.domains (insert (table_key key) t s.sampler_tables)
      (IsSound-declare (table_key key) t s.domains s.sampler_tables ready.0) own
      (present_table (table_key key) t s.sampler_tables),
  present_insert key d s.domains,
)

IsReady-settle :
    (key : DomainKey) (d : DomainState) (p : SamplerTable × Verdict) (s : Store)
    → IsReady key s
    → IsSoundDomain d
    → IsReady key (settle key d p s)
unfolding settle write_back
IsReady-settle key d (t, verdict) s ready own =
    IsReady-write key
      (record d { sampler_rate_changes = counted_if verdict.changed d.sampler_rate_changes }) t s
      ready own

IsReady-store_declare :
    (key : DomainKey) (odid id : ℕ) (named : Bool) (rate : ℕ) (s : Store)
    → IsReady key s
    → IsReady key (store_declare key odid id named rate s)
unfolding store_declare
IsReady-store_declare key odid id named rate s ready =
    let (d, held, own, table) = ready_domain key s ready in
    elim (Option-cases (lookup (table_key key) s.sampler_tables)) [
      | inl untabled ↦ rw (store_declare, held, untabled) ready
      | inr (t, tabled) ↦
          rw (store_declare, held, tabled)
            (IsReady-settle key d (declare t odid id named rate d.last_seen) s ready own)
    ]

IsReady-declare_scoped :
    (key : DomainKey) (ref : ScopedRef) (rate : ℕ) (s : Store)
    → IsReady key s
    → IsReady key (store_declare_scoped key ref rate s)
unfolding store_declare_scoped
IsReady-declare_scoped key ref rate s ready =
    let (d, held, own, table) = ready_domain key s ready in
    elim (Option-cases (lookup (table_key key) s.sampler_tables)) [
      | inl untabled ↦ rw (store_declare_scoped, held, untabled) ready
      | inr (t, tabled) ↦
          rw (store_declare_scoped, held, tabled)
            (IsReady-settle key d (declare_scoped t ref rate d.last_seen) s ready own)
    ]

IsReady-set_rate :
    (key : DomainKey) (rate : ℕ) (s : Store)
    → IsReady key s
    → IsReady key (set_domain_rate key rate s)
unfolding set_domain_rate
IsReady-set_rate key rate s ready =
    let (d, held, own, table) = ready_domain key s ready in
    let d' : DomainState = record d { sampling_rate = rate } in
    rw (set_domain_rate, held)
      (
        IsSound-insert key d' s.domains s.sampler_tables ready.0 own table,
        present_insert key d' s.domains,
      )

IsReady-unnamed :
    (o : OptionsState) (key : DomainKey) (port rate : ℕ) (s : Store)
    → IsReady key s
    → IsReady key (declare_unnamed o key port rate s)
unfolding declare_unnamed
IsReady-unnamed o key port rate s ready =
    let own =
      IsReady-store_declare key key.odid 0 false rate (set_domain_rate key rate s)
        (IsReady-set_rate key rate s ready) in
    elim (Option-cases o.template_scope) [
      | inr (id, scoped) ↦ rw (declare_unnamed, scoped) (IsReady-declare_scoped key _ rate s ready)
      | inl none1 ↦ elim (Option-cases o.interface_scope) [
        | inr (input_if, scoped) ↦
            rw (declare_unnamed, none1, scoped) (IsReady-declare_scoped key _ rate s ready)
        | inl none2 ↦ elim (Option-cases o.domain_scope) [
          | inl none3 ↦ rw (declare_unnamed, none1, none2, none3) own
          | inr (odid, scoped) ↦ elim (Bool-cases (nat_eqb odid key.odid)) [
            | inl same ↦ rw (declare_unnamed, none1, none2, scoped, same) own
            | inr other ↦
                rw (declare_unnamed, none1, none2, scoped, other)
                  (IsReady-declare_scoped key _ rate s ready)
          ]
        ]
      ]
    ]

-- Whatever an options record declared, its commit leaves the parsers what they rely on.
pub IsReady-commit :
    (o : OptionsState) (key : DomainKey) (port : ℕ) (at : Time) (s : DecoderState)
    → IsReady key s.templates
    → IsReady key (commit o key port at s).templates
unfolding commit commit_rate
IsReady-commit o key port at s ready = elim (Bool-cases (nat_eqb (sampling_rate o) 0)) [
  | inl unset ↦ rw (commit, unset) ready
  | inr rated ↦ elim (Option-cases (declared_id o)) [
    | inl unnamed ↦
        rw (commit, rated, unnamed) (IsReady-unnamed o key port (sampling_rate o) s.templates ready)
    | inr (id, named) ↦
        rw (commit, rated, named)
          (IsReady-store_declare key key.odid id true (sampling_rate o) s.templates ready)
  ]
]
