-- ===== src/Decoder/Accounting.antt =====
-- The counters that the record path moves, internal/decoder/templates.go, and the pointer through
-- which it moves them: a domain with its device's table, or the nil of a device at its budget.
use xflow_exporter.Common.{
  ℕ, Bool, true, Option, none, some, lookup, insert, if◌then◌else◌, nat_eqb, add64,
}
use xflow_exporter.Decoder.Domain.{
  DomainState, DomainKey, SamplerTable, domain_key_eq, sampler_key_eq, unsampled_sampler_id,
}
use xflow_exporter.Decoder.Declarations.{correction_for}
use xflow_exporter.Decoder.Store.{Store, table_key}

abbrev pub Link : Type 0
Link = Option (DomainState × SamplerTable)

unfoldable pub link : DomainKey → Store → Link
link key s = elim (lookup key s.domains) [
  | none ↦ none
  | some d ↦ elim (lookup (table_key key) s.sampler_tables) [ none ↦ none | some t ↦ some (d, t) ]
]

-- What the writes through the pointer leave in the store.
unfoldable pub write_back : DomainKey → Link → Store → Store
write_back key none s = s
write_back key (some (d, t)) s = record s {
  domains = insert key d s.domains;
  sampler_tables = insert (table_key key) t s.sampler_tables;
}

-- `countClockPair`
unfoldable pub count_clock_pair : Bool → Link → Link
count_clock_pair inverted none = none
count_clock_pair inverted (some (d, t)) = some (
  record d {
    clocks_anchored = true;
    clock_inversions = if inverted then add64 d.clock_inversions 1 else d.clock_inversions;
  },
  t,
)

-- `countAggregate`
unfoldable pub count_aggregate : Bool → Link → Link
count_aggregate empty none = none
count_aggregate empty (some (d, t)) = some (
  record d {
    aggregates_reported = true;
    aggregate_zero_flows = if empty then add64 d.aggregate_zero_flows 1 else d.aggregate_zero_flows;
  },
  t,
)

abbrev pub owed_counted : Bool → DomainState → DomainState
owed_counted owed d =
    if owed then record d { sampling_unresolved = add64 d.sampling_unresolved 1 } else d

-- `netflowV5SamplerRate` of internal/decoder/netflow5.go
unfoldable pub netflow_v5_sampler_rate : Link → ℕ → Link × ℕ
netflow_v5_sampler_rate none sampler_id = (none, 0)
netflow_v5_sampler_rate (some (d, t)) sampler_id =
    if nat_eqb sampler_id unsampled_sampler_id
    then (some (d, t), 0)
    else let (t', (rate, owed)) = correction_for d t sampler_id true in
      (some (owed_counted owed d, t'), rate)
