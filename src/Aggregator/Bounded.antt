-- ===== src/Aggregator/Bounded.antt =====
-- The bound on every table of internal/aggregator/aggregator.go.
use xflow_exporter.Common.{
  ℕ, ◌≡◌, refl, ap, ◌∙◌, Bool, true, false, Option, none, some, List, [], ◌∷◌, Bool-cases, inl, inr,
  Comparable, arith,
}
use xflow_exporter.Flow.{Record, aggregated}
use xflow_exporter.Aggregator.Tables.Adding.{add_effect}
use xflow_exporter.Aggregator.Tables.{sweep, Table, Reading}
use xflow_exporter.Aggregator.Tables.Bounds.{IsBounded, call-IsBounded}
use xflow_exporter.Aggregator.Tables.Calls.{call, adding, sweeping}
use xflow_exporter.Aggregator.Keys.{
  exporter_key_eq, host_key_eq, service_key_eq, destination_key_eq, tcp_flags_key_eq, dscp_key_eq,
  asn_key_eq, app_key_eq, country_key_eq, threat_key_eq, vlan_key_eq,
}
use xflow_exporter.Aggregator.{
  Aggregator, Aggregation, Modules, ServiceLookup, new_aggregator, ingest_one, ingest, feed,
  sweep_all, sweep_table, reading_of, table_if,
}

-- A table that is disabled, or that holds no key twice and at most as many entries as its bound,
-- which is `max`.
abbrev pub IsBoundedIf : {K : Type 0} ⦃e : Comparable K⦄ → ℕ → Option (Table K) → Type 0
IsBoundedIf max none = Unit
IsBoundedIf max (some t) = IsBounded t × (t.max_entries ≡ max)

feed-IsBoundedIf :
    {K : Type 0} ⦃e : Comparable K⦄ (max : ℕ) (t : Option (Table K)) (key : Option K)
    (read : Reading) (now : ℕ)
    → IsBoundedIf max t
    → IsBoundedIf max (feed t key read now)
unfolding feed call
feed-IsBoundedIf max none key read now h = tt
feed-IsBoundedIf max (some t) none read now h = h
feed-IsBoundedIf max (some t) (some k) read now (h, m) =
    (call-IsBounded t (adding k read now) h, ground (arith, add_effect t k k read now))

sweep_table-IsBoundedIf :
    {K : Type 0} ⦃e : Comparable K⦄ (max : ℕ) (t : Option (Table K)) (cutoff : ℕ)
    → IsBoundedIf max t
    → IsBoundedIf max (sweep_table t cutoff)
unfolding call
sweep_table-IsBoundedIf max none cutoff h = tt
sweep_table-IsBoundedIf max (some t) cutoff (h, m) =
    (call-IsBounded t (sweeping cutoff) h, (unfold sweep in m))

pub record IsWithinBounds (a : Aggregator) : Type 0 where
  pub exporters : IsBoundedIf a.cfg.max_entries a.exporters
  pub hosts : IsBoundedIf a.cfg.max_entries a.hosts
  pub services : IsBoundedIf a.cfg.max_entries a.services
  pub destinations : IsBoundedIf a.cfg.max_entries a.destinations
  pub tcp_flags : IsBoundedIf a.cfg.max_entries a.tcp_flags
  pub dscp : IsBoundedIf a.cfg.max_entries a.dscp
  pub asns : IsBoundedIf a.cfg.max_entries a.asns
  pub apps : IsBoundedIf a.cfg.max_entries a.apps
  pub countries : IsBoundedIf a.cfg.max_entries a.countries
  pub threats : IsBoundedIf a.cfg.max_entries a.threats
  pub vlans : IsBoundedIf a.cfg.max_entries a.vlans

ingest_one-IsWithinBounds :
    (a : Aggregator) (r : Record) (read : Reading) (now : ℕ)
    → IsWithinBounds a
    → IsWithinBounds (ingest_one a r read now)
unfolding ingest_one
ingest_one-IsWithinBounds a r read now h = elim (Bool-cases (aggregated r)) [
  | inl folded ↦ rw folded (record {
    exporters = feed-IsBoundedIf _ a.exporters _ read now h.exporters;
    hosts = h.hosts;
    services = h.services;
    destinations = h.destinations;
    tcp_flags = h.tcp_flags;
    dscp = h.dscp;
    asns = h.asns;
    apps = h.apps;
    countries = h.countries;
    threats = h.threats;
    vlans = h.vlans;
  })
  | inr whole ↦ rw whole (record {
    exporters = feed-IsBoundedIf _ a.exporters _ read now h.exporters;
    hosts = feed-IsBoundedIf _ a.hosts _ read now h.hosts;
    services = feed-IsBoundedIf _ a.services _ read now h.services;
    destinations = feed-IsBoundedIf _ a.destinations _ read now h.destinations;
    tcp_flags = feed-IsBoundedIf _ a.tcp_flags _ read now h.tcp_flags;
    dscp = feed-IsBoundedIf _ a.dscp _ read now h.dscp;
    asns = feed-IsBoundedIf _ a.asns _ read now h.asns;
    apps = feed-IsBoundedIf _ a.apps _ read now h.apps;
    countries = feed-IsBoundedIf _ a.countries _ read now h.countries;
    vlans = feed-IsBoundedIf _ a.vlans _ read now h.vlans;
    threats = feed-IsBoundedIf _ _ _ read now (feed-IsBoundedIf _ a.threats _ read now h.threats);
  })
]

pub ingest-IsWithinBounds :
    (a : Aggregator) (rs : List Record) (now : ℕ)
    → IsWithinBounds a
    → IsWithinBounds (ingest a rs now)
unfolding ingest
ingest-IsWithinBounds a [] now h = h
ingest-IsWithinBounds a (r ∷ rs) now h =
    ingest-IsWithinBounds (ingest_one a r (reading_of r) now) rs now
      (ingest_one-IsWithinBounds a r (reading_of r) now h)

ingest_one_cfg :
    (a : Aggregator) (r : Record) (read : Reading) (now : ℕ) → (ingest_one a r read now).cfg ≡ a.cfg
unfolding ingest_one
ingest_one_cfg a r read now = elim (Bool-cases (aggregated r)) [
  | inl folded ↦ rw folded
  | inr whole ↦ rw whole
]

ingest_cfg : (a : Aggregator) (rs : List Record) (now : ℕ) → (ingest a rs now).cfg ≡ a.cfg
unfolding ingest
ingest_cfg a [] now = refl
ingest_cfg a (r ∷ rs) now =
    ingest_cfg (ingest_one a r (reading_of r) now) rs now ∙ ingest_one_cfg a r (reading_of r) now

sweep_all-IsWithinBounds :
    (a : Aggregator) (now : ℕ) → IsWithinBounds a → IsWithinBounds (sweep_all a now)
unfolding sweep_all
sweep_all-IsWithinBounds a now h = record {
  exporters = sweep_table-IsBoundedIf _ a.exporters _ h.exporters;
  hosts = sweep_table-IsBoundedIf _ a.hosts _ h.hosts;
  services = sweep_table-IsBoundedIf _ a.services _ h.services;
  destinations = sweep_table-IsBoundedIf _ a.destinations _ h.destinations;
  tcp_flags = sweep_table-IsBoundedIf _ a.tcp_flags _ h.tcp_flags;
  dscp = sweep_table-IsBoundedIf _ a.dscp _ h.dscp;
  asns = sweep_table-IsBoundedIf _ a.asns _ h.asns;
  apps = sweep_table-IsBoundedIf _ a.apps _ h.apps;
  countries = sweep_table-IsBoundedIf _ a.countries _ h.countries;
  threats = sweep_table-IsBoundedIf _ a.threats _ h.threats;
  vlans = sweep_table-IsBoundedIf _ a.vlans _ h.vlans;
}

table_if-IsBoundedIf :
    (K : Type 0) ⦃e : Comparable K⦄ (enabled : Bool) (max : ℕ)
    → IsBoundedIf max (table_if {K = K} enabled max)
table_if-IsBoundedIf K true max = (record { distinct = tt; within = omega arith }, refl)
table_if-IsBoundedIf K false max = tt

new_aggregator-IsWithinBounds :
    (cfg : Aggregation) (m : Modules) (lookup : ServiceLookup)
    → IsWithinBounds (new_aggregator cfg m lookup)
unfolding new_aggregator
new_aggregator-IsWithinBounds cfg m lookup = record {
  exporters = table_if-IsBoundedIf _ m.exporters _;
  hosts = table_if-IsBoundedIf _ m.hosts _;
  services = table_if-IsBoundedIf _ m.services _;
  destinations = table_if-IsBoundedIf _ m.destinations _;
  tcp_flags = table_if-IsBoundedIf _ m.tcp_flags _;
  dscp = table_if-IsBoundedIf _ m.dscp _;
  asns = table_if-IsBoundedIf _ m.asns _;
  apps = table_if-IsBoundedIf _ m.applications _;
  countries = table_if-IsBoundedIf _ m.countries _;
  threats = table_if-IsBoundedIf _ m.threats _;
  vlans = table_if-IsBoundedIf _ m.vlans _;
}

-- What happens to an aggregator: a batch at an instant, or the sweep at one.
pub data Event : Type 0 where
  batch : List Record → ℕ → Event
  tick : ℕ → Event

pub run : Aggregator → List Event → Aggregator
run a [] = a
run a (batch rs now ∷ events) = run (ingest a rs now) events
run a (tick now ∷ events) = run (sweep_all a now) events

run_keeps :
    (a : Aggregator) (events : List Event) → IsWithinBounds a → IsWithinBounds (run a events)
unfolding run
run_keeps a [] h = h
run_keeps a (batch rs now ∷ events) h =
    run_keeps (ingest a rs now) events (ingest-IsWithinBounds a rs now h)
run_keeps a (tick now ∷ events) h =
    run_keeps (sweep_all a now) events (sweep_all-IsWithinBounds a now h)

run_cfg : (a : Aggregator) (events : List Event) → (run a events).cfg ≡ a.cfg
unfolding run
run_cfg a [] = refl
run_cfg a (batch rs now ∷ events) = run_cfg (ingest a rs now) events ∙ ingest_cfg a rs now
run_cfg a (tick now ∷ events) = run_cfg (sweep_all a now) events ∙ (unfold sweep_all in refl)

-- From its construction on, whatever batches and sweeps come, every enabled table holds no key
-- twice and at most as many entries as the configuration allows.
pub run-IsWithinBounds :
    (cfg : Aggregation) (m : Modules) (lookup : ServiceLookup) (events : List Event)
    → let a = run (new_aggregator cfg m lookup) events in
      IsWithinBounds a × (a.cfg.max_entries ≡ cfg.max_entries)
unfolding new_aggregator
run-IsWithinBounds cfg m lookup events = (
  run_keeps (new_aggregator cfg m lookup) events (new_aggregator-IsWithinBounds cfg m lookup),
  ap (λ (c : Aggregation). c.max_entries) (run_cfg (new_aggregator cfg m lookup) events),
)
