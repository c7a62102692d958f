-- ===== src/Examples/Aggregation.antt =====
-- The theorems on internal/aggregator at concrete tables and batches.
use xflow_exporter.Common.{
  ℕ, ◌+◌, ◌%◌, ◌^◌, ◌≡◌, refl, arith, Bool, true, false, not, ◌||◌, List, [], ◌∷◌, some, lookup,
  length, nat_eq, nat_eqb, if◌then◌else◌, is_some, add64, Distinct,
}
use xflow_exporter.Flow.{Record, zero_record, v4, netflow_v5, netflow_v8}
use xflow_exporter.Aggregator.Tables.{
  Reading, Table, new_table, fresh_entry, entry_add, entry_totals, add, sweep,
}
use xflow_exporter.Aggregator.Tables.Calls.{Call, adding, sweeping, calls}
use xflow_exporter.Aggregator.Tables.Adding.{add_effect, entry_after, is_full}
use xflow_exporter.Aggregator.Tables.Sweeping.{kept_entry, sweep_effect}
use xflow_exporter.Aggregator.Tables.Bounds.{IsBounded}
use xflow_exporter.Aggregator.Tables.Births.{IsStamped}
use xflow_exporter.Aggregator.Tables.Ledger.{
  bytes, of_totals, carried, swept, ingested, calls_ledger,
}
use xflow_exporter.Aggregator.Tables.Entries.{
  entry_fold, sum_of, all_bytes_measured, all_packets_measured, entry_totals-fold,
}
use xflow_exporter.Aggregator.{Aggregation, Modules, Aggregator, new_aggregator, ingest}
use xflow_exporter.Aggregator.Feeding.{keyed_part, per_flow, ingest_ignores_folded}
use xflow_exporter.Aggregator.Conservation.{
  carried_in, share, if_enabled, always, has_pair, has_service, has_destination, ingest_conserves,
}
use xflow_exporter.Aggregator.Bounded.{batch, tick, run, IsWithinBounds, run-IsWithinBounds}

abbrev reading : Reading
reading = record {
  bytes = 100;
  packets = 2;
  flows = 1;
  bytes_measured = true;
  packets_measured = false;
}

-- A table of two keys that is full.
abbrev full_table : Table ℕ
full_table = record (new_table 2) {
  entries =
      ((7, record (fresh_entry 1) { bytes = 40; last_seen = 10 })
        ∷ (8, record (fresh_entry 2) { bytes = 50; last_seen = 20 })
        ∷ []);
  next_born = 2;
}

full_table-IsBounded : IsBounded full_table
unfolding lookup
full_table-IsBounded = record { distinct = (refl, (refl, tt)); within = omega arith }

abbrev traffic : List (Call ℕ)
traffic = adding 9 reading 21 ∷ sweeping 15 ∷ adding 9 reading 22 ∷ []

add_effect_example :
    (lookup 9 (add full_table 9 reading 21).entries ≡ (
      if nat_eqb 9 9
      then entry_after (lookup 9 full_table.entries) (is_full full_table) (add64 2 1) reading 21
      else lookup 9 full_table.entries))
    × ((add full_table 9 reading 21).overflow ≡ (
        if is_some (lookup 9 full_table.entries) || not (is_full full_table)
        then full_table.overflow
        else entry_add full_table.overflow reading 21))
    × ((add full_table 9 reading 21).capacity_folds ≡ (
        if is_some (lookup 9 full_table.entries) || not (is_full full_table) then 0 else add64 0 1))
    × ((add full_table 9 reading 21).max_entries ≡ 2)
add_effect_example = add_effect full_table 9 9 reading 21

sweep_effect_example :
    (lookup 8 (sweep full_table 15).0.entries ≡ kept_entry 15 (lookup 8 full_table.entries))
    × (length (sweep full_table 15).0.entries + (sweep full_table 15).1 ≡ 2)
    × ((sweep full_table 15).0.idle_evictions ≡ add64 0 (sweep full_table 15).1)
    × Distinct (sweep full_table 15).0.entries
sweep_effect_example = sweep_effect full_table 15 8 full_table-IsBounded.distinct

full_table-IsStamped : IsStamped full_table
unfolding lookup
full_table-IsStamped = record {
  given = λ k n h. ground (arith, h);
  unique = λ j k n hj hk. ground (arith, hj, hk);
}

calls_ledger_example :
    (carried bytes (calls full_table traffic) + swept bytes full_table traffic) % 2 ^ 64
    ≡ (carried bytes full_table + ingested bytes traffic) % 2 ^ 64
calls_ledger_example = calls_ledger bytes full_table traffic

abbrev unmeasured : List (Reading × ℕ)
unmeasured = (reading, 5) ∷ (record reading { bytes_measured = false }, 6) ∷ []

entry_totals-fold_example :
    (of_totals bytes (entry_totals (entry_fold (fresh_entry 3) unmeasured))
      ≡ sum_of bytes unmeasured % 2 ^ 64)
    × ((entry_totals (entry_fold (fresh_entry 3) unmeasured)).bytes_measured
        ≡ all_bytes_measured unmeasured)
    × ((entry_totals (entry_fold (fresh_entry 3) unmeasured)).packets_measured
        ≡ all_packets_measured unmeasured)
entry_totals-fold_example = entry_totals-fold bytes 3 unmeasured

-- HTTPS alone names a service.
abbrev https : ℕ → ℕ → Bool
https protocol port = nat_eqb port 443

abbrev all_modules : Modules
all_modules = record {
  exporters = true;
  hosts = true;
  services = true;
  destinations = true;
  tcp_flags = true;
  dscp = true;
  asns = true;
  applications = true;
  countries = true;
  threats = true;
  vlans = true;
}

abbrev settings : Aggregation
settings = record { max_entries = 100; entry_ttl = 300 }

abbrev collector : Aggregator
collector = new_aggregator settings all_modules (some https)

abbrev web_flow : Record
web_flow = record zero_record {
  exporter = v4 1;
  version = netflow_v5;
  src_addr = v4 10;
  dst_addr = v4 20;
  src_port = 51000;
  dst_port = 443;
  protocol = 6;
  bytes = 1200;
  packets = 3;
  flows = 1;
  bytes_reported = true;
  packets_reported = true;
}

abbrev records : List Record
records = web_flow ∷ record web_flow { version = netflow_v8; flows = 12 } ∷ []

ingest_conserves_example :
    let a' = ingest collector records 50 in
    (carried_in bytes a'.exporters % 2 ^ 64
      ≡ (carried_in bytes collector.exporters
          + if_enabled collector.exporters (share bytes always records))
        % 2 ^ 64)
    × (carried_in bytes a'.hosts % 2 ^ 64
        ≡ (carried_in bytes collector.hosts
            + if_enabled collector.hosts (share bytes has_pair records))
          % 2 ^ 64)
    × (carried_in bytes a'.services % 2 ^ 64
        ≡ (carried_in bytes collector.services
            + if_enabled collector.services (share bytes has_service records))
          % 2 ^ 64)
    × (carried_in bytes a'.destinations % 2 ^ 64
        ≡ (carried_in bytes collector.destinations
            + if_enabled collector.destinations (share bytes has_destination records))
          % 2 ^ 64)
ingest_conserves_example = ingest_conserves bytes collector records 50

ingest_ignores_folded_example :
    keyed_part (ingest collector records 50) ≡ keyed_part (ingest collector (per_flow records) 50)
ingest_ignores_folded_example = ingest_ignores_folded collector records 50

run-IsWithinBounds_example :
    let a = run collector (batch records 50 ∷ tick 400 ∷ batch records 410 ∷ []) in
    IsWithinBounds a × (a.cfg.max_entries ≡ 100)
run-IsWithinBounds_example =
    run-IsWithinBounds settings all_modules (some https)
      (batch records 50 ∷ tick 400 ∷ batch records 410 ∷ [])
