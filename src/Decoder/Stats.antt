-- ===== src/Decoder/Stats.antt =====
-- internal/decoder/stats.go: the decode counters of each device, and the bound on devices. The
-- fast path of `exporter` and the path under its lock are one step here, so the second look that
-- `exporter` takes under the lock finds what the first one found. Instants are nanoseconds since
-- the Unix epoch.
pub mod Fleet
pub mod Sweeping
use xflow_exporter.Common.{
  ℕ, ◌+◌, ◌-◌, ◌≡◌, ◌↔◌, Bool, true, false, ◌&&◌, Option, none, some, List, [], ◌∷◌, Map, lookup,
  insert, erase, length, if◌then◌else◌, ltb, leb, add64, Comparable, ◌==◌, nat_eq, nat_eqb, arith,
  pair_eq,
}
use xflow_exporter.Flow.{Addr, Version, Time, unix_epoch}
use xflow_exporter.Flow.Identity.{addr_eq, version_eq}
use xflow_exporter.Decoder.Reason.{
  Reason, unsupported_version, malformed, unsupported_aggregation, missing_template,
  invalid_template, reserved_set, domain_limit, unsupported_header_protocol,
}

abbrev reason_code : Reason → ℕ
reason_code unsupported_version = 0
reason_code malformed = 1
reason_code unsupported_aggregation = 2
reason_code missing_template = 3
reason_code invalid_template = 4
reason_code reserved_set = 5
reason_code domain_limit = 6
reason_code unsupported_header_protocol = 7

abbrev pub reason_eqb : Reason → Reason → Bool
reason_eqb r s = nat_eqb (reason_code r) (reason_code s)

pub reason_eqb_iff : (r s : Reason) → (reason_eqb r s ≡ true) ↔ (r ≡ s)
reason_eqb_iff r s = ground arith

instance abbrev pub reason_eq : Comparable Reason
reason_eq = record { equals = reason_eqb; equals_iff = reason_eqb_iff }

abbrev pub max_exporters : ℕ
max_exporters = 65536

-- `Time.UnixNano` of an instant that is not before 1970
abbrev pub unix_nano : Time → ℕ
unix_nano at = at - unix_epoch

-- `ExporterStats`: a counter that is absent stands at 0.
pub record ExporterStats : Type 0 where
  pub flows : Map Version ℕ
  pub errors : Map (Version × Reason) ℕ
  pub last_flow : ℕ
  pub last_seen : ℕ

pub record Stats : Type 0 where
  pub exporters : Map Addr ExporterStats
  pub live : ℕ
  pub refused : ℕ

abbrev pub fresh_exporter : ExporterStats
fresh_exporter = record { flows = []; errors = []; last_flow = 0; last_seen = 0 }

-- `newStats`
abbrev pub new_stats : Stats
new_stats = record { exporters = []; live = 0; refused = 0 }

abbrev pub count_of {ℓ} : {K : Type ℓ} ⦃e : Comparable K⦄ → K → Map K ℕ → ℕ
count_of k m = elim (lookup k m) [ none ↦ 0 | some n ↦ n ]

-- `ExporterStats.countFlows` on a device that holds counters
unfoldable pub count_flows : Version → ℕ → Time → ExporterStats → ExporterStats
count_flows version records at e = record e {
  flows = insert version (add64 (count_of version e.flows) records) e.flows;
  last_flow = if ltb 0 records then unix_nano at else e.last_flow;
}

-- `ExporterStats.countError` on a device that holds counters
unfoldable pub count_error : Version → Reason → ExporterStats → ExporterStats
count_error version reason e = record e {
  errors = insert (version, reason) (add64 (count_of (version, reason) e.errors) 1) e.errors;
}

-- `Stats.exporter`: whether the device has counters; `none` stands for the nil it returns else.
unfoldable pub exporter : Addr → Time → Stats → Stats × Option ExporterStats
exporter addr at s = elim (lookup addr s.exporters) [
  | some e ↦
      let seen : ExporterStats = record e { last_seen = unix_nano at } in
      (record s { exporters = insert addr seen s.exporters }, some seen)
  | none ↦
      if leb max_exporters s.live
      then (record s { refused = add64 s.refused 1 }, none)
      else if leb max_exporters (length s.exporters)
      then (record s { refused = add64 s.refused 1 }, none)
      else let created : ExporterStats = record fresh_exporter { last_seen = unix_nano at } in
        let grown = insert addr created s.exporters in
        (record s { exporters = grown; live = length grown }, some created)
]

-- What a call through the pointer that `exporter` returned does to the device's counters.
unfoldable pub account : Addr → (ExporterStats → ExporterStats) → Stats → Stats
account addr change s = elim (lookup addr s.exporters) [
  | none ↦ s
  | some e ↦ record s { exporters = insert addr (change e) s.exporters }
]

-- `admitted`
unfoldable pub admitted : Addr → Stats → Bool
admitted addr s = elim (lookup addr s.exporters) [ none ↦ false | some e ↦ true ]

-- The loop of `sweepIdle`: the devices that stay and the addresses it evicts.
unfoldable pub sweep_devices : ℕ → Map Addr ExporterStats → Map Addr ExporterStats × List Addr
sweep_devices cutoff [] = ([], [])
sweep_devices cutoff ((addr, e) ∷ rest) =
    let (kept, evicted) = sweep_devices cutoff rest in
    if leb cutoff e.last_seen then ((addr, e) ∷ kept, evicted) else (kept, addr ∷ evicted)

-- `sweepIdle`
unfoldable pub sweep_idle : ℕ → Stats → Stats × List Addr
unfolding sweep_devices
sweep_idle cutoff s =
    if ltb s.live max_exporters
    then (s, [])
    else let (kept, evicted) = sweep_devices cutoff s.exporters in
      (record s { exporters = kept; live = length kept }, evicted)
