-- ===== src/Decoder/Stats/Sweeping.antt =====
-- Which devices the idle sweep evicts, internal/decoder/stats.go.
use xflow_exporter.Common.{
  ℕ, ◌≡◌, Bool, true, false, not, ◌&&◌, Option, none, some, List, [], ◌∷◌, Map, Distinct, refl,
  arith, lookup, if◌then◌else◌, is_some, ltb, leb, ◌==◌,
}
use xflow_exporter.Flow.{Addr}
use xflow_exporter.Flow.Identity.{addr_eq, addr_eqb_iff}
use xflow_exporter.Decoder.Stats.{
  ExporterStats, Stats, max_exporters, sweep_idle, sweep_devices, admitted,
}

-- A device that was heard from at the cutoff or since.
abbrev pub kept_by : ℕ → Option ExporterStats → Option ExporterStats
kept_by cutoff none = none
kept_by cutoff (some e) = if leb cutoff e.last_seen then some e else none

abbrev pub occurs : Addr → List Addr → Bool
occurs addr [] = false
occurs addr (a ∷ rest) = if a == addr then true else occurs addr rest

sweep_devices_effect :
    (cutoff : ℕ) (addr : Addr) (m : Map Addr ExporterStats)
    → Distinct m
    → (lookup addr (sweep_devices cutoff m).0 ≡ kept_by cutoff (lookup addr m))
      × (occurs addr (sweep_devices cutoff m).1 ≡ (
          if is_some (lookup addr m)
          then not (is_some (kept_by cutoff (lookup addr m)))
          else false))
unfolding sweep_devices lookup
sweep_devices_effect cutoff addr [] h = (refl, refl)
sweep_devices_effect cutoff addr ((a, e) ∷ m) (ha, hm) =
    ground (arith, addr_eqb_iff a addr, sweep_devices_effect cutoff addr m hm)

-- Over distinct devices, a sweep below the budget leaves every device's counters as they are; at the
-- budget exactly the devices last heard from before the cutoff go, and the others keep their
-- counters. Either way the addresses returned are those of the devices that went, and the count of
-- refusals stands.
pub sweep_idle_effect :
    (cutoff : ℕ) (addr : Addr) (s : Stats)
    → Distinct s.exporters
    → let (s', evicted) = sweep_idle cutoff s in
      let found = lookup addr s.exporters in
      (lookup addr s'.exporters
        ≡ (if ltb s.live max_exporters then found else kept_by cutoff found))
      × (occurs addr evicted ≡ (admitted addr s && not (admitted addr s')))
      × (s'.refused ≡ s.refused)
unfolding sweep_idle admitted
sweep_idle_effect cutoff addr s h =
    let effect = sweep_devices_effect cutoff addr s.exporters h in ground (arith, effect)
