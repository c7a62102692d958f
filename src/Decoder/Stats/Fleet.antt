-- ===== src/Decoder/Stats/Fleet.antt =====
-- The bound on devices, internal/decoder/stats.go.
use xflow_exporter.Common.{
  ℕ, ◌≤◌, ◌≡◌, none, List, [], ◌∷◌, Map, Distinct, length, refl, arith, lookup, Bool-cases,
  Option-cases, inl, inr, ltb, leb, Distinct-insert, length-insert,
}
use xflow_exporter.Flow.{Addr, Version, Time}
use xflow_exporter.Flow.Identity.{addr_eq, addr_eqb_iff}
use xflow_exporter.Decoder.Reason.{Reason}
use xflow_exporter.Decoder.Stats.{
  ExporterStats, Stats, max_exporters, unix_nano, fresh_exporter, exporter, account, count_flows,
  count_error, sweep_idle, sweep_devices,
}

-- A call on the statistics.
pub data Call : Type 0 where
  arrival : Addr → Time → Call
  flows_counted : Addr → Version → ℕ → Time → Call
  error_counted : Addr → Version → Reason → Call
  idle_sweep : ℕ → Call

abbrev pub call : Stats → Call → Stats
call s (arrival addr at) = (exporter addr at s).0
call s (flows_counted addr version records at) = account addr (count_flows version records at) s
call s (error_counted addr version reason) = account addr (count_error version reason) s
call s (idle_sweep cutoff) = (sweep_idle cutoff s).0

abbrev pub calls : Stats → List Call → Stats
calls s [] = s
calls s (c ∷ cs) = calls (call s c) cs

-- Each device once, no more devices than the budget, and the lock-free count true.
pub record IsWithinFleet (s : Stats) : Type 0 where
  pub distinct : Distinct s.exporters
  pub bounded : length s.exporters ≤ max_exporters
  pub mirrored : s.live ≡ length s.exporters

exporter-IsWithinFleet :
    (addr : Addr) (at : Time) (s : Stats) → IsWithinFleet s → IsWithinFleet (exporter addr at s).0
unfolding exporter
exporter-IsWithinFleet addr at s h = elim (Option-cases (lookup addr s.exporters)) [
  | inr (e, held) ↦
      let seen : ExporterStats = record e { last_seen = unix_nano at } in
      rw (held, exporter)
        (record {
          distinct = Distinct-insert addr seen s.exporters h.distinct;
          bounded = ground (arith, h.bounded, length-insert addr seen s.exporters);
          mirrored = ground (arith, h.mirrored, length-insert addr seen s.exporters);
        })
  | inl absent ↦ elim (Bool-cases (leb max_exporters s.live)) [
    | inl full ↦
        rw (absent, full, exporter)
          (record { distinct = h.distinct; bounded = h.bounded; mirrored = h.mirrored })
    | inr room ↦ elim (Bool-cases (leb max_exporters (length s.exporters))) [
      | inl full ↦
          rw (absent, room, full, exporter)
            (record { distinct = h.distinct; bounded = h.bounded; mirrored = h.mirrored })
      | inr below ↦
          let created : ExporterStats = record fresh_exporter { last_seen = unix_nano at } in
          rw (absent, room, below, exporter)
            (record {
              distinct = Distinct-insert addr created s.exporters h.distinct;
              bounded = ground (arith, length-insert addr created s.exporters);
              mirrored = refl;
            })
    ]
  ]
]

account-IsWithinFleet :
    (addr : Addr) (change : ExporterStats → ExporterStats) (s : Stats)
    → IsWithinFleet s
    → IsWithinFleet (account addr change s)
unfolding account
account-IsWithinFleet addr change s h = elim (Option-cases (lookup addr s.exporters)) [
  | inl absent ↦ rw (absent, account) h
  | inr (e, held) ↦
      rw (held, account)
        (record {
          distinct = Distinct-insert addr (change e) s.exporters h.distinct;
          bounded = ground (arith, h.bounded, length-insert addr (change e) s.exporters);
          mirrored = ground (arith, h.mirrored, length-insert addr (change e) s.exporters);
        })
]

lookup-sweep_devices :
    (cutoff : ℕ) (addr : Addr) (m : Map Addr ExporterStats)
    → lookup addr m ≡ none
    → lookup addr (sweep_devices cutoff m).0 ≡ none
unfolding sweep_devices lookup
lookup-sweep_devices cutoff addr [] h = refl
lookup-sweep_devices cutoff addr ((a, e) ∷ m) h =
    ground (arith, addr_eqb_iff a addr, lookup-sweep_devices cutoff addr m)

sweep_devices-Distinct :
    (cutoff : ℕ) (m : Map Addr ExporterStats) → Distinct m → Distinct (sweep_devices cutoff m).0
unfolding sweep_devices
sweep_devices-Distinct cutoff [] h = tt
sweep_devices-Distinct cutoff ((a, e) ∷ m) (ha, hm) =
    ground (arith, sweep_devices-Distinct cutoff m hm, lookup-sweep_devices cutoff a m ha)

length-sweep_devices :
    (cutoff : ℕ) (m : Map Addr ExporterStats) → length (sweep_devices cutoff m).0 ≤ length m
unfolding sweep_devices
length-sweep_devices cutoff [] = omega arith
length-sweep_devices cutoff ((a, e) ∷ m) = ground (arith, length-sweep_devices cutoff m)

sweep_idle-IsWithinFleet :
    (cutoff : ℕ) (s : Stats) → IsWithinFleet s → IsWithinFleet (sweep_idle cutoff s).0
unfolding sweep_idle
sweep_idle-IsWithinFleet cutoff s h = elim (Bool-cases (ltb s.live max_exporters)) [
  | inl below ↦ rw below h
  | inr full ↦ rw full (record {
    distinct = sweep_devices-Distinct cutoff s.exporters h.distinct;
    bounded = ground (arith, h.bounded, length-sweep_devices cutoff s.exporters);
    mirrored = refl;
  })
]

call-IsWithinFleet : (s : Stats) (c : Call) → IsWithinFleet s → IsWithinFleet (call s c)
call-IsWithinFleet s (arrival addr at) h = exporter-IsWithinFleet addr at s h
call-IsWithinFleet s (flows_counted addr version records at) h = account-IsWithinFleet addr _ s h
call-IsWithinFleet s (error_counted addr version reason) h = account-IsWithinFleet addr _ s h
call-IsWithinFleet s (idle_sweep cutoff) h = sweep_idle-IsWithinFleet cutoff s h

-- Whatever calls follow one another, from statistics where each device stands once, within the
-- budget of devices and with the lock-free count true, all three still hold.
pub calls-IsWithinFleet :
    (s : Stats) (cs : List Call) → IsWithinFleet s → IsWithinFleet (calls s cs)
calls-IsWithinFleet s [] h = h
calls-IsWithinFleet s (c ∷ cs) h = calls-IsWithinFleet (call s c) cs (call-IsWithinFleet s c h)
