-- ===== src/Decoder/Samplers.antt =====
-- The flow samplers of one sFlow domain, internal/decoder/templates.go: `trackSamplerLocked` and
-- `pruneIdleSamplersLocked`.
pub mod Totals
pub mod Cache
use Prim.Native.Nat.{min}
use xflow_exporter.Common.{
  ℕ, ◌+◌, ◌-◌, ◌%◌, ◌^◌, Bool, true, false, not, ◌&&◌, ◌||◌, Option, none, some, List, [], ◌∷◌, Map,
  lookup, insert, length, if◌then◌else◌, ltb, leb, nat_eqb, nat_eq, add64, sub32,
}
use xflow_exporter.Decoder.Domain.{DomainState, SamplerState, max_samplers_per_domain, max_late_run}
use xflow_exporter.Decoder.Sequence.{forward_window, reorder_window}

-- The loop of `pruneIdleSamplersLocked`: what stays, and the oldest instant seen.
unfoldable pub prune_samplers_loop : ℕ → Map ℕ SamplerState → ℕ → Map ℕ SamplerState × ℕ
prune_samplers_loop cutoff [] oldest = ([], oldest)
prune_samplers_loop cutoff ((id, s) ∷ rest) oldest = elim (ltb s.last_seen cutoff) [
  | true ↦ prune_samplers_loop cutoff rest oldest
  | false ↦
      let (kept, least) =
        prune_samplers_loop cutoff rest (if ltb s.last_seen oldest then s.last_seen else oldest) in
      ((id, s) ∷ kept, least)
]

-- `pruneIdleSamplersLocked`
unfoldable pub prune_idle_samplers : DomainState → ℕ → ℕ → DomainState
unfolding prune_samplers_loop
prune_idle_samplers d now ttl =
    let (kept, oldest) = prune_samplers_loop (now - ttl) d.samplers now in
    record d { samplers = kept; samplers_oldest = oldest; recent = none }

-- The sampler that the last sample named, or the map's.
unfoldable pub held_sampler : DomainState → ℕ → Option SamplerState
held_sampler d id = elim d.recent [
  | none ↦ lookup id d.samplers
  | some (recent_id, s) ↦ if nat_eqb recent_id id then some s else lookup id d.samplers
]

abbrev pub samplers_full : DomainState → Bool
samplers_full d = leb max_samplers_per_domain (length d.samplers)

-- Room for one more sampler: the domain, pruned where that can free some, and whether it has room.
unfoldable pub make_room : DomainState → ℕ → ℕ → DomainState × Bool
make_room d at ttl =
    if not (samplers_full d)
    then (d, true)
    else if leb (at - d.samplers_oldest) ttl
    then (d, false)
    else let pruned = prune_idle_samplers d at ttl in (pruned, not (samplers_full pruned))

-- A write through the sampler's pointer: the map and the cache share it.
abbrev pub put_sampler : DomainState → ℕ → SamplerState → DomainState
put_sampler d id s = record d { samplers = insert id s d.samplers; recent = some (id, s) }

-- What a sample that is neither late nor a restart adds to the domain's totals.
unfoldable pub accumulate : DomainState → SamplerState → ℕ → ℕ → DomainState
accumulate d last pool drops =
    let pool_delta = sub32 pool last.pool in
    let drops_delta = sub32 drops last.drops in
    record d {
      sample_pool =
          if ltb pool_delta forward_window then add64 d.sample_pool pool_delta else d.sample_pool;
      pool_measured = if ltb pool_delta forward_window then true else d.pool_measured;
      samples_dropped =
          if ltb drops_delta forward_window
          then add64 d.samples_dropped drops_delta
          else d.samples_dropped;
      drops_measured = if ltb drops_delta forward_window then true else d.drops_measured;
    }

-- The two tests of the switch: a sample from before the current position, and a restart or a
-- reconfiguration.
abbrev pub is_late : DomainState → SamplerState → SamplerState → Bool
is_late d last reading =
    ltb (2 ^ 32 - 1 - reorder_window) (sub32 reading.seq last.seq)
    && leb reading.pool last.pool
    && ltb d.late_run max_late_run

abbrev pub is_rebased : SamplerState → SamplerState → Bool
is_rebased last reading =
    leb forward_window (sub32 reading.seq last.seq) || not (nat_eqb reading.rate last.rate)

-- One sample of a sampler that is held, measured from its last reading.
unfoldable pub measure_sample : DomainState → ℕ → SamplerState → SamplerState → DomainState
measure_sample d id last reading =
    if is_late d last reading
    then record d { late_run = d.late_run + 1; recent = some (id, last) }
    else let measured =
        if is_rebased last reading then d else accumulate d last reading.pool reading.drops in
      put_sampler (record measured { late_run = 0 }) id reading

-- `trackSamplerLocked`: the domain, with the store's count of refused samples. The reading carries
-- the sample's fields, and its instant is when the domain was last seen.
unfoldable pub track_sampler : DomainState → ℕ → ℕ → ℕ → ℕ → ℕ → ℕ → ℕ → ℕ → DomainState × ℕ
track_sampler d ttl refused id seq rate pool drops at =
    let reading : SamplerState = record {
      seq = seq;
      rate = rate;
      pool = pool;
      drops = drops;
      last_seen = at;
    } in
    elim (held_sampler d id) [
      | some last ↦ (measure_sample d id last reading, refused)
      | none ↦
          let (d', room) = make_room d at ttl in
          if room then (put_sampler d' id reading, refused) else (d', add64 refused 1)
    ]
