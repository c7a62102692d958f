-- ===== src/Decoder/Samplers/Cache.antt =====
-- The cache of the last sampler, and the bound on samplers, internal/decoder/templates.go.
use xflow_exporter.Common.{
  ℕ, ◌-◌, ◌≡◌, ◌≤◌, ◌<◌, ◌⊎◌, true, Option, some, Map, lookup, length, nat_eq, refl, sym, ◌∙◌,
  arith, lookup-insert, length-insert, [], ◌∷◌, leb, ltb, Option-cases, Bool-cases, inl, inr,
  if◌then◌else◌, is_some,
}
use xflow_exporter.Decoder.Domain.{DomainState, SamplerState, max_samplers_per_domain}
use xflow_exporter.Decoder.Samplers.{
  is_late, is_rebased, held_sampler, make_room, put_sampler, measure_sample, track_sampler,
  accumulate, prune_idle_samplers, prune_samplers_loop, samplers_full,
}

-- The cached sampler is the map's, and the map is within its bound.
pub record IsConsistent (d : DomainState) : Type 0 where
  pub cached : (id : ℕ) (s : SamplerState) → d.recent ≡ some (id, s) → lookup id d.samplers ≡ some s
  pub within : length d.samplers ≤ max_samplers_per_domain

held_sampler-lookup :
    (d : DomainState) (id : ℕ) → IsConsistent d → held_sampler d id ≡ lookup id d.samplers
unfolding held_sampler
held_sampler-lookup d id h = elim (Option-cases d.recent) [
  | inl empty ↦ rw (empty, held_sampler)
  | inr ((recent_id, s), e) ↦ rw (e, held_sampler) (ground (arith, h.cached recent_id s e))
]

prune_shorter :
    (cutoff : ℕ) (m : Map ℕ SamplerState) (oldest : ℕ)
    → length (prune_samplers_loop cutoff m oldest).0 ≤ length m
unfolding prune_samplers_loop
prune_shorter cutoff [] oldest = omega arith
prune_shorter cutoff ((id, s) ∷ m) oldest = ground (
  arith,
  prune_shorter cutoff m oldest,
  prune_shorter cutoff m (if ltb s.last_seen oldest then s.last_seen else oldest),
)

some_pair :
    (i j : ℕ) (a b : SamplerState)
    → ◌≡◌ {A = Option (ℕ × SamplerState)} (some (i, a)) (some (j, b))
    → (i ≡ j) × (a ≡ b)
some_pair i j a b e = ground arith

-- A domain whose cache is empty or holds one of its own samplers stays consistent if the sampler is
-- written through both.
put_sampler-IsConsistent :
    (d : DomainState) (id : ℕ) (s : SamplerState)
    → (is_some (lookup id d.samplers) ≡ true) ⊎ (length d.samplers < max_samplers_per_domain)
    → length d.samplers ≤ max_samplers_per_domain
    → IsConsistent (put_sampler d id s)
put_sampler-IsConsistent d id s room within = record {
  cached = λ j t e. ground (arith, lookup-insert id j s d.samplers, some_pair id j s t e);
  within = ground (arith, length-insert id s d.samplers);
}

measure_sample-IsConsistent :
    (d : DomainState) (id : ℕ) (last reading : SamplerState)
    → lookup id d.samplers ≡ some last
    → IsConsistent d
    → IsConsistent (measure_sample d id last reading)
unfolding measure_sample accumulate
measure_sample-IsConsistent d id last reading found h = elim (Bool-cases (is_late d last reading)) [
  | inl late ↦
      rw late
        (record { cached = λ j t e. ground (arith, some_pair id j last t e); within = h.within })
  | inr timely ↦ elim (Bool-cases (is_rebased last reading)) [
    | inl restart ↦
        rw (timely, restart)
          (put_sampler-IsConsistent (record d { late_run = 0 }) id reading (inl (rw found refl))
            h.within)
    | inr step ↦
        rw (timely, step)
          (put_sampler-IsConsistent
            (record (accumulate d last reading.pool reading.drops) { late_run = 0 }) id reading
            (inl (rw found refl)) h.within)
  ]
]

prune_idle_samplers-IsConsistent :
    (d : DomainState) (now ttl : ℕ) → IsConsistent d → IsConsistent (prune_idle_samplers d now ttl)
unfolding prune_idle_samplers
prune_idle_samplers-IsConsistent d now ttl h = record {
  cached = λ j t e. cc;
  within = omega (arith, prune_shorter (now - ttl) d.samplers now, h.within);
}

make_room_lem :
    (d : DomainState) (at ttl : ℕ)
    → IsConsistent d
    → IsConsistent (make_room d at ttl).0
      × ((make_room d at ttl).1 ≡ true
          → length (make_room d at ttl).0.samplers < max_samplers_per_domain)
unfolding make_room
make_room_lem d at ttl h = elim (Bool-cases (samplers_full d)) [
  | inr roomy ↦ rw roomy (h, λ e. ground arith)
  | inl full ↦ elim (Bool-cases (leb (at - d.samplers_oldest) ttl)) [
    | inl fresh ↦ rw (full, fresh) (h, λ e. cc)
    | inr stale ↦ rw (full, stale) (prune_idle_samplers-IsConsistent d at ttl h, λ e. ground arith)
  ]
]

-- The cache changes nothing that a sample can tell: from a consistent domain a sample reads the
-- sampler that the map holds under its identifier. And whatever the sample, the domain stays
-- consistent, with at most 4096 samplers.
pub track_sampler-IsConsistent :
    (d : DomainState) (ttl refused id seq rate pool drops at : ℕ)
    → IsConsistent d
    → (held_sampler d id ≡ lookup id d.samplers)
      × IsConsistent (track_sampler d ttl refused id seq rate pool drops at).0
unfolding track_sampler
track_sampler-IsConsistent d ttl refused id seq rate pool drops at h = (
  held_sampler-lookup d id h,
  elim (Option-cases (held_sampler d id)) [
    | inr (last, held) ↦
        rw (held, track_sampler)
          (measure_sample-IsConsistent d id last _ (sym (held_sampler-lookup d id h) ∙ held) h)
    | inl new ↦ elim (Bool-cases (make_room d at ttl).1) [
      | inl room ↦
          rw (new, track_sampler)
            (rw room (
              put_sampler-IsConsistent (make_room d at ttl).0 id _
                (inr ((make_room_lem d at ttl h).1 room)) (make_room_lem d at ttl h).0.within))
      | inr refusal ↦ rw (new, track_sampler) (rw refusal (make_room_lem d at ttl h).0)
    ]
  ],
)
