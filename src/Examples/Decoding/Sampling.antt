-- ===== src/Examples/Decoding/Sampling.antt =====
-- The theorems on samplers and sampling declarations of internal/decoder at concrete states.
use xflow_exporter.Common.{
  ℕ, length, ◌+◌, ◌≤◌, ◌<◌, ◌↔◌, ℕ, ◌+◌, ◌<◌, ◌≡◌, refl, arith, true, false, List, [], ◌∷◌, none,
  some, lookup, nat_eq,
}
use xflow_exporter.Decoder.Domain.{
  DomainState, SamplerState, SamplerTable, ScopedRef, scope_interface, fresh_domain,
  empty_sampler_table, scoped_ref_eq, sampler_ref_eq,
}
use xflow_exporter.Decoder.Samplers.{held_sampler, track_sampler}
use xflow_exporter.Decoder.Samplers.Cache.{IsConsistent, track_sampler-IsConsistent}
use xflow_exporter.Decoder.Samplers.Totals.{Advance}
use xflow_exporter.Decoder.Declarations.{declare, correction_for, scoped_rate}
use xflow_exporter.Decoder.Declarations.Precedence.{correction-declare}
use xflow_exporter.Decoder.Declarations.Budget.{
  Announcement, sampler, scope, sweep_at, announce_all,
}
use xflow_exporter.Decoder.Declarations.Agreement.{IsAgreedRate, announce_all_lem}

abbrev port_sampler : SamplerState
port_sampler = record { seq = 4294967295; rate = 512; pool = 1000; drops = 2; last_seen = 9 }

abbrev agent : DomainState
agent = record (fresh_domain 0 9) {
  samplers = (3, port_sampler) ∷ [];
  recent = some (3, port_sampler);
}

abbrev advances : List Advance
advances =
    record { step = 2; pool = 512; drops = 0 } ∷ record { step = 1; pool = 700; drops = 5 } ∷ []

agent-IsConsistent : IsConsistent agent
agent-IsConsistent = record {
  cached = λ id s is. unfold lookup in ground (arith, is);
  within = omega arith;
}

track_sampler-IsConsistent_example :
    (held_sampler agent 3 ≡ lookup 3 agent.samplers)
    × IsConsistent (track_sampler agent 60 0 3 1 512 1600 2 12).0
track_sampler-IsConsistent_example =
    track_sampler-IsConsistent agent 60 0 3 1 512 1600 2 12 agent-IsConsistent

-- Two domains that declare the sampler 4 at one rate, and a third that declares no sampler.
abbrev two_domains : SamplerTable
two_domains = record empty_sampler_table {
  named =
      ((record { odid = 1; id = 4 }, record { rate = 100; last_seen = 8 })
        ∷ (record { odid = 2; id = 4 }, record { rate = 100; last_seen = 9 })
        ∷ []);
}

correction-declare_example :
    (correction_for (fresh_domain 5 9) (declare two_domains 5 4 true 64 9).0 4 false).1
    ≡ (64, false)
unfolding declare lookup
correction-declare_example =
    correction-declare (fresh_domain 5 9) two_domains 4 64 9 false (omega arith) refl

abbrev announcements : List Announcement
announcements =
    sampler 1 4 true 100 5
    ∷ scope (record { kind = scope_interface; odid = 1; port = 0; value = 7 }) 50 6
    ∷ sampler 1 0 false 100 7
    ∷ sweep_at 6
    ∷ []

abbrev interface_seven : ScopedRef
interface_seven = record { kind = scope_interface; odid = 1; port = 0; value = 7 }

announce_all_lem_example :
    let t = announce_all empty_sampler_table announcements in
    (length t.named + length t.plain + length t.scoped ≤ 256)
    × ((rate : ℕ) → 0 < rate → (t.inherited ≡ rate) ↔ IsAgreedRate rate t)
    × (scoped_rate t interface_seven
        ≡ (elim (lookup interface_seven t.scoped) [ none ↦ none | some entry ↦ some entry.rate ]))
announce_all_lem_example =
    announce_all_lem announcements interface_seven
      (omega arith, (omega arith, (omega arith, (tt, tt))))
