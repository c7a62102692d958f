-- ===== src/Decoder/Soundness/Linking.antt =====
-- What the parsers of the fixed formats do through the pointer to a domain, internal/decoder, leaves
-- its templates sound.
use xflow_exporter.Common.{
  ℕ, ◌≡◌, refl, Bool, true, false, none, some, lookup, nat_eqb, Bool-cases, Option-cases, inl, inr,
}
use xflow_exporter.Decoder.Domain.{
  DomainKey, DomainState, domain_key_eq, sampler_key_eq, unsampled_sampler_id,
}
use xflow_exporter.Decoder.Sequence.{track_record_sequence, session_of}
use xflow_exporter.Decoder.Declarations.{correction_for}
use xflow_exporter.Decoder.Store.{Store, table_key}
use xflow_exporter.Decoder.Accounting.{
  Link, link, write_back, count_clock_pair, owed_counted, netflow_v5_sampler_rate,
}
use xflow_exporter.Decoder.Netflow5.{rate_for, tracked}
use xflow_exporter.Decoder.Soundness.{
  IsSoundDomain, IsSoundStore, IsSound-insert, IsSound-declare, present_table, IsSound-lookup,
}

abbrev pub IsSoundLink : Link → Type 0
IsSoundLink none = Unit {0}
IsSoundLink (some (d, t)) = IsSoundDomain d

pub IsSoundLink-link : (key : DomainKey) (s : Store) → IsSoundStore s → IsSoundLink (link key s)
unfolding link
IsSoundLink-link key s sound = elim (Option-cases (lookup key s.domains)) [
  | inl absent ↦ rw (link, absent) tt
  | inr (d, held) ↦ elim (Option-cases (lookup (table_key key) s.sampler_tables)) [
    | inl unknown ↦ rw (link, held, unknown) tt
    | inr (t, known) ↦ rw (link, held, known) (IsSound-lookup key s d sound held).0
  ]
]

pub IsSoundStore-write_back :
    (key : DomainKey) (here : Link) (s : Store)
    → IsSoundLink here
    → IsSoundStore s
    → IsSoundStore (write_back key here s)
unfolding write_back
IsSoundStore-write_back key none s own sound = sound
IsSoundStore-write_back key (some (d, t)) s own sound =
    IsSound-insert key d s.domains _
      (IsSound-declare (table_key key) t s.domains s.sampler_tables sound) own
      (present_table (table_key key) t s.sampler_tables)

pub IsSoundLink-count_clock_pair :
    (inverted : Bool) (here : Link)
    → IsSoundLink here
    → IsSoundLink (count_clock_pair inverted here)
unfolding count_clock_pair
IsSoundLink-count_clock_pair inverted none own = tt
IsSoundLink-count_clock_pair inverted (some (d, t)) own = own

owed_counted_templates :
    (owed : Bool) (d : DomainState) → (owed_counted owed d).templates ≡ d.templates
owed_counted_templates true d = refl
owed_counted_templates false d = refl

pub IsSoundLink-rate_for :
    (here : Link) (header_rate sampler_id : ℕ)
    → IsSoundLink here
    → IsSoundLink (rate_for here header_rate sampler_id).0
unfolding netflow_v5_sampler_rate
IsSoundLink-rate_for none header_rate sampler_id own = elim (Bool-cases (nat_eqb header_rate 0)) [
  | inl unstated ↦ rw (unstated) tt
  | inr stated ↦ rw (stated) tt
]
IsSoundLink-rate_for (some (d, t)) header_rate sampler_id own =
    elim (Bool-cases (nat_eqb header_rate 0)) [
      | inr stated ↦ rw (stated) own
      | inl unstated ↦ elim (Bool-cases (nat_eqb sampler_id unsampled_sampler_id)) [
        | inl unsampled ↦ rw (unstated) (rw (netflow_v5_sampler_rate, unsampled) own)
        | inr sampled ↦
            let (t', (rate, owed)) = correction_for d t sampler_id true in
            rw (unstated) (
              rw (netflow_v5_sampler_rate, sampled)
                (λ ref. rw (owed_counted_templates owed d) (own ref)))
      ]
    ]

pub IsSoundLink-tracked :
    (here : Link) (port seq count engine : ℕ)
    → IsSoundLink here
    → IsSoundLink (tracked here port seq count engine)
unfolding track_record_sequence
IsSoundLink-tracked none port seq count engine own = tt
IsSoundLink-tracked (some (d, t)) port seq count engine own =
    elim (Option-cases (session_of d port d.last_seen)) [
      | inl full ↦ rw (track_record_sequence, full) own
      | inr (session, found) ↦ rw (track_record_sequence, found) own
    ]
