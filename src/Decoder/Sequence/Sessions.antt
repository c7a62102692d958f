-- ===== src/Decoder/Sequence/Sessions.antt =====
-- The sessions that one domain follows, internal/decoder/templates.go.
use xflow_exporter.Common.{
  ℕ, ◌≡◌, ◌≢◌, ◌↔◌, ◌≤◌, Bool, none, some, lookup, length, nat_eq, Option-cases, inl, inr, refl,
  arith, lookup-insert, length-insert,
}
use xflow_exporter.Decoder.Domain.{DomainState, Session, max_sessions_per_domain}
use xflow_exporter.Decoder.Sequence.{
  session_of, track_sequence, track_record_sequence, step_sequence, step_record_sequence,
  keep_session,
}

-- A datagram's number on a port, by protocol: one that numbers packets, or one that numbers records.
pub data Arrival : Type 0 where
  packet : ℕ → ℕ → Arrival
  message : ℕ → ℕ → ℕ → ℕ → Bool → Arrival

abbrev pub port_of : Arrival → ℕ
port_of (packet port seq) = port
port_of (message port seq records engine complete) = port

abbrev pub track : DomainState → Arrival → DomainState
track d (packet port seq) = track_sequence d port seq
track d (message port seq records engine complete) =
    track_record_sequence d port seq records engine complete

abbrev step : Session → Arrival → Session × ℕ
step s (packet port seq) = step_sequence s seq
step s (message port seq records engine complete) =
    step_record_sequence s seq records engine complete

track_refused :
    (d : DomainState) (a : Arrival) → session_of d (port_of a) d.last_seen ≡ none → track d a ≡ d
unfolding track_sequence track_record_sequence
track_refused d (packet port seq) h = rw (h, track_sequence)
track_refused d (message port seq records engine complete) h = rw (h, track_record_sequence)

track_followed :
    (d : DomainState) (a : Arrival) (s : Session)
    → session_of d (port_of a) d.last_seen ≡ some s
    → track d a ≡ keep_session d (port_of a) (step s a)
unfolding track_sequence track_record_sequence
track_followed d (packet port seq) s h = rw (h, track_sequence)
track_followed d (message port seq records engine complete) s h = rw (h, track_record_sequence)

-- A session is refused exactly where its port is new and the domain is full.
session_of-none :
    (d : DomainState) (port at : ℕ)
    → (session_of d port at ≡ none)
      ↔ ((lookup port d.sessions ≡ none) × (max_sessions_per_domain ≤ length d.sessions))
unfolding session_of
session_of-none d port at = ground arith

-- On a domain within its bound of 16 sessions, a datagram on one port leaves the position of every
-- other port alone, and the domain stays within the bound.
pub track_isolated :
    (d : DomainState) (a : Arrival) (q : ℕ)
    → q ≢ port_of a
    → length d.sessions ≤ max_sessions_per_domain
    → (lookup q (track d a).sessions ≡ lookup q d.sessions)
      × (length (track d a).sessions ≤ max_sessions_per_domain)
track_isolated d a q other within = elim (Option-cases (session_of d (port_of a) d.last_seen)) [
  | inl refused ↦ rw (track_refused d a refused) (refl, within)
  | inr (s, followed) ↦
      let s' : Session = (step s a).0 in
      rw (track_followed d a s followed) (
        ground (arith, lookup-insert (port_of a) q s' d.sessions),
        ground (
          arith,
          length-insert (port_of a) s' d.sessions,
          session_of-none d (port_of a) d.last_seen,
        ),
      )
]
