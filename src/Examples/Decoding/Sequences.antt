-- ===== src/Examples/Decoding/Sequences.antt =====
-- The theorems on the sequence tracking of internal/decoder at concrete positions.
use xflow_exporter.Common.{◌≤◌, ◌≡◌, refl, arith, true, [], ◌∷◌, lookup, length, nat_eq}
use xflow_exporter.Decoder.Domain.{DomainState, Session, fresh_domain, max_sessions_per_domain}
use xflow_exporter.Decoder.Sequence.Loss.{
  deliver, deliver-Forward, deliver_records, deliver_records_loss,
}
use xflow_exporter.Decoder.Sequence.Sessions.{packet, track, track_isolated}

abbrev near_wrap : Session
near_wrap = record { last_seq = 4294967290; last_seen = 1; engine = 3; late_run = 0; init = true }

abbrev held_four : Session
held_four = record { last_seq = 900; last_seen = 1; engine = 3; late_run = 4; init = true }

abbrev two_ports : DomainState
two_ports = record (fresh_domain 7 5) { sessions = (2055, near_wrap) ∷ (4739, held_four) ∷ [] }

deliver-Forward_example :
    ((deliver near_wrap (1 ∷ 4 ∷ 3 ∷ [])).1 ≡ 5)
    × ((deliver near_wrap (1 ∷ 4 ∷ 3 ∷ [])).0.last_seq ≡ 2)
deliver-Forward_example =
    deliver-Forward near_wrap (1 ∷ 4 ∷ 3 ∷ []) refl (omega arith)
      ((omega arith, omega arith), ((omega arith, omega arith), ((omega arith, omega arith), tt)))

deliver_records_loss_example : (deliver_records near_wrap ((0, 12) ∷ (30, 5) ∷ [])).1 ≡ 30
deliver_records_loss_example =
    deliver_records_loss near_wrap ((0, 12) ∷ (30, 5) ∷ []) refl (omega arith)
      (omega arith, (omega arith, tt))

track_isolated_example :
    (lookup 4739 (track two_ports (packet 2055 3)).sessions ≡ lookup 4739 two_ports.sessions)
    × (length (track two_ports (packet 2055 3)).sessions ≤ max_sessions_per_domain)
track_isolated_example = track_isolated two_ports (packet 2055 3) 4739 (ground arith) (omega arith)
