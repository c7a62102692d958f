-- ===== src/Decoder/Sequence/Loss.antt =====
-- What the sequence tracking of internal/decoder/templates.go counts as lost.
use xflow_exporter.Common.{
  ℕ, ◌+◌, ◌-◌, ◌%◌, ◌^◌, ◌≤◌, ◌<◌, ◌≡◌, true, List, [], ◌∷◌, All, length, IsU32, add32, sub32, refl,
  arith,
}
use xflow_exporter.Decoder.Domain.{Session, max_late_run}
use xflow_exporter.Decoder.Sequence.{
  step_sequence, step_record_sequence, forward_window, reorder_window,
}

-- A session after packets whose numbers lie the given steps apart, and the packets counted missing.
pub deliver : Session → List ℕ → Session × ℕ
deliver s [] = (s, 0)
deliver s (step ∷ steps) =
    let (s', missed) = step_sequence s (add32 s.last_seq step) in
    let (s'', more) = deliver s' steps in (s'', missed + more)

abbrev pub Forward : ℕ → Type 0
Forward step = (1 ≤ step) × (step < forward_window)

-- The packets that a run of steps skips, and how far it leads.
abbrev pub skipped : List ℕ → ℕ
skipped [] = 0
skipped (step ∷ steps) = (step - 1) + skipped steps

abbrev pub travelled : List ℕ → ℕ
travelled [] = 0
travelled (step ∷ steps) = step + travelled steps

step-Forward :
    (s : Session) (step : ℕ)
    → s.init ≡ true
    → IsU32 s.last_seq
    → Forward step
    → step_sequence s (add32 s.last_seq step)
      ≡ (record s { last_seq = add32 s.last_seq step }, step - 1)
unfolding step_sequence
step-Forward s step hi hu h = ground arith

-- On a session that has its position, packets that each move forward by less than 2^30, the counter
-- wrapping or not, are counted missing by exactly the numbers they skip, and the position ends
-- where they lead. So a run in order, of steps of 1, counts nothing.
pub deliver-Forward :
    (s : Session) (steps : List ℕ)
    → s.init ≡ true
    → IsU32 s.last_seq
    → All Forward steps
    → ((deliver s steps).1 ≡ skipped steps)
      × ((deliver s steps).0.last_seq ≡ (s.last_seq + travelled steps) % 2 ^ 32)
unfolding deliver
deliver-Forward s [] hi hu h = omega arith
deliver-Forward s (step ∷ steps) hi hu (hs, h) = rw (step-Forward s step hi hu hs) (
    omega (
      arith,
      deliver-Forward (record s { last_seq = add32 s.last_seq step }) steps hi (omega arith) h,
    ))

-- On a session that has its position, a packet that arrives again, or up to 1024 numbers behind the
-- position, moves nothing and counts nothing.
pub step_late :
    (s : Session) (back : ℕ)
    → s.init ≡ true
    → IsU32 s.last_seq
    → back ≤ reorder_window
    → step_sequence s (sub32 s.last_seq back) ≡ (s, 0)
unfolding step_sequence
step_late s back hi hu h = ground arith

-- A session after messages of one engine: each is a number of records lost before it and the number
-- of records in it.
pub deliver_records : Session → List (ℕ × ℕ) → Session × ℕ
deliver_records s [] = (s, 0)
deliver_records s ((lost, records) ∷ rest) =
    let (s', missed) = step_record_sequence s (add32 s.last_seq lost) records s.engine true in
    let (s'', more) = deliver_records s' rest in (s'', missed + more)

abbrev pub LossFits : ℕ × ℕ → Type 0
LossFits (lost, records) = lost < forward_window

abbrev pub total_lost : List (ℕ × ℕ) → ℕ
total_lost [] = 0
total_lost ((lost, records) ∷ rest) = lost + total_lost rest

-- On a session that has its position, messages in order, with less than 2^30 records lost before
-- each, are counted missing by exactly the records lost, however many records each carries and
-- wherever the counter wraps.
pub deliver_records_loss :
    (s : Session) (messages : List (ℕ × ℕ))
    → s.init ≡ true
    → IsU32 s.last_seq
    → All LossFits messages
    → (deliver_records s messages).1 ≡ total_lost messages
unfolding deliver_records
deliver_records_loss s [] hi hu h = refl
deliver_records_loss s ((lost, records) ∷ rest) hi hu (hl, h) =
    rw (in_order hl) (omega (arith, deliver_records_loss (moved lost) rest refl (omega arith) h))
  where
    moved : ℕ → Session
    moved l = record s { late_run = 0; init = true; last_seq = add32 (add32 s.last_seq l) records }

    in_order :
        lost < forward_window
        → step_record_sequence s (add32 s.last_seq lost) records s.engine true ≡ (moved lost, lost)
    in_order hl' = unfold step_record_sequence in ground arith

-- A session after messages of one engine, each some records behind the position and carrying some.
pub deliver_late : Session → List (ℕ × ℕ) → Session × ℕ
deliver_late s [] = (s, 0)
deliver_late s ((back, records) ∷ rest) =
    let (s', missed) = step_record_sequence s (sub32 s.last_seq back) records s.engine true in
    let (s'', more) = deliver_late s' rest in (s'', missed + more)

abbrev pub IsLate : ℕ × ℕ → Type 0
IsLate (back, records) = (1 ≤ back) × (back ≤ reorder_window)

step_record_late :
    (s : Session) (back records : ℕ)
    → s.init ≡ true
    → IsU32 s.last_seq
    → 1 ≤ back
    → back ≤ reorder_window
    → s.late_run < max_late_run
    → step_record_sequence s (sub32 s.last_seq back) records s.engine true
      ≡ (record s { late_run = s.late_run + 1 }, 0)
unfolding step_record_sequence
step_record_late s back records hi hu h1 h hl = ground arith

-- On a session that has its position, messages that were overtaken in flight, at most four in a row
-- with those held before and each up to 1024 records behind, count nothing and leave the position
-- alone: the records they carry are not counted twice.
pub deliver_late_held :
    (s : Session) (messages : List (ℕ × ℕ))
    → s.init ≡ true
    → IsU32 s.last_seq
    → All IsLate messages
    → s.late_run + length messages ≤ max_late_run
    → deliver_late s messages ≡ (record s { late_run = s.late_run + length messages }, 0)
unfolding deliver_late
deliver_late_held s [] hi hu h hl = ground arith
deliver_late_held s ((back, records) ∷ rest) hi hu ((h1, hb), h) hl =
    rw (step_record_late s back records hi hu h1 hb (omega arith)) (
      ground (
        arith,
        deliver_late_held (record s { late_run = s.late_run + 1 }) rest hi hu h (omega arith),
      ))

-- On a session that has its position, after four held messages the next one of the same engine up to
-- 1024 records behind the position is a restart: the position moves to what follows it, and nothing
-- is counted.
pub step_record_restart :
    (s : Session) (back records : ℕ)
    → s.init ≡ true
    → IsU32 s.last_seq
    → 1 ≤ back
    → back ≤ reorder_window
    → max_late_run ≤ s.late_run
    → step_record_sequence s (sub32 s.last_seq back) records s.engine true ≡ (
      record s { late_run = 0; init = true; last_seq = add32 (sub32 s.last_seq back) records },
      0,
    )
unfolding step_record_sequence
step_record_restart s back records hi hu h1 h hl = ground arith
