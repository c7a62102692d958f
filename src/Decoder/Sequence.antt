-- ===== src/Decoder/Sequence.antt =====
-- The sequence tracking of internal/decoder/templates.go: `sessionLocked`, `trackSequence` for a
-- sequence that numbers packets and `trackRecordSequence` for one that numbers records.
pub mod Loss
pub mod Sessions
use xflow_exporter.Common.{
  ℕ, ◌+◌, ◌-◌, ◌%◌, ◌^◌, Bool, true, false, not, ◌&&◌, ◌||◌, Option, none, some, Map, lookup,
  insert, length, if◌then◌else◌, ltb, leb, nat_eqb, nat_eq, add64, add32, sub32,
}
use xflow_exporter.Decoder.Domain.{DomainState, Session, max_sessions_per_domain, max_late_run}

abbrev pub forward_window : ℕ
forward_window = 2 ^ 30

abbrev pub reorder_window : ℕ
reorder_window = 1024

-- `sessionLocked`: the session on a port, stamped, or a new one while there is room
unfoldable pub session_of : DomainState → ℕ → ℕ → Option Session
session_of d port at = elim (lookup port d.sessions) [
  | some s ↦ some (record s { last_seen = at })
  | none ↦
      if leb max_sessions_per_domain (length d.sessions)
      then none
      else some (record { last_seq = 0; last_seen = at; engine = 0; late_run = 0; init = false })
]

-- A position moved by one packet, and how many packets it says were lost.
unfoldable pub step_sequence : Session → ℕ → Session × ℕ
step_sequence s seq =
    let diff = sub32 seq s.last_seq in
    if not s.init
    then (record s { init = true; last_seq = seq }, 0)
    else if nat_eqb diff 0
    then (s, 0)
    else if ltb diff forward_window
    then (record s { last_seq = seq }, if ltb 1 diff then diff - 1 else 0)
    else if ltb (2 ^ 32 - 1 - reorder_window) diff
    then (s, 0)
    else (record s { last_seq = seq }, 0)

-- The session of a port is held in the domain's map, and what it missed in the domain's counter.
abbrev pub keep_session : DomainState → ℕ → Session × ℕ → DomainState
keep_session d port (s, missed) = record d {
  sessions = insert port s d.sessions;
  sequence_missed = add64 d.sequence_missed missed;
}

-- `trackSequence`
unfoldable pub track_sequence : DomainState → ℕ → ℕ → DomainState
track_sequence d port seq = elim (session_of d port d.last_seen) [
  | none ↦ d
  | some s ↦ keep_session d port (step_sequence s seq)
]

-- A position moved by one message of `records` records, and how many records were lost.
unfoldable pub step_record_sequence : Session → ℕ → ℕ → ℕ → Bool → Session × ℕ
step_record_sequence s seq records engine complete =
    let diff = sub32 seq s.last_seq in
    let base = add32 seq records in
    if not s.init || not (nat_eqb engine s.engine)
    then (record s { init = complete; engine = engine; last_seq = base; late_run = 0 }, 0)
    else if nat_eqb diff 0
    then (record s { late_run = 0; init = complete; last_seq = base }, 0)
    else if ltb (2 ^ 32 - 1 - reorder_window) diff && ltb s.late_run max_late_run
    then (record s { late_run = s.late_run + 1 }, 0)
    else (
      record s { late_run = 0; init = complete; last_seq = base },
      if ltb diff forward_window then diff else 0,
    )

-- `trackRecordSequence`
unfoldable pub track_record_sequence : DomainState → ℕ → ℕ → ℕ → ℕ → Bool → DomainState
track_record_sequence d port seq records engine complete = elim (session_of d port d.last_seen) [
  | none ↦ d
  | some s ↦ keep_session d port (step_record_sequence s seq records engine complete)
]
