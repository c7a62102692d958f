-- ===== src/Decoder/Notes/Limiting.antt =====
-- The limiter of internal/decoder/notes.go over a run of calls.
use Prim.Native.Nat.{min}
use xflow_exporter.Common.{
  ℕ, ◌+◌, ◌≤◌, ◌≡◌, List, [], ◌∷◌, All, refl, ◌∙◌, ◌<◌, nat_eqb_iff, length, ◌-◌, if◌then◌else◌,
  nat_eqb, Bool-cases, inl, inr, arith,
}
use xflow_exporter.Flow.{Time}
use xflow_exporter.Decoder.State.{NoteLimiter}
use xflow_exporter.Decoder.Notes.{max_notes_per_minute, minute_of, turned, admit}

-- What a run of calls adds up to: the limiter, the notes admitted and those withheld, and the sum of
-- what was reported as withheld.
pub record Tally : Type 0 where
  pub limiter : NoteLimiter
  pub admitted : ℕ
  pub withheld : ℕ
  pub reported : ℕ

unfoldable pub ask_all : List Time → NoteLimiter → Tally
ask_all [] l = record { limiter = l; admitted = 0; withheld = 0; reported = 0 }
ask_all (now ∷ rest) l =
    let (l', ok, suppressed) = admit l now in
    let later = ask_all rest l' in
    if ok
    then record later { admitted = later.admitted + 1; reported = later.reported + suppressed }
    else record later { withheld = later.withheld + 1 }

-- The notes that a minute has spent already.
abbrev pub spent : ℕ → NoteLimiter → ℕ
spent minute l = if nat_eqb l.minute minute then l.sent else 0

-- The run of calls within one minute admits what it has left, and reports each withheld note once
-- or leaves it to wait in the limiter.
abbrev pub IsLimited : ℕ → List Time → NoteLimiter → Type 0
IsLimited minute calls l =
    let t = ask_all calls l in
    (t.admitted ≡ min (length calls) (max_notes_per_minute - spent minute l))
    × (t.admitted + t.withheld ≡ length calls)
    × (t.reported + t.limiter.suppressed ≡ l.suppressed + t.withheld)

turned_lem :
    (l : NoteLimiter) (now : Time)
    → ((turned l now).minute ≡ minute_of now)
      × ((turned l now).sent ≡ spent (minute_of now) l)
      × ((turned l now).suppressed ≡ l.suppressed)
unfolding turned
turned_lem l now = elim (Bool-cases (nat_eqb (minute_of now) l.minute)) [
  | inl same ↦ rw (same) (ground arith)
  | inr apart ↦ rw (apart) (ground arith)
]

spent_now : (minute : ℕ) (l : NoteLimiter) → l.minute ≡ minute → spent minute l ≡ l.sent
spent_now minute l same = rw (same) (rw ((nat_eqb_iff minute minute).1 refl) refl)

-- Of the notes asked for within one minute, what the minute has left of its sixty are admitted and the
-- others withheld, and each one withheld is reported with a later one admitted or still waits in the
-- limiter to be reported.
pub ask_all_lem :
    (minute : ℕ) (calls : List Time) (l : NoteLimiter)
    → All (λ now. minute_of now ≡ minute) calls
    → spent minute l ≤ max_notes_per_minute
    → IsLimited minute calls l
unfolding ask_all admit
ask_all_lem minute [] l within room = (ground arith, omega arith, omega arith)
ask_all_lem minute (now ∷ rest) l (here, within) room =
    let l' = turned l now in
    let (m, s, p) = turned_lem l now in
    let used : l'.sent ≡ spent minute l = s ∙ rw (here) refl in
    let within_minute : l'.minute ≡ minute = m ∙ here in
    elim (Bool-cases (nat_eqb l'.sent max_notes_per_minute)) [
      | inl full ↦
          let kept : NoteLimiter = record l' { suppressed = l'.suppressed + 1 } in
          let same = spent_now minute kept within_minute in
          let sixty = (nat_eqb_iff l'.sent max_notes_per_minute).0 full in
          let (a, b, c) = ask_all_lem minute rest kept within (omega (arith, same, used, room)) in
          rw (ask_all, admit, full)
            (omega (arith, a, same, used, sixty), omega (arith, b), omega (arith, c, p))
      | inr free ↦
          let sent : NoteLimiter = record l' { sent = l'.sent + 1; suppressed = 0 } in
          let same = spent_now minute sent within_minute in
          let below : l'.sent < max_notes_per_minute = ground (arith, used, room, free) in
          let (a, b, c) = ask_all_lem minute rest sent within (omega (arith, same, below)) in
          rw (ask_all, admit, free)
            (omega (arith, a, same, used, below), omega (arith, b), omega (arith, c, p))
    ]
