-- ===== src/Decoder/Clock.antt =====
-- internal/decoder/clock.go: the uptime-relative flow clocks. Times are nanoseconds since the zero
-- instant of `time.Time`.
use xflow_exporter.Common.{
  ℕ, ◌+◌, ◌-◌, ◌*◌, ◌/◌, ◌%◌, ◌^◌, ◌≤◌, ◌<◌, ◌≡◌, Bool, true, false, ◌||◌, if◌then◌else◌, ltb,
  nat_eqb, sub32, IsU32, arith, ◌⊎◌, inl, inr, Bool-cases, ltb→lt, refl,
}
use xflow_exporter.Flow.{Time}

abbrev pub uptime_wrap_ms : ℕ
uptime_wrap_ms = 2 ^ 32

-- `time.Hour / time.Millisecond`
abbrev pub clock_skew_tolerance_ms : ℕ
clock_skew_tolerance_ms = 3600000

-- `time.Millisecond`
abbrev pub millisecond : ℕ
millisecond = 1000000

-- `exportClock`
pub record ExportClock : Type 0 where
  pub at : Time
  pub uptime_ms : ℕ
  pub has_uptime : Bool

-- The bounds of `time.Duration`: `Time.Sub` answers the nearer of them where the difference, about 292
-- years or more, does not fit.
abbrev pub at_most : ℕ → ℕ → ℕ
at_most bound span = if ltb bound span then bound else span

-- `uint32(a.Sub(b).Milliseconds())`: the difference in whole milliseconds, toward zero, modulo 2^32.
unfoldable pub millis_between : Time → Time → ℕ
millis_between a b =
    if ltb a b
    then (2 ^ 32 - at_most (2 ^ 63) (b - a) / millisecond % 2 ^ 32) % 2 ^ 32
    else at_most (2 ^ 63 - 1) (a - b) / millisecond % 2 ^ 32

-- `exportClock.withBootTime`
unfoldable pub with_boot_time : ExportClock → Time → ExportClock
unfolding millis_between
with_boot_time c boot =
    if c.has_uptime || nat_eqb boot 0
    then c
    else record c { uptime_ms = millis_between c.at boot; has_uptime = true }

-- `exportClock.anchor`: every header's instant lies after 1970, so no age reaches behind the zero
-- instant, where a natural number stops. An age past the tolerance is read as an instant still ahead.
unfoldable pub anchor : ExportClock → ℕ → Time
anchor c value_ms =
    let age = sub32 c.uptime_ms value_ms in
    if ltb (uptime_wrap_ms - clock_skew_tolerance_ms) age
    then c.at + (uptime_wrap_ms - age) * millisecond
    else c.at - age * millisecond

-- `withholdInverted`
unfoldable pub withhold_inverted : Time → Time → Time × Time × Bool
withhold_inverted start end = if ltb end start then (0, 0, false) else (start, end, true)

-- `exportClock.anchorPair`
unfoldable pub anchor_pair : ExportClock → ℕ → ℕ → Time × Time × Bool
unfolding anchor withhold_inverted
anchor_pair c first_ms last_ms = withhold_inverted (anchor c first_ms) (anchor c last_ms)

-- With a 32-bit uptime, an instant up to a whole period less an hour before the export is anchored
-- exactly where it was, also where the counter wrapped in between.
pub anchor_before :
    (c : ExportClock) (age : ℕ)
    → IsU32 c.uptime_ms
    → age ≤ uptime_wrap_ms - clock_skew_tolerance_ms
    → anchor c (sub32 c.uptime_ms age) ≡ c.at - age * millisecond
unfolding anchor
anchor_before c age hu h = ground arith

-- With a 32-bit uptime, an instant that the device's own skew puts less than an hour after the
-- export is anchored there.
pub anchor_ahead :
    (c : ExportClock) (ahead : ℕ)
    → IsU32 c.uptime_ms
    → 0 < ahead
    → ahead < clock_skew_tolerance_ms
    → anchor c ((c.uptime_ms + ahead) % 2 ^ 32) ≡ c.at + ahead * millisecond
unfolding anchor
anchor_ahead c ahead hu h0 h = ground arith

-- A flow that lasted `lasting` milliseconds and began at most a whole period less an hour before the
-- export, which lies that long after the zero instant, is published and keeps its duration.
pub anchor_pair_duration :
    (c : ExportClock) (age lasting : ℕ)
    → IsU32 c.uptime_ms
    → age + lasting ≤ uptime_wrap_ms - clock_skew_tolerance_ms
    → (age + lasting) * millisecond ≤ c.at
    → let (start, end, shown) =
        anchor_pair c (sub32 c.uptime_ms (age + lasting)) (sub32 c.uptime_ms age) in
      (shown ≡ true) × (end ≡ start + lasting * millisecond)
unfolding anchor_pair
anchor_pair_duration c age lasting hu h ha = ground arith

-- Whatever the readings, a pair is either published as the two anchored instants, in order, or it is
-- withheld whole, both instants zero, and then the end was anchored before the start.
pub anchor_pair_ordered :
    (c : ExportClock) (first_ms last_ms : ℕ)
    → let (start, end, shown) = anchor_pair c first_ms last_ms in
      ((shown ≡ true) × (start ≡ anchor c first_ms) × (end ≡ anchor c last_ms) × (start ≤ end))
      ⊎ ((shown ≡ false) × (start ≡ 0) × (end ≡ 0) × (anchor c last_ms < anchor c first_ms))
unfolding anchor_pair withhold_inverted
anchor_pair_ordered c first_ms last_ms =
    elim (Bool-cases (ltb (anchor c last_ms) (anchor c first_ms))) [
      | inl inverted ↦ rw inverted (inr (refl, refl, refl, ltb→lt _ _ inverted))
      | inr ordered ↦ rw ordered (inl (refl, refl, refl, ground arith))
    ]

-- The boot instant of IPFIX gives back the uptime: where the header carries none and its time is
-- `uptime` milliseconds after a boot that is not the zero instant, a reading `age` before the header
-- time, after the boot and at most a whole period less an hour ago, is anchored exactly there. The
-- uptime is one that a `time.Duration` holds.
pub anchor-with_boot_time :
    (c : ExportClock) (boot uptime age : ℕ)
    → c.has_uptime ≡ false
    → 0 < boot
    → uptime * millisecond < 2 ^ 63
    → c.at ≡ boot + uptime * millisecond
    → age ≤ uptime_wrap_ms - clock_skew_tolerance_ms
    → age ≤ uptime
    → anchor (with_boot_time c boot) ((uptime - age) % 2 ^ 32) ≡ c.at - age * millisecond
unfolding anchor with_boot_time
anchor-with_boot_time c boot uptime age hn hb hfits hat h hau = ground arith
