-- ===== src/Common/Decimal.antt =====
-- `strconv.FormatUint(n, 10)` as bytes, and the number that digits at the front of a text stand for.
use xflow_exporter.Common.{
  ℕ, zero, suc, ◌+◌, ◌-◌, ◌*◌, ◌/◌, ◌%◌, ◌^◌, ◌<◌, ◌≡◌, refl, Bool, true, false, ◌&&◌, [], ◌∷◌,
  ◌++◌, arith, ltb, leb, if◌then◌else◌, ap, ◌∙◌,
}
use xflow_exporter.Common.Bytes.{Text}

abbrev pub is_digit : ℕ → Bool
is_digit c = leb 48 c && leb c 57

-- The decimal digits of a number, most significant first, in front of `acc`; a digit a round.
unfoldable pub format_digits : ℕ → ℕ → Text → Text
format_digits zero n acc = acc
format_digits (suc fuel) n acc =
    let rest = format_digits fuel (n / 10) ((48 + n % 10) ∷ acc) in
    if ltb n 10 then (48 + n) ∷ acc else rest

-- A uint64 has at most 20 digits.
unfoldable pub format_uint : ℕ → Text
unfolding format_digits
format_uint n = format_digits 20 n []

-- The digits at the front, read on from `acc`, and what follows them.
unfoldable pub read_digits : ℕ → Text → ℕ × Text
read_digits acc [] = (acc, [])
read_digits acc (c ∷ rest) = elim (is_digit c) [
  | true ↦ read_digits (acc * 10 + (c - 48)) rest
  | false ↦ (acc, c ∷ rest)
]

read_digit :
    (acc d : ℕ) (t : Text) → d < 10 → read_digits acc ((48 + d) ∷ t) ≡ read_digits (acc * 10 + d) t
unfolding read_digits
read_digit acc d t h = ground arith

-- Formatting puts the digits of `n` before the text; reading them from `p` shifts `p` to make room.
read_digits-format_digits :
    (fuel n : ℕ) (t : Text)
    → n < 10 ^ fuel
    → 0 < fuel
    → read_digits 0 (format_digits fuel n t) ≡ read_digits n t
unfolding format_digits
read_digits-format_digits zero n t h f = absurd (omega arith)
read_digits-format_digits (suc zero) n t h f = ground (arith, read_digit 0 n t)
read_digits-format_digits (suc (suc fuel)) n t h f = ground (
  arith,
  read_digit 0 n t,
  read_digits-format_digits (suc fuel) (n / 10) ((48 + n % 10) ∷ t),
  read_digit (n / 10) (n % 10) t,
)

format_digits-append :
    (fuel n : ℕ) (s t : Text) → format_digits fuel n s ++ t ≡ format_digits fuel n (s ++ t)
unfolding format_digits
format_digits-append zero n s t = refl
format_digits-append (suc fuel) n s t =
    ground (arith, format_digits-append fuel (n / 10) ((48 + n % 10) ∷ s) t)

-- Reading stops behind the digits, where the text goes on with no digit.
pub read_digits-format_uint :
    (n : ℕ) (t : Text)
    → n < 2 ^ 64
    → read_digits n t ≡ (n, t)
    → read_digits 0 (format_uint n ++ t) ≡ (n, t)
unfolding format_uint
read_digits-format_uint n t h stop =
    ap (read_digits 0) (format_digits-append 20 n [] t)
    ∙ read_digits-format_digits 20 n t (omega arith) (omega arith)
    ∙ stop

pub read_digits-format_uint_end : (n : ℕ) → n < 2 ^ 64 → read_digits 0 (format_uint n) ≡ (n, [])
unfolding format_uint read_digits
read_digits-format_uint_end n h = read_digits-format_digits 20 n [] (omega arith) (omega arith)
