-- ===== src/Common/Bytes.antt =====
-- Byte slices as lists of numbers. A read outside the slice is a panic, `none`.
use Prim.Native.Nat.{ℕ, ◌+◌, ◌-◌, ◌*◌, ◌<◌, ◌≤◌}
use mathlib.Core.Path.{◌≡◌}
use native.Mathlib.Omega.{arith}
use mathlib.Core.Bool.{Bool, true, false, ◌&&◌}
use mathlib.Core.List.{List, [], ◌∷◌}
use mathlib.Core.Option.{Option, none, some}
use xflow_exporter.Common.Tests.{leb, ltb, if◌then◌else◌}
use xflow_exporter.Common.Lists.{length, get_or, take, drop, length-take, length-drop}

abbrev pub IsByte : ℕ → Type 0
IsByte b = b < 256

-- A Go string as its bytes.
abbrev pub Text : Type 0
Text = List ℕ

-- `s == ""`
abbrev pub is_empty : Text → Bool
is_empty [] = true
is_empty (c ∷ s) = false

-- the byte at an offset, 0 outside
unfoldable pub byte_or : List ℕ → ℕ → ℕ
byte_or p off = get_or p off 0

-- the big-endian words at an offset, for offsets that lie inside
unfoldable pub word16 : List ℕ → ℕ → ℕ
word16 p off = byte_or p off * 256 + byte_or p (off + 1)

unfoldable pub word32 : List ℕ → ℕ → ℕ
word32 p off = word16 p off * 65536 + word16 p (off + 2)

-- `p[off]`, `binary.BigEndian.Uint16(p[off:])`, `binary.BigEndian.Uint32(p[off:])`
abbrev pub u8_at : List ℕ → ℕ → Option ℕ
u8_at p off = if ltb off (length p) then some (byte_or p off) else none

abbrev pub be16_at : List ℕ → ℕ → Option ℕ
be16_at p off = if leb (off + 2) (length p) then some (word16 p off) else none

abbrev pub be32_at : List ℕ → ℕ → Option ℕ
be32_at p off = if leb (off + 4) (length p) then some (word32 p off) else none

-- `p[off:]`
abbrev pub slice_from : List ℕ → ℕ → Option (List ℕ)
slice_from p off = if leb off (length p) then some (drop off p) else none

-- A step that may panic, and then the rest.
infixl 5 ◌>>=◌
abbrev pub ◌>>=◌ {ℓ κ} : {A : Type ℓ} {B : Type κ} → Option A → (A → Option B) → Option B
none >>= f = none
some a >>= f = f a

pub u8_at-inside : (p : List ℕ) (off : ℕ) → off < length p → u8_at p off ≡ some (byte_or p off)
u8_at-inside p off h = ground (arith, h)

pub be16_at-inside :
    (p : List ℕ) (off : ℕ) → off + 2 ≤ length p → be16_at p off ≡ some (word16 p off)
be16_at-inside p off h = ground (arith, h)

pub be32_at-inside :
    (p : List ℕ) (off : ℕ) → off + 4 ≤ length p → be32_at p off ≡ some (word32 p off)
be32_at-inside p off h = ground (arith, h)

pub slice_from-inside :
    (p : List ℕ) (off : ℕ) → off ≤ length p → slice_from p off ≡ some (drop off p)
slice_from-inside p off h = ground (arith, h)

-- `p[from:to]`
abbrev pub slice : List ℕ → ℕ → ℕ → Option (List ℕ)
slice p from to =
    if leb from to && leb to (length p) then some (take (to - from) (drop from p)) else none

pub slice-inside :
    (p : List ℕ) (from to : ℕ)
    → from ≤ to
    → to ≤ length p
    → slice p from to ≡ some (take (to - from) (drop from p))
slice-inside p from to h h' = ground (arith, h, h')

pub length-take-drop :
    (p : List ℕ) (from n : ℕ) → from + n ≤ length p → length (take n (drop from p)) ≡ n
length-take-drop p from n h = length-take n (drop from p) (omega (arith, length-drop from p, h))
