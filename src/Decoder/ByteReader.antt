-- ===== src/Decoder/ByteReader.antt =====
-- internal/decoder/sflow5.go: `byteReader`, the bounds-checked cursor over one buffer. Each read is
-- under its own bounds check, so none of them can panic.
use xflow_exporter.Common.{ℕ, ◌+◌, Option, none, some, List, if◌then◌else◌, ltb, length, take, drop}
use xflow_exporter.Common.Bytes.{word32}

pub record ByteReader : Type 0 where
  pub buf : List ℕ
  pub off : ℕ

-- `newByteReader`
abbrev pub new_byte_reader : List ℕ → ByteReader
new_byte_reader buf = record { buf = buf; off = 0 }

-- The cursor at the end, where a read that does not fit leaves it.
abbrev pub at_end : ByteReader → ByteReader
at_end r = record r { off = length r.buf }

-- `uint32`; `none` is its `false`, beside which it returns 0.
unfoldable pub read_word : ByteReader → Option ℕ × ByteReader
read_word r =
    if ltb (length r.buf) (r.off + 4)
    then (none, at_end r)
    else (some (word32 r.buf r.off), record r { off = r.off + 4 })

-- `take`; `none` is its `false`. A 32-bit length is never negative as an `int` of 64 bits.
unfoldable pub take_bytes : ℕ → ByteReader → Option (List ℕ) × ByteReader
take_bytes n r =
    if ltb (length r.buf) (r.off + n)
    then (none, at_end r)
    else (some (take n (drop r.off r.buf)), record r { off = r.off + n })

-- `skip`
unfoldable pub skip_bytes : ℕ → ByteReader → ByteReader
skip_bytes n r = if ltb (length r.buf) (r.off + n) then at_end r else record r { off = r.off + n }
