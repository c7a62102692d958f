-- ===== src/Decoder/Elements/Widths.antt =====
-- The widths of an integer element in internal/decoder/fields.go: what each reader reads.
use xflow_exporter.Common.{
  ℕ, ◌+◌, ◌*◌, ◌^◌, ◌≡◌, refl, ◌&&◌, none, some, List, [], ◌∷◌, if◌then◌else◌, leb, length, All,
  arith,
}
use xflow_exporter.Common.Bytes.{IsByte, word16, word32, byte_or}
use xflow_exporter.Decoder.Elements.{be_uint, be_fold}

-- The number that the digits write in base 256.
abbrev pub be_number : List ℕ → ℕ
be_number [] = 0
be_number (b ∷ rest) = b * 256 ^ length rest + be_number rest

-- An element is read in every width from one to eight bytes as the number its bytes write in base 256,
-- and in no other width.
pub be_uint_lem :
    (value : List ℕ)
    → All IsByte value
    → be_uint value
      ≡ (if leb 1 (length value) && leb (length value) 8 then some (be_number value) else none)
unfolding be_uint be_fold word32 word16 byte_or
be_uint_lem [] h = refl
be_uint_lem (a ∷ []) h = ground arith
be_uint_lem (a ∷ b ∷ []) h = ground arith
be_uint_lem (a ∷ b ∷ c ∷ []) (ha, (hb, (hc, h))) = ground arith
be_uint_lem (a ∷ b ∷ c ∷ d ∷ []) h = ground arith
be_uint_lem (a ∷ b ∷ c ∷ d ∷ e ∷ []) (ha, (hb, (hc, (hd, (he, h))))) = ground arith
be_uint_lem (a ∷ b ∷ c ∷ d ∷ e ∷ f ∷ []) (ha, (hb, (hc, (hd, (he, (hf, h)))))) = ground arith
be_uint_lem (a ∷ b ∷ c ∷ d ∷ e ∷ f ∷ g ∷ []) (ha, (hb, (hc, (hd, (he, (hf, (hg, h))))))) =
    ground arith
be_uint_lem (a ∷ b ∷ c ∷ d ∷ e ∷ f ∷ g ∷ i ∷ []) h = ground arith
be_uint_lem (a ∷ b ∷ c ∷ d ∷ e ∷ f ∷ g ∷ i ∷ j ∷ rest) h = ground arith
