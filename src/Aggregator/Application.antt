-- ===== src/Aggregator/Application.antt =====
-- The names of numbered applications in internal/aggregator/aggregator.go.
use xflow_exporter.Common.{
  ℕ, ◌+◌, ◌*◌, ◌/◌, ◌%◌, ◌^◌, ◌≡◌, refl, ap, sym, ◌∙◌, [], ◌∷◌, arith, IsU32,
}
use xflow_exporter.Common.Bytes.{Text}
use xflow_exporter.Common.Decimal.{
  format_uint, read_digits, read_digits-format_uint, read_digits-format_uint_end,
}
use xflow_exporter.Aggregator.{format_app_id}

-- The number of a formatted application: the engine, a colon, the selector.
read_selector : ℕ → Text → ℕ
read_selector engine [] = engine
read_selector engine (colon ∷ rest) = engine * 2 ^ 24 + (read_digits 0 rest).0

read_app_id : Text → ℕ
read_app_id t = let (engine, rest) = read_digits 0 t in read_selector engine rest

-- A formatted application id reads back as itself.
read_app_id-format_app_id : (id : ℕ) → IsU32 id → read_app_id (format_app_id id) ≡ id
unfolding format_app_id read_app_id read_selector
read_app_id-format_app_id id h =
    let engine = id / 2 ^ 24 in
    let selector = id % 2 ^ 24 in
    rw
      (
        read_digits-format_uint engine (58 ∷ format_uint selector) (omega arith) (colon engine _),
        read_digits-format_uint_end selector (omega arith),
      )
      (omega arith)
  where
    colon : (n : ℕ) (t : Text) → read_digits n (58 ∷ t) ≡ (n, 58 ∷ t)
    colon n t = unfold read_digits in refl

-- Two applications with different 32-bit identifiers never share a name.
pub format_app_id_injective :
    (a b : ℕ) → IsU32 a → IsU32 b → format_app_id a ≡ format_app_id b → a ≡ b
format_app_id_injective a b ha hb e =
    sym (read_app_id-format_app_id a ha) ∙ ap read_app_id e ∙ read_app_id-format_app_id b hb
