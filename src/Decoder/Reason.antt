-- ===== src/Decoder/Reason.antt =====
-- The decode error reasons of internal/decoder/decoder.go, a closed set. The free-form detail of an
-- error goes to the debug log alone and is not modelled.
pub data Reason : Type 0 where
  unsupported_version malformed unsupported_aggregation missing_template : Reason
  invalid_template reserved_set domain_limit unsupported_header_protocol : Reason

-- What a parser's step answers: a value, or the reason of a rejection.
pub data Result {ℓ} (A : Type ℓ) : Type ℓ where
  ok : A → Result A
  err : Reason → Result A
