-- ===== src/Examples.antt =====
-- The theorems of the other modules, applied to concrete inputs.
pub mod Aggregation
pub mod Decoding
pub mod Pushing
