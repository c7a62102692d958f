-- ===== src/Examples/Decoding.antt =====
-- The theorems on internal/decoder at concrete datagrams and states.
pub mod Sequences
pub mod Clocks
pub mod Sampling
pub mod Holding
pub mod Netflow
pub mod Names
pub mod Frames
pub mod Templates
pub mod Aggregates
pub mod Dispatching
