-- ===== src/Examples.antt =====
-- The theorems at concrete inputs.
pub mod Batching
pub mod Web
pub mod Reports
pub mod Requests
pub mod Accumulator
pub mod Loads
pub mod Control
