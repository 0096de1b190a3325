-- ===== src/Wield.antt =====
-- The expansion of `wield` in src/semantic/semantic.c, and the paths of src/utils/file.c.
pub mod Paths
pub mod Expand
pub mod PathsRoundTrip
pub mod Enough
pub mod Analyze
pub mod Outcome
