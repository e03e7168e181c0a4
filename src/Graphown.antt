-- ===== src/Graphown.antt =====
-- The contract-validated write surfaces over the graph: internal/graphown.
pub mod Failures
pub mod Retry
pub mod Bounded
pub mod Writer
pub mod Writes
pub mod Claims
