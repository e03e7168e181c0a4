-- ===== src/Standards.antt =====
-- The repo-declared standards and checks: internal/standards.
pub mod Scan
pub mod Gates
pub mod Inert
pub mod Honesty
pub mod Decl
pub mod Parse
pub mod Accepted
pub mod WellFormed
pub mod Snapshots
pub mod Lane
pub mod LaneGate
pub mod LaneJudged
pub mod LaneSettled
