-- ===== src/Openspec.antt =====
-- The OpenSpec format of internal/openspec: its model, its parsers and its renderers.
pub mod Model
pub mod Lines
pub mod Spec
pub mod Trimmed
pub mod Canonical
pub mod Reads
pub mod Replay
pub mod SpecRoundTrip
pub mod Words
pub mod Bullets
pub mod Margin
pub mod Kept
pub mod Stable
pub mod Tasks
pub mod TaskLines
pub mod TasksRoundTrip
pub mod TasksStable
