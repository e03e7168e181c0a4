-- ===== src/Cleanroom.antt =====
-- The clean-room gate: internal/verify, internal/cleanroom/classify.go and internal/coldproof.
pub mod Verify
pub mod Classify
pub mod Coldproof
pub mod Baseline
pub mod Gate
pub mod Cold
pub mod Teardown
pub mod Proofs
