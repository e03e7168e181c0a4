-- ===== src/Secrets.antt =====
-- The redaction of secret values: internal/secrets/scrub.go. The map of secrets is a list of its
-- entries. `strings.Replacer` walks the text once, and at each place takes the first of its pairs
-- that matches.
pub mod Scrub
pub mod NoLeak
