-- ===== src/LogEvidence.antt =====
-- The log evidence tool of tools/log_evidence.py.
pub mod Entries
pub mod Run
pub mod Verdict
pub mod Isolation
pub mod Window
pub mod Examples
