-- ===== src/Retention.antt =====
-- tools/retention.py: old rows of the table `queue` are purged or scrubbed; app/cleanup.py: expired rows of
-- the other tables are deleted.
pub mod Scrub
mod Laws
mod Examples
mod Cleanup
mod CleanupLaws
mod CleanupExamples
