-- ===== src/Evidence.antt =====
-- Evidence runs: the table of app/queue_db.py and tools/evidence_runner.py.
pub mod Runs
pub mod Replay
pub mod RunLaws
pub mod Examples
