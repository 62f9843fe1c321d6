-- ===== src/Queue.antt =====
-- The message queue of app/queue_db.py: the table `queue` and the operations on it.
pub mod Schema
pub mod Rows
pub mod RowLaws
pub mod Ops
pub mod Insert
pub mod Claim
pub mod Update
pub mod WellFormed
pub mod Steps
pub mod Settled
pub mod Race
mod Examples
mod RaceExamples
