-- ===== src/Worker.antt =====
-- The triage worker (tools/triage_worker.py).
pub mod Retry
pub mod RetryLaws
pub mod RetryExamples
pub mod Select
pub mod SelectLaws
pub mod SelectExamples
pub mod Drain
pub mod CallLaws
pub mod FailLaws
pub mod FailExamples
pub mod DrainLaws
pub mod DrainExamples
pub mod Draft
pub mod DraftLaws
pub mod DraftExamples
pub mod TimeFrame
pub mod TimeFrameLaws
pub mod TimeFrameExamples
pub mod Gather
pub mod GatherLaws
pub mod GatherExamples
pub mod Analysis
pub mod BadDate
pub mod BadDateExamples
pub mod DedupeLaws
pub mod Reading
pub mod Documents
pub mod World
pub mod Attempt
pub mod Case
pub mod Conclude
pub mod Process
pub mod IdentityLaws
pub mod AttemptLaws
pub mod ColumnLaws
pub mod FinishLaws
pub mod SettleLaws
pub mod ProcessLaws
pub mod ExampleWorld
pub mod ProcessExamples
pub mod FinishExamples
pub mod LinkLaws
pub mod Linked
pub mod Work
