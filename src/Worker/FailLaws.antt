-- ===== src/Worker/FailLaws.antt =====
-- What becomes of a row whose attempts keep failing, over calls of `process_once` in
-- tools/triage_worker.py.
use support_triage_llm.Base.{
  ℕ, zero, suc, ◌+◌, ◌-◌, ◌≤◌, String, ◌≡◌, true, some, ok, ◌⊎◌, ltb, if◌then◌else◌,
}
use support_triage_llm.Queue.Rows.{Row, Table, find_row}
use support_triage_llm.Queue.WellFormed.{WellFormed}
use support_triage_llm.Queue.Ops.{QueueError, claim_row}
use support_triage_llm.Worker.Retry.{RetryConfig, Finish, failure, retry_count_of}
use support_triage_llm.Worker.World.{World, Draws, Tables}
use support_triage_llm.Worker.Conclude.{attempt_row}
use support_triage_llm.Worker.Process.{process_once}

-- A call that comes to its end, of any worker at any time, in which the row of this id is claimed and the
-- attempt at it fails.
pub record FailedCall (describe : QueueError → String) (config : RetryConfig) (id : ℕ)
    (t t' : Table) : Type 0 where
  pub world : World
  pub worker : String
  pub draws : Draws
  pub seen : ℕ
  pub now : ℕ
  pub fin : Finish
  pub tables : Tables
  pub tables' : Tables
  pub row : Row
  pub error : String
  pub claims : (claim_row seen now worker t).1 ≡ some row
  pub own : row.id ≡ id
  pub fails : (attempt_row world draws row worker tables).1 ≡ failure error
  pub ends :
      process_once world describe config worker draws seen now fin tables t
      ≡ (tables', ok (t', true))

-- Such calls for one row, as many as the number, with anything between them that leaves that row as it is
-- and the ids of the table in order.
pub data Failures (describe : QueueError → String) (config : RetryConfig) (id : ℕ)
    : ℕ → Table → Table → Type 0 where
  start : {t : Table} → Failures describe config id zero t t
  elsewhere :
      {k : ℕ} {t t' t'' : Table}
      → Failures describe config id k t t'
      → WellFormed t''
      → find_row id t''.rows ≡ find_row id t'.rows
      → Failures describe config id k t t''
  again :
      {k : ℕ} {t t' t'' : Table}
      → Failures describe config id k t t'
      → FailedCall describe config id t' t''
      → Failures describe config id (suc k) t t''

status_after : RetryConfig → ℕ → String
status_after config n = if ltb config.max_retries n then "dead_letter" else "queued"

module _ (describe : QueueError → String) (config : RetryConfig) (id : ℕ) where
  -- what holds of the row after so many calls
  abbrev Counted : ℕ → ℕ → Table → Type 0
  Counted n k t' =
      WellFormed t'
      × ((r' : Row) × (find_row id t'.rows ≡ some r')
          × (retry_count_of r' ≡ n + k)
          × ((k ≡ 0)
              ⊎ ((r'.status ≡ status_after config (n + k)) × (k ≤ suc (config.max_retries - n)))))
