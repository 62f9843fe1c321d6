-- ===== src/Worker/Process.antt =====
-- `process_once` of tools/triage_worker.py over the queue and the other tables: what becomes of the row that
-- was claimed. What an attempt has written to the other tables stays when it fails.
use support_triage_llm.Base.{
  ℕ, String, if◌then◌else◌, Bool, true, false, Option, none, some, Result, ok, err, ◌>>=◌,
}
use support_triage_llm.Queue.Rows.{Row, Table}
use support_triage_llm.Queue.Ops.{QueueError, claim_row}
use support_triage_llm.Worker.Retry.{RetryConfig, Finish, Outcome, finish, ensure_key, int_or_zero}
use support_triage_llm.Values.{get, truthy}
use support_triage_llm.Worker.Reading.{worker_key}
use support_triage_llm.Worker.World.{World, Draws, Tables}
use support_triage_llm.Worker.Conclude.{attempt_row}

-- what ends the worker: an exception of the queue, the ValueError of a retry count that is no number, or
-- the TypeError of a missing creation time
pub data WorkerError : Type 0 where
  queue_error : QueueError → WorkerError
  not_a_number no_creation_time : WorkerError

unfoldable pub of_queue : Result QueueError Table → Result WorkerError Table
of_queue (ok t) = ok t
of_queue (err e) = err (queue_error e)

-- `describe` is str(exc), of an exception that the queue raises.
module _ (w : World) (describe : QueueError → String) (config : RetryConfig)
    (processor_id : String) where
  -- the idempotency key, with the one that the row would be given, if its creation time can be read
  unfoldable pub keyed : Option String → Finish → Row → Table → Result WorkerError Table
  unfolding of_queue ensure_key get truthy
  keyed none fin row t =
      if truthy (get "idempotency_key" row.cells) then ok t else err no_creation_time
  keyed (some digest) fin row t =
      of_queue (ensure_key w.dumps describe config processor_id digest fin.now row t)

  -- what comes before the `try`, with the retry count
  unfoldable pub start_row : Option ℕ → Finish → Row → Table → Result WorkerError Table
  unfolding keyed worker_key
  start_row none fin row t = err not_a_number
  start_row (some n) fin row t = keyed (worker_key w.sha256 w.iso row) fin row t

  unfoldable pub settle_row :
      Finish → Row → Table → Tables × Outcome → Tables × Result WorkerError (Table × Bool)
  unfolding finish of_queue
  settle_row fin row t (s, outcome) = (
    s,
    of_queue (finish w.dumps describe config processor_id fin row outcome t)
        >>= (λ t'. ok (t', true)),
  )

  -- after the idempotency key
  unfoldable pub after_key :
      Draws
      → Finish
      → Row
      → Tables
      → Result WorkerError Table
      → Tables × Result WorkerError (Table × Bool)
  unfolding settle_row attempt_row
  after_key d fin row s (err e) = (s, err e)
  after_key d fin row s (ok t) = settle_row fin row t (attempt_row w d row processor_id s)

  unfoldable pub run_claimed :
      Draws → Finish → Tables → Table × Option Row → Tables × Result WorkerError (Table × Bool)
  unfolding after_key start_row int_or_zero get
  run_claimed d fin s (t, none) = (s, ok (t, false))
  run_claimed d fin s (t, some row) =
      after_key d fin row s (start_row (int_or_zero (get "retry_count" row.cells)) fin row t)

  -- process_once: the tables besides the queue, the queue, and whether a row was claimed
  unfoldable pub process_once :
      Draws → ℕ → ℕ → Finish → Tables → Table → Tables × Result WorkerError (Table × Bool)
  unfolding run_claimed claim_row
  process_once d seen now fin s t = run_claimed d fin s (claim_row seen now processor_id t)
