-- ===== src/Worker/Retry.antt =====
-- `process_once` of tools/triage_worker.py around the triage of a claimed row: the missing
-- idempotency key, and the three ways out. What the triage itself gives or raises is an `Outcome`,
-- an argument. Latencies are whole numbers.
use support_triage_llm.Base.{
  ℕ, ◌+◌, ◌*◌, ◌^◌, min, max, String, Option, none, some, [], ◌∷◌, ltb, if◌then◌else◌, Result, ok,
  err,
}
use support_triage_llm.Values.{
  Value, null, flag, num, time, text, object, named, no_members, Dict, get, truthy, or_value,
}
use support_triage_llm.Queue.Rows.{Row, Table}
use support_triage_llm.Queue.Ops.{QueueError, update_row_status}

pub record RetryConfig : Type 0 where
  pub max_retries : ℕ
  pub retry_base_seconds : ℕ
  pub retry_max_seconds : ℕ

unfoldable pub backoff_seconds : RetryConfig → ℕ → ℕ
backoff_seconds config retry_count =
    let base = max config.retry_base_seconds 1 in
    min (base * 2 ^ retry_count) (max config.retry_max_seconds base)

-- int(v or 0), of an INTEGER column; none where `int` raises, as it does on a text that is no number
unfoldable pub int_or_zero : Value → Option ℕ
unfolding truthy
int_or_zero (num n) = some n
int_or_zero (flag b) = if b then some 1 else some 0
int_or_zero v = if truthy v then none else some 0

unfoldable pub count_or_zero : Option ℕ → ℕ
count_or_zero none = 0
count_or_zero (some n) = n

-- the count of a row that has one; `process_once` goes no further with another
unfoldable pub retry_count_of : Row → ℕ
unfolding count_or_zero int_or_zero get
retry_count_of r = count_or_zero (int_or_zero (get "retry_count" r.cells))

-- how the triage of the claimed row ends: the columns for `triaged`, or an exception's text
pub data Outcome : Type 0 where
  triaged : Dict → Outcome
  schema_error failure : String → Outcome

-- the readings of the clock in the handler, and the time that the triage took
pub record Finish : Type 0 where
  pub elapsed : ℕ
  pub finished_at : ℕ
  pub now : ℕ

unfoldable pub schema_error_columns : RetryConfig → String → Finish → Row → String → Dict
unfolding retry_count_of
schema_error_columns config processor_id fin row error =
    ("processor_id", text processor_id)
    ∷ ("started_at", or_value (get "started_at" row.cells) (time fin.now))
    ∷ ("finished_at", time fin.finished_at)
    ∷ ("latency_seconds", num fin.elapsed)
    ∷ ("retry_count", num (max (retry_count_of row + 1) (config.max_retries + 1)))
    ∷ (
      "response_metadata",
      object (
          named "error" (text error)
            (named "dead_letter_reason" (text "schema_validation") no_members)),
    )
    ∷ []

unfoldable pub give_up_columns : String → Finish → Row → String → Dict
unfolding retry_count_of
give_up_columns processor_id fin row error =
    ("processor_id", text processor_id)
    ∷ ("started_at", or_value (get "started_at" row.cells) (time fin.now))
    ∷ ("finished_at", time fin.finished_at)
    ∷ ("latency_seconds", num fin.elapsed)
    ∷ ("retry_count", num (retry_count_of row + 1))
    ∷ (
      "response_metadata",
      object
          (named "error" (text error) (named "dead_letter_reason" (text "max_retries") no_members)),
    )
    ∷ []

unfoldable pub retry_columns : RetryConfig → Finish → Row → String → Dict
unfolding retry_count_of backoff_seconds
retry_columns config fin row error =
    let delay = backoff_seconds config (retry_count_of row) in
    ("processor_id", text "")
    ∷ ("started_at", null)
    ∷ ("finished_at", null)
    ∷ ("latency_seconds", num fin.elapsed)
    ∷ ("retry_count", num (retry_count_of row + 1))
    ∷ ("available_at", time (fin.now + delay))
    ∷ (
      "response_metadata",
      object (
          named "error" (text error)
            (named "next_action" (text "retry") (named "retry_in_seconds" (num delay) no_members))),
    )
    ∷ []

-- `describe` is str(exc), of an exception that the queue raises.
module _ (dumps : Value → String) (describe : QueueError → String) (config : RetryConfig)
    (processor_id : String) where
  -- the handler of `SchemaValidationError`
  unfoldable pub reject : Finish → Row → String → Table → Result QueueError Table
  unfolding schema_error_columns
  reject fin row error t =
      update_row_status dumps fin.now row.id "dead_letter"
        (schema_error_columns config processor_id fin row error) t

  -- the handler of every other exception
  unfoldable pub retry_or_give_up : Finish → Row → String → Table → Result QueueError Table
  unfolding retry_count_of give_up_columns retry_columns
  retry_or_give_up fin row error t =
      if ltb config.max_retries (retry_count_of row + 1)
      then update_row_status dumps fin.now row.id "dead_letter"
          (give_up_columns processor_id fin row error) t
      else update_row_status dumps fin.now row.id "queued" (retry_columns config fin row error) t

  -- an exception of the last write is handled like one of the triage
  unfoldable pub or_retry : Finish → Row → Table → Result QueueError Table → Result QueueError Table
  unfolding retry_or_give_up
  or_retry fin row t (ok t') = ok t'
  or_retry fin row t (err e) = retry_or_give_up fin row (describe e) t

  unfoldable pub finish : Finish → Row → Outcome → Table → Result QueueError Table
  unfolding reject retry_or_give_up or_retry
  finish fin row (triaged columns) t =
      or_retry fin row t (update_row_status dumps fin.now row.id "triaged" columns t)
  finish fin row (schema_error error) t = reject fin row error t
  finish fin row (failure error) t = retry_or_give_up fin row error t

  -- a row without an idempotency key is given one
  unfoldable pub ensure_key : String → ℕ → Row → Table → Result QueueError Table
  ensure_key digest now row t =
      if truthy (get "idempotency_key" row.cells)
      then ok t
      else update_row_status dumps now row.id row.status (("idempotency_key", text digest) ∷ []) t
