-- ===== src/Worker/ProcessLaws.antt =====
-- That `process_once` of tools/triage_worker.py always gets an answer, and where it leaves the row.
use support_triage_llm.Base.{
  ℕ, ◌+◌, ◌≤◌, String, ◌≡◌, refl, ap, ◌∙◌, true, Bool-cases, Option-cases, Option, none, some, ok,
  err, inl, inr, ◌⊎◌,
}
use support_triage_llm.Queue.Rows.{Row, Table, find_row}
use support_triage_llm.Queue.WellFormed.{WellFormed}
use support_triage_llm.Queue.Ops.{QueueError, claim_row}
use support_triage_llm.Worker.Retry.{RetryConfig, Finish, Outcome, int_or_zero, retry_count_of}
use support_triage_llm.Worker.Reading.{worker_key}
use support_triage_llm.Values.{get, truthy}
use support_triage_llm.Worker.World.{World, Draws, Tables}
use support_triage_llm.Worker.Conclude.{attempt_row}
use support_triage_llm.Worker.AttemptLaws.{is_triaged}
use support_triage_llm.Worker.Process.{
  WorkerError, not_a_number, no_creation_time, of_queue, keyed, start_row, settle_row, after_key,
  run_claimed, process_once,
}
use support_triage_llm.Worker.SettleLaws.{
  Held, Settled, claim_row-Held, ensure_key-Held, finish-Settles,
}

pub claimed-pair : (c : Table × Option Row) {o : Option Row} → c.1 ≡ o → c ≡ (c.0, o)
claimed-pair (t, o) h = ap (λ p. (t, p)) h

-- What `process_once` reads of a row before its `try` can be read: the retry count is a number, and the
-- row has an idempotency key or a creation time.
pub record IsReadable (w : World) (row : Row) : Type 0 where
  pub count : (n : ℕ) × (int_or_zero (get "retry_count" row.cells) ≡ some n)
  pub key :
      (truthy (get "idempotency_key" row.cells) ≡ true)
      ⊎ ((k : String) × (worker_key w.sha256 w.iso row ≡ some k))

module _ (w : World) (describe : QueueError → String) (config : RetryConfig) (worker : String)
    (fin : Finish) where
  keyed-Held :
      (row : Row) (t : Table) (o : Option String)
      → (truthy (get "idempotency_key" row.cells) ≡ true) ⊎ ((k : String) × (o ≡ some k))
      → row.status ≡ "processing"
      → Held row.id t
      → (t' : Table) × (keyed w describe config worker o fin row t ≡ ok t') × Held row.id t'
  unfolding keyed of_queue
  keyed-Held row t none (inl h) status held = (t, rw h refl, held)
  keyed-Held row t none (inr (k, h)) status held = absurd (cc h)
  keyed-Held row t (some digest) h status held =
      let (t', done, held') =
        ensure_key-Held w.dumps describe config worker digest fin.now row t status held in
      (t', rw done refl, held')

  pub start_row-Held :
      (row : Row) (t : Table)
      → IsReadable w row
      → row.status ≡ "processing"
      → Held row.id t
      → (t' : Table) × (start_row w describe config worker
            (int_or_zero (get "retry_count" row.cells))
            fin
            row
            t
          ≡ ok t')
        × Held row.id t'
  unfolding start_row
  start_row-Held row t h status held =
      rw (h.count.1) (keyed-Held row t (worker_key w.sha256 w.iso row) h.key status held)

  -- A row that cannot be read ends the worker.
  pub start_row-cases :
      (row : Row) (t : Table)
      → IsReadable w row
        ⊎ ((e : WorkerError) × (start_row w describe config worker
                (int_or_zero (get "retry_count" row.cells))
                fin
                row
                t
              ≡ err e)
            × ((e ≡ not_a_number) ⊎ (e ≡ no_creation_time)))
  unfolding start_row keyed
  start_row-cases row t = elim (Option-cases (int_or_zero (get "retry_count" row.cells))) [
    | inl c ↦ inr (not_a_number, rw c refl, inl refl)
    | inr (n, c) ↦ elim (Option-cases (worker_key w.sha256 w.iso row)) [
      | inr (k, e) ↦ inl (record { count = (n, c); key = inr (k, e) })
      | inl e ↦ elim (Bool-cases (truthy (get "idempotency_key" row.cells))) [
        | inl b ↦ inl (record { count = (n, c); key = inl b })
        | inr b ↦ inr (no_creation_time, rw (c, e, b) refl, inr refl)
      ]
    ]
  ]

module _ (w : World) (describe : QueueError → String) (config : RetryConfig) (worker : String)
    (d : Draws) (fin : Finish) where
  settle-Settles :
      (row : Row) (t : Table) (s : Tables) (o : Outcome)
      → Held row.id t
      → (t' : Table) × (r : Row) × (settle_row w describe config worker fin row t (s, o)
          ≡ (s, ok (t', true)))
        × (find_row row.id t'.rows ≡ some r)
        × Settled config (is_triaged o) row r
  unfolding settle_row
  settle-Settles row t s o held =
      let (t', r, done, at, settled) =
        finish-Settles w.dumps describe config worker fin row o t held in
      (t', r, rw done refl, at, settled)

  -- a call that claims a row which can be read comes to the end of the attempt at it
  pub process_once-settle_row :
      (seen now : ℕ) (s : Tables) (t : Table) (row : Row)
      → WellFormed t
      → (claim_row seen now worker t).1 ≡ some row
      → IsReadable w row
      → (t1 : Table) × (process_once w describe config worker d seen now fin s t
          ≡ settle_row w describe config worker fin row t1 (attempt_row w d row worker s))
        × Held row.id t1
  unfolding process_once run_claimed after_key
  process_once-settle_row seen now s t row wf h readable =
      let here = claimed-pair (claim_row seen now worker t) h in
      let (held, status) =
        claim_row-Held seen now worker t (claim_row seen now worker t).0 row wf here in
      let (t1, started, held') =
        start_row-Held w describe config worker fin row (claim_row seen now worker t).0 readable
          status held in
      (t1, rw (here, run_claimed, started) refl, held')

  -- On a table whose ids are distinct and below the counter, a call of the worker that claims a row whose
  -- retry count is a number, and which has an idempotency key or a creation time, gets an answer: the other tables are as the attempt at the row leaves them, and the row is
  -- `triaged`, after an attempt that ended with the columns of a triage, or `queued` with one more
  -- retry counted than before, which is at most `max_retries`, or a dead letter.
  pub process_once_lem :
      (seen now : ℕ) (s : Tables) (t : Table) (row : Row)
      → WellFormed t
      → (claim_row seen now worker t).1 ≡ some row
      → IsReadable w row
      → let (s', o) = attempt_row w d row worker s in
        (t' : Table) × (r : Row) × (process_once w describe config worker d seen now fin s t
          ≡ (s', ok (t', true)))
        × (find_row row.id t'.rows ≡ some r)
        × (((r.status ≡ "triaged") × (is_triaged o ≡ true))
            ⊎ (((r.status ≡ "queued")
                  × (retry_count_of r ≡ retry_count_of row + 1)
                  × (retry_count_of r ≤ config.max_retries))
                ⊎ (r.status ≡ "dead_letter")))
  process_once_lem seen now s t row wf h readable =
      let (t1, same, held) = process_once-settle_row seen now s t row wf h readable in
      let (t', r, done, at, settled) =
        settle-Settles row t1 (attempt_row w d row worker s).0 (attempt_row w d row worker s).1
          held in
      (t', r, same ∙ done, at, settled)
