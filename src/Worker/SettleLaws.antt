-- ===== src/Worker/SettleLaws.antt =====
-- What the end of a claim, the idempotency key and the handlers of `process_once` in
-- tools/triage_worker.py do to a row that is being processed.
use support_triage_llm.Base.{
  ℕ, ◌+◌, ◌≤◌, String, ◌≡◌, refl, ==-refl, Bool, true, false, ltb, some, [], ◌∷◌, if◌then◌else◌,
  Result, ok, err, Bool-cases, ◌⊎◌, inl, inr, arith,
}
use support_triage_llm.Base.Text.{lower}
use support_triage_llm.Values.{Value, Dict, text, has, put, get, truthy}
use support_triage_llm.Queue.Schema.{
  member, triage_complete_states, allowed_update_fields, json_fields,
}
use support_triage_llm.Queue.Rows.{Row, Table, find_row}
use support_triage_llm.Queue.RowLaws.{find_row-change_row}
use support_triage_llm.Queue.WellFormed.{WellFormed, find_row_member}
use support_triage_llm.Queue.Claim.{claim_row-IsFirst}
use support_triage_llm.Queue.Update.{update_row_status-Updated}
use support_triage_llm.Queue.Ops.{
  QueueError, check_transition, claim_row, claim_with, updates_of, write_columns, update_row_status,
  collect, maybe_json_dump,
}
use support_triage_llm.Worker.Retry.{
  RetryConfig, Finish, Outcome, triaged, schema_error, failure, retry_count_of,
  schema_error_columns, reject, retry_or_give_up, or_retry, finish, ensure_key,
}
use support_triage_llm.Worker.RetryLaws.{
  update_row_status_plain, check_transition-dead_letter, retry_or_give_up_lem, Failed,
}
use support_triage_llm.Worker.AttemptLaws.{is_triaged}

-- the row of this id is being processed
abbrev pub Held : ℕ → Table → Type 0
Held id t = (r : Row) × (find_row id t.rows ≡ some r) × (lower r.status ≡ "processing")

pub claim_row-Held :
    (seen now : ℕ) (worker : String) (t t' : Table) (row : Row)
    → WellFormed t
    → claim_row seen now worker t ≡ (t', some row)
    → Held row.id t' × (row.status ≡ "processing")
unfolding claim_with lower
claim_row-Held seen now worker t t' row wf h =
    let (r, first, at, rows, _) = claim_row-IsFirst seen now worker t t' row h in
    let here = find_row_member t.rows r wf.distinct first.member in
    rw (at, rows)
      (
        (
          claim_with worker now r,
          rw
              (
                find_row-change_row r.id (claim_with worker now) (λ q. refl) r.id t.rows,
                ==-refl r.id,
                here,
              )
              refl,
          refl,
        ),
        refl,
      )

check_transition-same :
    (current : String)
    → lower current ≡ "processing"
    → check_transition "processing" current ≡ ok tt
unfolding check_transition lower
check_transition-same current e = rw e refl

write_key :
    (dumps : Value → String) (digest : String) (now id : ℕ) (t : Table)
    → Held id t
    → (t' : Table) × (update_row_status dumps now id "processing"
          (("idempotency_key", text digest) ∷ [])
          t
        ≡ ok t')
      × Held id t'
unfolding updates_of collect has put member allowed_update_fields json_fields maybe_json_dump lower
    triage_complete_states write_columns
write_key dumps digest now id t (r, found, e) =
    let (t', done, left) =
      update_row_status_plain dumps now id "processing" (("idempotency_key", text digest) ∷ []) t r
        found (check_transition-same r.status e) refl refl in
    (t', done, (_, left, refl))

-- how a row waits for its next try
abbrev pub Waits : RetryConfig → Row → Row → Type 0
Waits config row r =
    (r.status ≡ "queued")
    × (retry_count_of r ≡ retry_count_of row + 1)
    × (retry_count_of r ≤ config.max_retries)

-- where a row may end; it is `triaged` only where the attempt was
abbrev pub Settled : RetryConfig → Bool → Row → Row → Type 0
Settled config b row r =
    ((r.status ≡ "triaged") × (b ≡ true)) ⊎ (Waits config row r ⊎ (r.status ≡ "dead_letter"))

abbrev pub Settles : RetryConfig → Bool → Row → Result QueueError Table → Type 0
Settles config b row result =
    (t' : Table) × (r : Row) × (result ≡ ok t')
    × (find_row row.id t'.rows ≡ some r)
    × Settled config b row r

module _ (dumps : Value → String) (describe : QueueError → String) (config : RetryConfig)
    (worker : String) where
  pub ensure_key-Held :
      (digest : String) (now : ℕ) (row : Row) (t : Table)
      → row.status ≡ "processing"
      → Held row.id t
      → (t' : Table) × (ensure_key dumps describe config worker digest now row t ≡ ok t')
        × Held row.id t'
  unfolding ensure_key write_columns
  ensure_key-Held digest now row t status (r, found, e) =
      elim (Bool-cases (truthy (get "idempotency_key" row.cells))) [
        | inl h ↦ (t, rw h refl, (r, found, e))
        | inr h ↦
            let (t', done, held) = write_key dumps digest now row.id t (r, found, e) in
            (t', rw (h, status) done, held)
      ]

  -- the handler of a schema error writes a dead letter
  reject-Settles :
      (fin : Finish) (row : Row) (error : String) (t : Table)
      → Held row.id t
      → Settles config false row (reject dumps describe config worker fin row error t)
  unfolding reject schema_error_columns updates_of collect has put member allowed_update_fields
      json_fields maybe_json_dump lower triage_complete_states write_columns
  reject-Settles fin row error t (r, found, e) =
      let (t', done, left) =
        update_row_status_plain dumps fin.now row.id "dead_letter"
          (schema_error_columns config worker fin row error) t r found
          (check_transition-dead_letter r.status e) refl refl in
      (t', _, done, left, inr (inr refl))

  failed-Settled :
      (row r : Row)
      → retry_count_of r ≡ retry_count_of row + 1
      → r.status
        ≡ (if ltb config.max_retries (retry_count_of row + 1) then "dead_letter" else "queued")
      → Waits config row r ⊎ (r.status ≡ "dead_letter")
  failed-Settled row r counted status =
      elim (Bool-cases (ltb config.max_retries (retry_count_of row + 1))) [
        | inl h ↦ inr (rw h at status)
        | inr h ↦ inl (rw h at status, counted, ground (arith, counted, h))
      ]

  retry-Settles :
      (b : Bool) (fin : Finish) (row : Row) (error : String) (t : Table)
      → Held row.id t
      → Settles config b row (retry_or_give_up dumps describe config worker fin row error t)
  unfolding Failed
  retry-Settles b fin row error t (r, found, e) =
      let (t', done, (r', at, counted, status, _)) =
        retry_or_give_up_lem dumps describe config worker fin row error t r found e in
      (t', r', done, at, inr (failed-Settled row r' counted status))

  written-Settles :
      (fin : Finish) (row : Row) (columns : Dict) (t : Table) (u : Result QueueError Table)
      → update_row_status dumps fin.now row.id "triaged" columns t ≡ u
      → Held row.id t
      → Settles config true row (or_retry dumps describe config worker fin row t u)
  unfolding or_retry write_columns
  written-Settles fin row columns t (err q) h held = retry-Settles true fin row (describe q) t held
  written-Settles fin row columns t (ok t') h held =
      let (r, u) = update_row_status-Updated dumps fin.now row.id "triaged" columns t t' h in
      (
        t',
        write_columns "triaged" (updates_of dumps "triaged" columns fin.now) r,
        refl,
        rw
            (
              u.rows,
              find_row-change_row row.id
                  (write_columns "triaged" (updates_of dumps "triaged" columns fin.now)) (λ q. refl)
                  row.id t.rows,
              ==-refl row.id,
              u.found,
            )
            refl,
        inl (refl, refl),
      )

  pub finish-Settles :
      (fin : Finish) (row : Row) (o : Outcome) (t : Table)
      → Held row.id t
      → Settles config (is_triaged o) row (finish dumps describe config worker fin row o t)
  unfolding finish is_triaged
  finish-Settles fin row (triaged columns) t h = written-Settles fin row columns t _ refl h
  finish-Settles fin row (schema_error e) t h = reject-Settles fin row e t h
  finish-Settles fin row (failure e) t h = retry-Settles false fin row e t h
