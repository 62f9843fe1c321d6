-- ===== src/Worker/RetryLaws.antt =====
-- What a failed triage does to its row.
use support_triage_llm.Base.{
  ℕ, ◌+◌, String, ◌≡◌, refl, sym, ◌∙◌, ap, true, false, some, ltb, ==-refl, if◌then◌else◌, ok,
  Bool-cases, inl, inr,
}
use mathlib.Core.Bool.{false≢true}
use support_triage_llm.Base.Text.{lower}
use support_triage_llm.Values.{Value, num, time, Dict, get, get-put, has, merge, put}
use support_triage_llm.Queue.Schema.{
  member, allowed_from, triage_complete_states, allowed_update_fields, json_fields,
}
use support_triage_llm.Queue.Rows.{Row, Table, find_row, change_row}
use support_triage_llm.Queue.RowLaws.{find_row-change_row}
use support_triage_llm.Queue.Ops.{
  QueueError, check_update, check_found, check_transition, check_complete, commit_update,
  updates_of, write_columns, update_row_status, claim_with, collect, maybe_json_dump,
}
use support_triage_llm.Worker.Retry.{
  RetryConfig, backoff_seconds, retry_count_of, count_or_zero, int_or_zero, Finish, give_up_columns,
  retry_columns, retry_or_give_up,
}

-- An update that needs no draft and leaves `message_id` alone goes through.
pub update_row_status_plain :
    (dumps : Value → String) (now id : ℕ) (status : String) (kwargs : Dict) (t : Table) (r : Row)
    → find_row id t.rows ≡ some r
    → check_transition status r.status ≡ ok tt
    → member (lower status) triage_complete_states ≡ false
    → has "message_id" (updates_of dumps status kwargs now) ≡ false
    → (t' : Table) × (update_row_status dumps now id status kwargs t ≡ ok t')
      × (find_row id t'.rows ≡ some (write_columns status (updates_of dumps status kwargs now) r))
unfolding update_row_status check_update check_found check_complete commit_update
update_row_status_plain dumps now id status kwargs t r found moves plain free = (
  record t {
    rows = change_row id (write_columns status (updates_of dumps status kwargs now)) t.rows;
  },
  rw (found, moves, plain, free) refl,
  rw
      (
        find_row-change_row id (write_columns status (updates_of dumps status kwargs now))
            (λ s. unfold write_columns in refl) id t.rows,
        ==-refl id,
        found,
      )
      refl,
)

check_transition-queued :
    (current : String) → lower current ≡ "processing" → check_transition "queued" current ≡ ok tt
unfolding check_transition lower member allowed_from
check_transition-queued current e = rw e refl

pub check_transition-dead_letter :
    (current : String)
    → lower current ≡ "processing"
    → check_transition "dead_letter" current ≡ ok tt
unfolding check_transition lower member allowed_from
check_transition-dead_letter current e = rw e refl

retry_count-cell : (r : Row) {n : ℕ} → get "retry_count" r.cells ≡ num n → retry_count_of r ≡ n
unfolding retry_count_of
retry_count-cell r h = ap (λ v. count_or_zero (int_or_zero v)) h

module _ (dumps : Value → String) (describe : QueueError → String) (config : RetryConfig)
    (processor_id : String) where
  -- what a failure leaves in the row's place
  unfoldable pub Failed : Finish → Row → Table → Table → Type 0
  Failed fin row t t' =
      (r : Row) × (find_row row.id t'.rows ≡ some r)
      × (retry_count_of r ≡ retry_count_of row + 1)
      × (r.status
          ≡ (if ltb config.max_retries (retry_count_of row + 1) then "dead_letter" else "queued"))
      × (ltb config.max_retries (retry_count_of row + 1) ≡ false
          → get "available_at" r.cells
            ≡ time (fin.now + backoff_seconds config (retry_count_of row)))

  retry-Failed :
      (fin : Finish) (row : Row) (error : String) (t : Table) (r : Row)
      → find_row row.id t.rows ≡ some r
      → lower r.status ≡ "processing"
      → ltb config.max_retries (retry_count_of row + 1) ≡ false
      → (t' : Table) × (retry_or_give_up dumps describe config processor_id fin row error t ≡ ok t')
        × Failed fin row t t'
  unfolding retry_or_give_up Failed retry_columns member triage_complete_states lower has updates_of
      collect allowed_update_fields put write_columns merge maybe_json_dump json_fields
  retry-Failed fin row error t r found e more =
      let (t', done, left) =
        update_row_status_plain dumps fin.now row.id "queued" (retry_columns config fin row error) t
          r found (check_transition-queued r.status e) refl refl in
      (
        t',
        rw more done,
        (
          _,
          left,
          retry_count-cell
              (write_columns "queued"
                (updates_of dumps "queued" (retry_columns config fin row error) fin.now) r)
              (simp get-put refl),
          rw more refl,
          λ _. simp get-put refl,
        ),
      )

  give_up-Failed :
      (fin : Finish) (row : Row) (error : String) (t : Table) (r : Row)
      → find_row row.id t.rows ≡ some r
      → lower r.status ≡ "processing"
      → ltb config.max_retries (retry_count_of row + 1) ≡ true
      → (t' : Table) × (retry_or_give_up dumps describe config processor_id fin row error t ≡ ok t')
        × Failed fin row t t'
  unfolding retry_or_give_up Failed give_up_columns member triage_complete_states lower has
      updates_of collect allowed_update_fields put write_columns merge maybe_json_dump json_fields
  give_up-Failed fin row error t r found e more =
      let (t', done, left) =
        update_row_status_plain dumps fin.now row.id "dead_letter"
          (give_up_columns processor_id fin row error) t r found
          (check_transition-dead_letter r.status e) refl refl in
      (
        t',
        rw more done,
        (
          _,
          left,
          retry_count-cell
              (write_columns "dead_letter"
                (updates_of dumps "dead_letter" (give_up_columns processor_id fin row error)
                  fin.now)
                r)
              (simp get-put refl),
          rw more refl,
          λ h. absurd (false≢true (sym h ∙ more)),
        ),
      )

  -- A failed triage of a row that is being processed always gets an answer, and never raises: the
  -- row has one more retry counted, and is queued again, available after the backoff, or a dead
  -- letter once the count passes `max_retries`.
  pub retry_or_give_up_lem :
      (fin : Finish) (row : Row) (error : String) (t : Table) (r : Row)
      → find_row row.id t.rows ≡ some r
      → lower r.status ≡ "processing"
      → (t' : Table) × (retry_or_give_up dumps describe config processor_id fin row error t ≡ ok t')
        × Failed fin row t t'
  retry_or_give_up_lem fin row error t r found e =
      elim (Bool-cases (ltb config.max_retries (retry_count_of row + 1))) [
        | inl h ↦ give_up-Failed fin row error t r found e h
        | inr h ↦ retry-Failed fin row error t r found e h
      ]

  pub claimed-retry_count :
      (now n : ℕ) (r : Row)
      → retry_count_of r ≡ n
      → retry_count_of (claim_with processor_id now r) ≡ n
  unfolding claim_with retry_count_of
  claimed-retry_count now n r e =
      let cell : get "retry_count" (claim_with processor_id now r).cells
          ≡ get "retry_count" r.cells =
        simp get-put refl in
      ap (λ v. count_or_zero (int_or_zero v)) cell ∙ e
