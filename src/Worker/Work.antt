-- ===== src/Worker/Work.antt =====
-- A measure of the calls of `process_once` that a queue still takes, and what the statements on the
-- table do to it.
use support_triage_llm.Base.{
  ℕ, suc, ◌+◌, ◌-◌, String, ◌≡◌, refl, ◌∙◌, some, List, [], ◌∷◌, if◌then◌else◌, arith, ◌==◌, str_eq,
  All, ◌≢◌, ==-eq, Result, ok, err, ok-injective, ltb, Bool-cases, inl, inr,
}
use mathlib.Core.Path.{subst}
use mathlib.Core.Option.{none-ne-some, some-injective}
use support_triage_llm.Queue.Rows.{Row, Table, find_row, change_row}
use support_triage_llm.Queue.WellFormed.{WellFormed, Distinct, WellFormed-change_row}
use support_triage_llm.Values.{Value, Dict, get, truthy}
use support_triage_llm.Queue.Update.{update_row_status-Updated}
use support_triage_llm.Queue.Ops.{QueueError, updates_of, write_columns, update_row_status}
use support_triage_llm.Worker.Retry.{
  RetryConfig, Finish, Outcome, triaged, schema_error, failure, retry_count_of, reject,
  retry_or_give_up, or_retry, finish, ensure_key,
}

module _ (max_retries : ℕ) where
  -- the tries that a row has left
  unfoldable pub tries : Row → ℕ
  tries r = if str_eq r.status "queued" then suc (max_retries - retry_count_of r) else 0

  unfoldable pub work : List Row → ℕ
  unfolding tries
  work [] = 0
  work (r ∷ rs) = tries r + work rs

  -- the work apart from the row of this id
  unfoldable pub others : ℕ → List Row → ℕ
  unfolding tries
  others i [] = 0
  others i (r ∷ rs) = (if r.id == i then 0 else tries r) + others i rs

  others-absent : (i : ℕ) (rows : List Row) → All (λ s. s.id ≢ i) rows → others i rows ≡ work rows
  unfolding others work
  others-absent i [] h = refl
  others-absent i (r ∷ rs) h = ground (arith, others-absent i rs h.1, h.0)

  pub work-others :
      (i : ℕ) (rows : List Row) (r : Row)
      → Distinct rows
      → find_row i rows ≡ some r
      → work rows ≡ tries r + others i rows
  unfolding others work find_row
  work-others i [] r d h = absurd (none-ne-some _ h)
  work-others i (s ∷ rs) r d h = elim (Bool-cases (s.id == i)) [
    | inl e ↦
        let none_left = subst (λ k. All (λ u. u.id ≢ k) rs) (==-eq s.id i e) d.0 in
        let same = some-injective _ _ (rw e at h) in
        rw (e, others-absent i rs none_left, same) (omega arith)
    | inr e ↦ ground (arith, h, e, work-others i rs r d.1)
  ]

  pub others-change_row :
      (i : ℕ) (f : Row → Row) (rows : List Row)
      → ((r : Row) → (f r).id ≡ r.id)
      → others i (change_row i f rows) ≡ others i rows
  unfolding others change_row
  others-change_row i f [] same = refl
  others-change_row i f (r ∷ rs) same = ground (arith, same r, others-change_row i f rs same)

  -- no row but that of this id has changed the work it leaves
  pub record Touched (i : ℕ) (t t' : Table) : Type 0 where
    pub well : WellFormed t → WellFormed t'
    pub rest : others i t'.rows ≡ others i t.rows

  pub Touched-refl : (i : ℕ) (t : Table) → Touched i t t
  Touched-refl i t = record { well = λ w. w; rest = refl }

  pub Touched-trans : {i : ℕ} {t u v : Table} → Touched i t u → Touched i u v → Touched i t v
  Touched-trans p q = record { well = λ w. q.well (p.well w); rest = q.rest ∙ p.rest }

  pub Touched-change_row :
      (i : ℕ) (f : Row → Row) (t t' : Table)
      → ((r : Row) → (f r).id ≡ r.id)
      → t'.rows ≡ change_row i f t.rows
      → t'.next_id ≡ t.next_id
      → Touched i t t'
  Touched-change_row i f t t' same rows next_id = record {
    well = λ w. WellFormed-change_row i f same t t' w rows next_id;
    rest = rw rows (others-change_row i f t.rows same);
  }

  pub update-Touched :
      (dumps : Value → String) (now id : ℕ) (status : String) (kwargs : Dict) (t t' : Table)
      → update_row_status dumps now id status kwargs t ≡ ok t'
      → Touched id t t'
  update-Touched dumps now id status kwargs t t' h =
      let (r, u) = update_row_status-Updated dumps now id status kwargs t t' h in
      Touched-change_row id (write_columns status (updates_of dumps status kwargs now)) t t'
        (λ q. unfold write_columns in refl) u.rows u.next_id

module _ (dumps : Value → String) (describe : QueueError → String) (config : RetryConfig)
    (worker : String) where
  pub ensure_key-Touched :
      (digest : String) (now : ℕ) (row : Row) (t t' : Table)
      → ensure_key dumps describe config worker digest now row t ≡ ok t'
      → Touched config.max_retries row.id t t'
  unfolding ensure_key
  ensure_key-Touched digest now row t t' h =
      elim (Bool-cases (truthy (get "idempotency_key" row.cells))) [
        | inl e ↦
            subst (Touched config.max_retries row.id t) (ok-injective t t' (rw e at h))
              (Touched-refl _ _ t)
        | inr e ↦ update-Touched _ dumps now row.id row.status _ t t' (rw e at h)
      ]

  retry-Touched :
      (fin : Finish) (row : Row) (error : String) (t t' : Table)
      → retry_or_give_up dumps describe config worker fin row error t ≡ ok t'
      → Touched config.max_retries row.id t t'
  unfolding retry_or_give_up
  retry-Touched fin row error t t' h =
      elim (Bool-cases (ltb config.max_retries (retry_count_of row + 1))) [
        | inl e ↦ update-Touched _ dumps fin.now row.id "dead_letter" _ t t' (rw e at h)
        | inr e ↦ update-Touched _ dumps fin.now row.id "queued" _ t t' (rw e at h)
      ]

  written-Touched :
      (fin : Finish) (row : Row) (columns : Dict) (t t' : Table) (u : Result QueueError Table)
      → update_row_status dumps fin.now row.id "triaged" columns t ≡ u
      → or_retry dumps describe config worker fin row t u ≡ ok t'
      → Touched config.max_retries row.id t t'
  unfolding or_retry
  written-Touched fin row columns t t' (ok t1) e h =
      update-Touched _ dumps fin.now row.id "triaged" columns t t' (e ∙ h)
  written-Touched fin row columns t t' (err q) e h = retry-Touched fin row (describe q) t t' h

  pub finish-Touched :
      (fin : Finish) (row : Row) (o : Outcome) (t t' : Table)
      → finish dumps describe config worker fin row o t ≡ ok t'
      → Touched config.max_retries row.id t t'
  unfolding finish reject
  finish-Touched fin row (triaged columns) t t' h = written-Touched fin row columns t t' _ refl h
  finish-Touched fin row (schema_error e) t t' h =
      update-Touched _ dumps fin.now row.id "dead_letter" _ t t' h
  finish-Touched fin row (failure e) t t' h = retry-Touched fin row e t t' h
