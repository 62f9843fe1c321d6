-- ===== src/Worker/CallLaws.antt =====
-- What one call of `process_once` in tools/triage_worker.py does to the work that a queue leaves.
use support_triage_llm.Base.{
  subst, ℕ, suc, ◌+◌, ◌-◌, ◌≤◌, ◌<◌, String, ◌≡◌, refl, sym, ◌∙◌, ap, Bool, true, false, none, some,
  Result, ok, err, ok-injective, ◌>>=◌, inl, inr, arith, str_eq, if◌then◌else◌, All, Bool-cases,
  Option,
}
use support_triage_llm.Values.{get, truthy}
use support_triage_llm.Queue.Rows.{Row, Table, change_row, is_ready}
use support_triage_llm.Queue.WellFormed.{WellFormed, find_row_member}
use support_triage_llm.Queue.Ops.{QueueError, claim_row, claim_with}
use support_triage_llm.Queue.Claim.{claim_row-IsFirst, claim_row-none}
use support_triage_llm.Worker.Retry.{int_or_zero, RetryConfig, Finish, Outcome, retry_count_of}
use support_triage_llm.Worker.RetryLaws.{claimed-retry_count}
use support_triage_llm.Worker.World.{World, Draws, Tables}
use support_triage_llm.Worker.Conclude.{attempt_row}
use support_triage_llm.Worker.Process.{
  WorkerError, of_queue, keyed, start_row, settle_row, after_key, run_claimed, process_once,
}
use support_triage_llm.Worker.SettleLaws.{Settled}
use support_triage_llm.Worker.ProcessLaws.{IsReadable, claimed-pair, process_once_lem}
use support_triage_llm.Worker.Work.{
  tries, work, others, work-others, Touched, Touched-refl, Touched-trans, Touched-change_row,
  ensure_key-Touched, finish-Touched,
}

queued-tries :
    (max_retries : ℕ) (r : Row)
    → r.status ≡ "queued"
    → tries max_retries r ≡ suc (max_retries - retry_count_of r)
unfolding tries
queued-tries max_retries r h =
    ap (λ s. if str_eq s "queued" then suc (max_retries - retry_count_of r) else 0) h

ready-tries :
    (seen max_retries : ℕ) (r : Row)
    → is_ready seen r ≡ true
    → tries max_retries r ≡ suc (max_retries - retry_count_of r)
unfolding is_ready tries
ready-tries seen max_retries r h = ground (arith, h)

-- a row that is done with has no tries left, and one that waits has fewer
tries-Settled :
    (config : RetryConfig) (b : Bool) (row r : Row)
    → Settled config b row r
    → tries config.max_retries r ≤ config.max_retries - retry_count_of row
unfolding tries
tries-Settled config b row r (inl (status, _)) = rw status (omega arith)
tries-Settled config b row r (inr (inl (status, counted, few))) =
    omega (arith, queued-tries config.max_retries r status, counted, few)
tries-Settled config b row r (inr (inr status)) = rw status (omega arith)

table_of :
    (u : Result QueueError Table) (t' : Table)
    → ◌≡◌ {A = Result WorkerError (Table × Bool)}
        (of_queue u >>= (λ t. ok (t, true)))
        (ok (t', true))
    → u ≡ ok t'
unfolding of_queue
table_of (ok t) t' h = cc
table_of (err e) t' h = cc

of_queue-ok : (u : Result QueueError Table) (t' : Table) → of_queue u ≡ ok t' → u ≡ ok t'
unfolding of_queue
of_queue-ok (ok t) t' h = cc
of_queue-ok (err e) t' h = cc

module _ (w : World) (describe : QueueError → String) (config : RetryConfig) (worker : String) where
  settle-Touched :
      (fin : Finish) (row : Row) (t t' : Table) (s s' : Tables) (o : Outcome)
      → settle_row w describe config worker fin row t (s, o) ≡ (s', ok (t', true))
      → Touched config.max_retries row.id t t'
  unfolding settle_row
  settle-Touched fin row t t' s s' o h =
      finish-Touched w.dumps describe config worker fin row o t t'
        (table_of _ t' (ap (λ (p : Tables × Result WorkerError (Table × Bool)). p.1) h))

  keyed-Touched :
      (fin : Finish) (row : Row) (t t' : Table) (o : Option String)
      → keyed w describe config worker o fin row t ≡ ok t'
      → Touched config.max_retries row.id t t'
  unfolding keyed
  keyed-Touched fin row t t' (some digest) h =
      ensure_key-Touched w.dumps describe config worker digest fin.now row t t' (of_queue-ok _ t' h)
  keyed-Touched fin row t t' none h = elim (Bool-cases (truthy (get "idempotency_key" row.cells))) [
    | inl e ↦
        subst (Touched config.max_retries row.id t) (ok-injective t t' (rw e at h))
          (Touched-refl config.max_retries row.id t)
    | inr e ↦ absurd (cc (rw e at h))
  ]

  start_row-Touched :
      (fin : Finish) (row : Row) (t t' : Table) (c : Option ℕ)
      → start_row w describe config worker c fin row t ≡ ok t'
      → Touched config.max_retries row.id t t'
  unfolding start_row
  start_row-Touched fin row t t' none h = cc
  start_row-Touched fin row t t' (some n) h = keyed-Touched fin row t t' _ h

  after_key-Touched :
      (d : Draws) (fin : Finish) (row : Row) (t t' : Table) (s s' : Tables)
      (k : Result WorkerError Table)
      → start_row w describe config worker (int_or_zero (get "retry_count" row.cells)) fin row t ≡ k
      → after_key w describe config worker d fin row s k ≡ (s', ok (t', true))
      → Touched config.max_retries row.id t t'
  unfolding after_key
  after_key-Touched d fin row t t' s s' (err e) started h = cc
  after_key-Touched d fin row t t' s s' (ok t1) started h =
      Touched-trans _ (start_row-Touched fin row t t1 _ started) (
        settle-Touched fin row t1 t' (attempt_row w d row worker s).0 s'
          (attempt_row w d row worker s).1 h)

  claim-Touched :
      (seen now : ℕ) (t t' : Table) (row : Row)
      → WellFormed t
      → claim_row seen now worker t ≡ (t', some row)
      → Touched config.max_retries row.id t t'
        × (work config.max_retries t.rows
            ≡ suc (config.max_retries - retry_count_of row)
              + others config.max_retries row.id t.rows)
  unfolding claim_with
  claim-Touched seen now t t' row wf h =
      let (r, first, at, rows, next_id) = claim_row-IsFirst seen now worker t t' row h in
      let id : row.id ≡ r.id = ap (λ (x : Row). x.id) at in
      let counted : retry_count_of row ≡ retry_count_of r =
        ap retry_count_of at
        ∙ claimed-retry_count w.dumps describe config worker now (retry_count_of r) r refl in
      (
        Touched-change_row config.max_retries row.id (claim_with worker now) t t' (λ q. refl)
            (rows ∙ ap (λ i. change_row i (claim_with worker now) t.rows) (sym id)) next_id,
        rw (counted, id)
            (work-others config.max_retries r.id t.rows r wf.distinct
                (find_row_member t.rows r wf.distinct first.member)
              ∙ ap (λ k. k + others config.max_retries r.id t.rows)
                  (ready-tries seen config.max_retries r first.ready)),
      )

  pub process_once-Touched :
      (d : Draws) (seen now : ℕ) (fin : Finish) (s s' : Tables) (t t' : Table) (row : Row)
      → WellFormed t
      → (claim_row seen now worker t).1 ≡ some row
      → process_once w describe config worker d seen now fin s t ≡ (s', ok (t', true))
      → Touched config.max_retries row.id t t'
  unfolding process_once run_claimed
  process_once-Touched d seen now fin s s' t t' row wf h done =
      let t0 = (claim_row seen now worker t).0 in
      let here = claimed-pair (claim_row seen now worker t) h in
      Touched-trans config.max_retries (claim-Touched seen now t t0 row wf here).0
        (after_key-Touched d fin row t0 t' s s' _ refl (rw here at done))

  -- a call that claims a row leaves less work
  pub call-work :
      (d : Draws) (seen now : ℕ) (fin : Finish) (s : Tables) (t : Table) (row : Row)
      → WellFormed t
      → (claim_row seen now worker t).1 ≡ some row
      → IsReadable w row
      → (s' : Tables) × (t' : Table) × (process_once w describe config worker d seen now fin s t
          ≡ (s', ok (t', true)))
        × WellFormed t'
        × (work config.max_retries t'.rows < work config.max_retries t.rows)
  call-work d seen now fin s t row wf h readable =
      let max = config.max_retries in
      let t0 = (claim_row seen now worker t).0 in
      let here = claimed-pair (claim_row seen now worker t) h in
      let (_, before) = claim-Touched seen now t t0 row wf here in
      let (t', r, done, found, settled) =
        process_once_lem w describe config worker d fin seen now s t row wf h readable in
      let touched' = process_once-Touched d seen now fin s _ t t' row wf h done in
      let wf' = touched'.well wf in
      (
        _,
        t',
        done,
        wf',
        omega (
          arith,
          before,
          work-others max row.id t'.rows r wf'.distinct found,
          touched'.rest,
          tries-Settled config _ row r settled,
        ),
      )

  -- a call that finds no row ready
  pub call-idle :
      (d : Draws) (seen now : ℕ) (fin : Finish) (s : Tables) (t : Table)
      → (claim_row seen now worker t).1 ≡ none
      → (process_once w describe config worker d seen now fin s t ≡ (s, ok (t, false)))
        × All (λ r. is_ready seen r ≡ false) t.rows
  unfolding process_once run_claimed
  call-idle d seen now fin s t h =
      let here : claim_row seen now worker t ≡ ((claim_row seen now worker t).0, none) =
        ap (λ o. ((claim_row seen now worker t).0, o)) h in
      let (same, idle) = (claim_row-none seen now worker t _).0 here in (rw (here, same) refl, idle)

  -- a call that claims a row which cannot be read
  pub call-unreadable :
      (d : Draws) (seen now : ℕ) (fin : Finish) (s : Tables) (t : Table) (row : Row)
      (e : WorkerError)
      → (claim_row seen now worker t).1 ≡ some row
      → start_row w describe config worker
          (int_or_zero (get "retry_count" row.cells))
          fin
          row
          (claim_row seen now worker t).0
        ≡ err e
      → process_once w describe config worker d seen now fin s t ≡ (s, err e)
  unfolding process_once run_claimed after_key
  call-unreadable d seen now fin s t row e h stop =
      rw (claimed-pair (claim_row seen now worker t) h, run_claimed, stop) refl
