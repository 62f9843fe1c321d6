-- ===== src/Worker/DrainLaws.antt =====
-- That the loop of `main` in tools/triage_worker.py comes to its end without --watch, and how.
use support_triage_llm.Base.{
  ℕ, zero, suc, ◌+◌, ◌≤◌, ◌<◌, String, ◌≡◌, refl, false, some, ok, err, inl, inr, arith, All,
  Option-cases, ◌⊎◌,
}
use support_triage_llm.Queue.Rows.{Table, is_ready}
use support_triage_llm.Queue.WellFormed.{WellFormed}
use support_triage_llm.Queue.Ops.{QueueError, claim_row}
use support_triage_llm.Worker.Retry.{RetryConfig}
use support_triage_llm.Worker.World.{Tables}
use support_triage_llm.Worker.Process.{WorkerError, not_a_number, no_creation_time}
use support_triage_llm.Worker.ProcessLaws.{start_row-cases}
use support_triage_llm.Worker.Work.{work}
use support_triage_llm.Worker.Drain.{Round, after_call, main_loop}
use support_triage_llm.Worker.CallLaws.{call-work, call-idle, call-unreadable}

module _ (describe : QueueError → String) (config : RetryConfig) (worker : String) where
  -- The loop without --watch comes to its end, whatever the clock, the tools and the model answer, where
  -- nothing else writes to the queue and the row ids are distinct and below the counter, on more fuel
  -- than the queued rows have tries left (each has one, and one more for each retry that `max_retries`
  -- leaves it). Either it ends at a call at which no row is ready, and the calls before it are at most
  -- as many as those tries; or a claimed row whose retry count is no number, or which has neither an
  -- idempotency key nor a creation time, ends the worker with an exception. No other exception does.
  pub main_loop_lem :
      (round : ℕ → Round) (fuel n : ℕ) (s : Tables) (t : Table)
      → WellFormed t
      → work config.max_retries t.rows < fuel
      → ((s' : Tables) × (t' : Table) × (k : ℕ) × (main_loop describe config worker round fuel n s t
            ≡ ok (some (s', t', k)))
          × (k ≤ n + work config.max_retries t.rows)
          × All (λ r. is_ready (round k).seen r ≡ false) t'.rows)
        ⊎ ((e : WorkerError) × (main_loop describe config worker round fuel n s t ≡ err e)
            × ((e ≡ not_a_number) ⊎ (e ≡ no_creation_time)))
  unfolding main_loop after_call
  main_loop_lem round zero n s t wf enough = absurd (omega (arith, enough))
  main_loop_lem round (suc fuel) n s t wf enough =
      let o = round n in
      elim (Option-cases (claim_row o.seen o.now worker t).1) [
        | inl e ↦
            let (done, idle) =
              call-idle o.world describe config worker o.draws o.seen o.now o.fin s t e in
            inl (s, t, n, rw done refl, omega arith, idle)
        | inr (row, e) ↦
            elim (start_row-cases o.world describe config worker o.fin row
              (claim_row o.seen o.now worker t).0) [
                | inr (x, stop, which) ↦
                    let done =
                      call-unreadable o.world describe config worker o.draws o.seen o.now o.fin s t
                        row x e stop in
                    inr (x, rw done refl, which)
                | inl readable ↦
                    let (s1, t1, done, wf1, less) =
                      call-work o.world describe config worker o.draws o.seen o.now o.fin s t row wf
                        e readable in
                    elim (main_loop_lem round fuel (suc n) s1 t1 wf1
                      (omega (arith, less, enough))) [
                        | inl (s', t', k, ended, bound, idle) ↦
                            inl (s', t', k, rw done ended, omega (arith, bound, less), idle)
                        | inr (x, stop, which) ↦ inr (x, rw done stop, which)
                      ]
              ]
      ]
