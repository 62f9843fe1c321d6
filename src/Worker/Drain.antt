-- ===== src/Worker/Drain.antt =====
-- `main` of tools/triage_worker.py without --watch: calls of `process_once` until one claims nothing.
use support_triage_llm.Base.{
  ℕ, suc, zero, String, Bool, true, false, Option, none, some, Result, ok, err,
}
use support_triage_llm.Queue.Rows.{Table}
use support_triage_llm.Queue.Ops.{QueueError}
use support_triage_llm.Worker.Retry.{RetryConfig, Finish}
use support_triage_llm.Worker.World.{World, Draws, Tables}
use support_triage_llm.Worker.Process.{WorkerError, process_once}

-- what one call finds: the tools, the model and the rest of the world, the clock and the random ids
pub record Round : Type 0 where
  pub world : World
  pub draws : Draws
  pub seen : ℕ
  pub now : ℕ
  pub fin : Finish

-- `none` where the fuel was not enough; an exception ends the program
abbrev pub Stopped : Type 0
Stopped = Result WorkerError (Option (Tables × Table × ℕ))

-- after a call: break, or go on
unfoldable pub after_call :
    ℕ → Tables × Result WorkerError (Table × Bool) → (Tables → Table → Stopped) → Stopped
after_call n (s, err e) go_on = err e
after_call n (s, ok (t, false)) go_on = ok (some (s, t, n))
after_call n (s, ok (t, true)) go_on = go_on s t

module _ (describe : QueueError → String) (config : RetryConfig) (processor_id : String)
    (round : ℕ → Round) where
  -- call `n` and those after it; the tables at the end and the number of the call that claimed nothing
  unfoldable pub main_loop : ℕ → ℕ → Tables → Table → Stopped
  unfolding after_call process_once
  main_loop zero n s t = ok none
  main_loop (suc fuel) n s t =
      after_call n
        (process_once (round n).world describe config processor_id (round n).draws (round n).seen
          (round n).now (round n).fin s t)
        (main_loop fuel (suc n))
