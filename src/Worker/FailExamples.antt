-- ===== src/Worker/FailExamples.antt =====
-- A message whose triage fails: the language model cannot be reached.
use support_triage_llm.Base.{true, [], ◌∷◌, err}
use support_triage_llm.Values.{text, num, time, null}
use support_triage_llm.Queue.Rows.{Table}
use support_triage_llm.Queue.WellFormed.{WellFormed}
use support_triage_llm.Queue.Ops.{claim_row, claim_row}
use support_triage_llm.Triage.Extract.{fatal}
use support_triage_llm.Worker.World.{World}
use support_triage_llm.Worker.ExampleWorld.{world}

abbrev cut_off : World
cut_off = record world { triage_is_llm = true; triage_call = λ n prompt. err (fatal "no model") }

-- the table after the call
abbrev waiting : Table
waiting = record {
  rows =
      record {
        id = 1;
        status = "queued";
        cells =
            ("end_user_handle", text "acme")
            ∷ ("payload", text "The site is down")
            ∷ ("case_id", text "c1")
            ∷ ("created_at", time 5)
            ∷ ("processor_id", text "")
            ∷ ("started_at", null)
            ∷ ("idempotency_key", text "digest")
            ∷ ("finished_at", null)
            ∷ ("latency_seconds", num 2)
            ∷ ("retry_count", num 1)
            ∷ ("available_at", time 1707523204)
            ∷ ("response_metadata", text "{}")
            ∷ [];
      }
      ∷ [];
  next_id = 2;
}
