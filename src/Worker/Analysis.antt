-- ===== src/Worker/Analysis.antt =====
-- How `process_once` of tools/triage_worker.py takes the result of `triage`: what follows a triage is
-- `rest`, and its exceptions go to the two handlers.
use support_triage_llm.Base.{Result, ok, err}
use support_triage_llm.Triage.Extract.{TriageError, rejected, crashed}
use support_triage_llm.Triage.Finish as Finished
use support_triage_llm.Worker.Retry.{Outcome, schema_error, failure}

unfoldable pub after_triage :
    (Finished.Outcome → Outcome) → Result TriageError Finished.Outcome → Outcome
after_triage rest (ok o) = rest o
after_triage rest (err (rejected e)) = schema_error e
after_triage rest (err (crashed e)) = failure e
