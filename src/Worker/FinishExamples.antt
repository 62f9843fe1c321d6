-- ===== src/Worker/FinishExamples.antt =====
-- The end of an attempt, on an outcome and findings written out.
use support_triage_llm.Base.{String, ◌≡◌, refl, false, none, some, List, [], ◌∷◌, ok}
use support_triage_llm.Base.Text.{lower}
use support_triage_llm.Values.{Value, null, text, get}
use support_triage_llm.Queue.Rows.{Row, Table, find_row}
use support_triage_llm.Triage.Finish as Finished
use support_triage_llm.Report.Generate.{FinalReport, generated}
use support_triage_llm.Worker.Retry.{triaged, finish}
use support_triage_llm.Worker.Select.{EvidenceBundle}
use support_triage_llm.Worker.Case.{Findings}
use support_triage_llm.Worker.FinishLaws.{finish-triaged}
use support_triage_llm.Worker.ColumnLaws.{columns}
use support_triage_llm.Worker.Gather.{Gathered}
use support_triage_llm.Worker.ExampleWorld.{
  log_result, world, draws, describe, config, fin, claimed, asked_frame, window,
}

abbrev outcome : Finished.Outcome
outcome = record {
  payload = record {
    case_type = some "incident";
    severity = none;
    time_window = none;
    reported_time_window = none;
    time_ambiguity = none;
    scope = none;
    symptoms = none;
    examples = none;
    missing_info_questions = none;
    suggested_tools = none;
    draft_customer_reply = none;
    time_window_reason = none;
  };
  meta = record {
    triage_mode = "llm";
    llm_attempts = 1;
    redaction_applied = false;
    redacted_text = "";
    case_id = "";
    time_window_source = "llm";
    time_window_sanity_overridden = false;
    time_window_reason = "";
  };
}

abbrev bundles : List (EvidenceBundle × Value)
bundles =
    (record { tool_name = "log_evidence"; source = "" }, log_result)
    ∷ (record { tool_name = "notes"; source = "" }, null)
    ∷ []

abbrev gathered : Gathered
gathered = record { runs = []; bundles = bundles; sources_run = []; refs = []; started = 2 }

abbrev found_with : String → Findings
found_with subject = record {
  frame = asked_frame;
  customer = window;
  gathered = gathered;
  partition = record { relevant = []; other = bundles };
  guarded = record { draft = record { subject = subject; body = "Hello" }; warnings = [] };
  draft = record { subject = subject; body = "Hello" };
}

abbrev reported : FinalReport
reported =
    generated null
      (record { report_mode = "llm"; claim_warnings = []; llm_attempts = 1; case_id = "" })

abbrev held : Table
held = record { rows = claimed ∷ []; next_id = 2 }

finish-triaged_example :
    (t' : Table) × (r' : Row) × (finish world.dumps describe config "w1" fin claimed
        (triaged (columns world draws claimed "w1" outcome (found_with "Hi") reported))
        held
      ≡ ok t')
    × (find_row 1 t'.rows ≡ some r')
    × (r'.status ≡ "triaged")
    × (get "triage_draft_subject" r'.cells ≡ text "Hi")
    × (get "triage_draft_body" r'.cells ≡ text "Hello")
unfolding find_row lower
finish-triaged_example =
    finish-triaged world draws claimed "w1" outcome (found_with "Hi") reported describe config fin
      held claimed refl refl (λ h. cc h) (λ h. cc h)
