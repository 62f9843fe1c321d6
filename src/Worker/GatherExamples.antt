-- ===== src/Worker/GatherExamples.antt =====
-- The evidence loop on an incident whose service status cannot be run as selected.
use support_triage_llm.Base.{ℕ, ◌==◌, String, ◌≡◌, refl, [], ◌∷◌, str_eq, if◌then◌else◌}
use support_triage_llm.Values.{Value, null, text, object, no_members}
use support_triage_llm.Evidence.Runs.{
  EvidenceRun, EvidenceError, new_run, latest, same_bucket, same_key,
}
use support_triage_llm.Evidence.Replay.{ToolOutcome, returned, raised, request_of}
use support_triage_llm.Worker.Select.{
  TriageResult, select_tools, allowed_tools, dedupe, log_tool, may_run, should_run_log_tool,
  tool_map,
}
use support_triage_llm.Worker.Gather.{Setting, Gathered, tool_run, gather_one, gather, no_evidence}

abbrev dumps : Value → String
dumps v = "{}"

abbrev digest : String → String
digest s = s

abbrev loads : String → Value
loads s = text s

abbrev describe : EvidenceError → String
describe e = "constraint failed"

abbrev run : ℕ → String → Value → ToolOutcome
run n tool params =
    if str_eq tool "service_status"
    then raised "'service_id' is a required property"
    else returned (object no_members) ""

abbrev uuid : ℕ → String
uuid n = if n == 0 then "e1" else if n == 1 then "e2" else "e3"

abbrev clock : ℕ → ℕ
clock n = 7

abbrev setting : Setting
setting = record {
  intake_id = "i1";
  query_start = text "10:00";
  query_end = text "12:00";
  customer_start = null;
  customer_end = null;
  tenant = text "acme";
  log_service = text "api";
  tenant_id = null;
  region = null;
  service_ids = "api" ∷ [];
}

abbrev incident : TriageResult
incident = record {
  case_type = "incident";
  symptoms = "slow" ∷ [];
  recipient_domains = [];
  draft_body = "";
}

abbrev gathered : Gathered
gathered =
    gather dumps digest 90 loads describe run uuid clock setting ("service_status" ∷ []) incident []

sources_test : gathered.sources_run ≡ "service_status" ∷ "log_evidence" ∷ "service_status" ∷ []
unfolding gather allowed_tools select_tools dedupe tool_map may_run log_tool should_run_log_tool
    same_key same_bucket latest
sources_test = refl

abbrev failed : EvidenceRun
failed = new_run dumps digest 90 "e1" 7 (
    request_of (tool_run setting "service_status" (object no_members))
      (raised "'service_id' is a required property"))

abbrev after : Gathered
after =
    gather_one dumps digest 90 loads describe run uuid clock setting "service_status"
      (object no_members) (no_evidence [])
