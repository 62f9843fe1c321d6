-- ===== src/Worker/Gather.antt =====
-- The evidence loop of `process_once` in tools/triage_worker.py: the selected tools, and the status of
-- the services, run through the evidence runner. `run n` is the registry's run_tool in the n-th run; of a bundle, what
-- the partition reads and the tool's result are kept. The n-th run has the id `uuid n` and the time
-- `clock n`.
use support_triage_llm.Base.{
  ℕ, suc, String, true, none, List, [], ◌∷◌, ◌++◌, str_eq, if◌then◌else◌, Result, ok, err,
}
use support_triage_llm.Base.Text.{begins_with, concat}
use support_triage_llm.Values.{Value, text, object, Members, no_members, named}
use support_triage_llm.Values.Objects.{set_member, default_member, pop_member}
use support_triage_llm.Queue.Schema.{member}
use support_triage_llm.Evidence.Runs.{EvidenceRun, Recorded, EvidenceError}
use support_triage_llm.Evidence.Replay.{ToolOutcome, ToolRun, with_metadata, run_tool_with_evidence}
use support_triage_llm.Worker.Select.{
  Tool, TriageResult, EvidenceBundle, allowed_tools, select_tools,
}

unfoldable pub members_of : List (String × String) → Members
members_of [] = no_members
members_of ((k, v) ∷ ps) = named k (text v) (members_of ps)

unfoldable pub window_value : Value → Value → Value
window_value start end = object (named "start" start (named "end" end no_members))

-- what the loop reads: the windows, the tenant, and the services and region of the resolved tenant
pub record Setting : Type 0 where
  pub intake_id : String
  pub query_start : Value
  pub query_end : Value
  pub customer_start : Value
  pub customer_end : Value
  pub tenant : Value
  pub log_service : Value
  pub tenant_id : Value
  pub region : Value
  pub service_ids : List String

-- the parameters with which a selected tool is run
unfoldable pub complete_params : Setting → Tool → Value
unfolding members_of set_member default_member pop_member window_value begins_with
complete_params s tool =
    let params = members_of tool.params in
    if str_eq tool.name "log_evidence"
    then object (
        pop_member "end" (
          pop_member "start" (
            set_member "reason" (text "customer_reported_outage") (
              set_member "incident_window" (window_value s.customer_start s.customer_end) (
                default_member "service" s.log_service (
                  default_member "tenant" s.tenant
                    (set_member "time_window" (window_value s.query_start s.query_end) params)))))))
    else if begins_with "fetch_" tool.name
    then object (default_member "end" s.query_end (default_member "start" s.query_start params))
    else object params

unfoldable pub service_params : Setting → String → Value
service_params s service_id = object (
    named "service_id" (text service_id)
      (named "tenant_id" s.tenant_id (named "region" s.region no_members)))

-- of a reference, the id and the tool
pub record EvidenceRef : Type 0 where
  pub evidence_id : String
  pub tool : String

pub record Gathered : Type 0 where
  pub runs : List EvidenceRun
  pub bundles : List (EvidenceBundle × Value)
  pub sources_run : List String
  pub refs : List EvidenceRef
  pub started : ℕ

unfoldable pub ref_of : String → Recorded → List EvidenceRef
ref_of tool r =
    if str_eq r.run.evidence_id ""
    then []
    else record { evidence_id = r.run.evidence_id; tool = tool } ∷ []

-- after the run has been recorded, or not
unfoldable pub note_run :
    (EvidenceError → String)
    → String
    → ToolOutcome
    → Gathered
    → Result EvidenceError (Recorded × List EvidenceRun)
    → Gathered
unfolding ref_of with_metadata
note_run describe tool outcome g (err e) = record g {
  sources_run = g.sources_run ++ (concat (tool ∷ ":error:" ∷ describe e ∷ []) ∷ []);
  started = suc g.started;
}
note_run describe tool outcome g (ok (r, runs)) = record {
  runs = runs;
  bundles = g.bundles ++ ((record { tool_name = tool; source = "" }, with_metadata r outcome) ∷ []);
  sources_run = g.sources_run ++ (tool ∷ []);
  refs = g.refs ++ ref_of tool r;
  started = suc g.started;
}

-- the arguments of `run_tool_with_evidence`, with its defaults
unfoldable pub tool_run : Setting → String → Value → ToolRun
tool_run s tool params = record {
  intake_id = s.intake_id;
  tool_name = tool;
  params = params;
  redaction_level = "internal";
  replays = none;
  allow_cache = true;
}

unfoldable pub no_evidence : List EvidenceRun → Gathered
no_evidence runs = record { runs = runs; bundles = []; sources_run = []; refs = []; started = 0 }

module _ (canonical_json : Value → String) (sha256 : String → String) (ttl_days : ℕ)
    (loads : String → Value) (describe : EvidenceError → String)
    (run : ℕ → String → Value → ToolOutcome) (uuid : ℕ → String) (clock : ℕ → ℕ) (s : Setting) where
  unfoldable pub gather_one : String → Value → Gathered → Gathered
  unfolding note_run run_tool_with_evidence tool_run
  gather_one tool params g = note_run describe tool (run g.started tool params) g (
      run_tool_with_evidence canonical_json sha256 ttl_days loads (uuid g.started) (clock g.started)
        (tool_run s tool params) (run g.started tool params) g.runs)

  unfoldable pub gather_tools : List Tool → Gathered → Gathered
  unfolding gather_one complete_params
  gather_tools [] g = g
  gather_tools (tool ∷ tools) g =
      gather_tools tools (gather_one tool.name (complete_params s tool) g)

  unfoldable pub gather_services : List String → Gathered → Gathered
  unfolding gather_one service_params
  gather_services [] g = g
  gather_services (id ∷ ids) g =
      gather_services ids (gather_one "service_status" (service_params s id) g)

  -- the whole loop, over the table of evidence runs
  unfoldable pub gather : List String → TriageResult → List EvidenceRun → Gathered
  unfolding gather_tools gather_services no_evidence member
  gather registry t runs =
      let tools = gather_tools (select_tools registry t) (no_evidence runs) in
      if member "service_status" (allowed_tools t)
      then gather_services s.service_ids tools
      else tools
