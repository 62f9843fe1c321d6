-- ===== src/Worker/World.antt =====
-- What an attempt of `process_once` in tools/triage_worker.py reads from outside, and the tables that it writes.
use support_triage_llm.Base.{ℕ, String, Bool, Option, List, Result}
use support_triage_llm.Values.{Value}
use support_triage_llm.Evidence.Runs.{EvidenceRun, EvidenceError}
use support_triage_llm.Evidence.Replay.{ToolOutcome}
use support_triage_llm.Intake.Tenants.{Tenant}
use support_triage_llm.Intake.Intakes.{Intake}
use support_triage_llm.Intake.Handoffs.{HandoffPack}
use support_triage_llm.Triage.Extract.{Failure}
use support_triage_llm.Triage.Model.{Libraries, Subject}
use support_triage_llm.Report.Template.{Bundle}
use support_triage_llm.Report.Generate as Generate
use support_triage_llm.Worker.Reading.{Matches}

-- The libraries, the services and the configuration: `dumps` is `json.dumps`, `loads` and `loads_params`
-- `json.loads`, `iso` and `parse_iso` write and read instants in seconds, `matches` the regular
-- expressions of `_extract_request_ids`, `subject_of` the redaction and the regular expressions of the
-- triage, on a text and a tenant, `redacts` whether the redaction changes a text, `run_tool` the n-th run
-- of a tool, `llm_model` the model's name, `truth_text` the knowledge base in lower case.
pub record World : Type 0 where
  pub dumps : Value → String
  pub sha256 : String → String
  pub loads : String → Option Value
  pub loads_params : String → Value
  pub iso : ℕ → String
  pub parse_iso : String → Option ℕ
  pub matches : String → Matches
  pub describe : EvidenceError → String
  pub evidence_ttl_days : ℕ
  pub handoff_ttl_days : ℕ
  pub tenants : List Tenant
  pub libraries : Libraries
  pub subject_of : String → String → Subject
  pub redacts : String → Bool
  pub triage_is_llm : Bool
  pub triage_call : ℕ → String → Result Failure String
  pub triage_prompt : String
  pub llm_model : String
  pub registry : List String
  pub run_tool : ℕ → String → Value → ToolOutcome
  pub truth_text : String
  pub reporting : Generate.Outside
  pub report_is_llm : Bool
  pub report_call : ℕ → String → Result Failure String
  pub report_prompt : List Bundle → String

-- the ids that an attempt draws, and its readings of the clock: in seconds, and of the runs in
-- microseconds
pub record Draws : Type 0 where
  pub intake_id : String
  pub handoff_id : String
  pub conversation_id : String
  pub run_id : ℕ → String
  pub run_clock : ℕ → ℕ
  pub now : ℕ
  pub elapsed : ℕ
  pub llm_latency_ms : ℕ

-- the tables besides the queue that an attempt writes
pub record Tables : Type 0 where
  pub intakes : List Intake
  pub runs : List EvidenceRun
  pub packs : List HandoffPack
