-- ===== src/Worker/ExampleWorld.antt =====
-- Toy libraries, a tenant, and a message whose chat handle is the tenant's name.
use support_triage_llm.Base.{◌+◌, ◌*◌, ◌==◌, String, false, none, some, [], ◌∷◌, ok, if◌then◌else◌}
use support_triage_llm.Values.{Value, null, time, text, object, no_members, named}
use support_triage_llm.Queue.Rows.{Row, Table}
use support_triage_llm.Queue.Ops.{QueueError}
use support_triage_llm.Evidence.Replay.{returned}
use support_triage_llm.Intake.Tenants.{Tenant}
use support_triage_llm.Triage.Time.{Seen, Calendar}
use support_triage_llm.Worker.Retry.{RetryConfig, Finish}
use support_triage_llm.Worker.World.{World, Draws, Tables}
use support_triage_llm.Worker.Attempt.{CustomerWindow}
use support_triage_llm.Worker.TimeFrame.{TimeFrame}

abbrev pub calendar : Calendar
calendar = record {
  date_number = λ y m d. some (d + 100);
  isoformat = λ t. "2024-02-10T00:00:00Z";
  fromisoformat = λ s. none;
  year_of = λ t. 2024;
}

abbrev pub seen : Seen
seen = record {
  found = record {
    iso = none;
    clock = none;
    clock_range = none;
    date_only = none;
    month_day = none;
  };
  iso = none;
  time_range = none;
  clock = none;
  has_explicit_date = false;
  domains = [];
  has_email = false;
}

abbrev pub acme : Tenant
acme = record {
  tenant_id = "acme";
  domains = "acme.com" ∷ [];
  entitled_services = "mail" ∷ [];
  default_region = none;
}

abbrev pub log_result : Value
log_result = object (
    named "evidence_type" (text "logs")
      (named "metadata" (object (named "query_type" (text "errors") no_members)) no_members))

abbrev pub world : World
world = record {
  dumps = λ v. "{}";
  sha256 = λ s. "digest";
  loads = λ s. none;
  loads_params = λ s. null;
  iso = λ t. "2024-02-10T00:00:00Z";
  parse_iso = λ s. some 1707523200;
  matches = λ s. record { request_ids = []; uuids = []; errors = "ERR-77" ∷ [] };
  describe = λ e. "constraint failed";
  evidence_ttl_days = 90;
  handoff_ttl_days = 30;
  tenants = acme ∷ [];
  libraries = record {
    loads = λ s. none;
    decode_error = λ s. "Expecting value";
    check = λ p. none;
    calendar = calendar;
    repr = λ s. s;
    error_text = λ e. "day is out of range for month";
  };
  subject_of = λ s tenant. record {
    text = s;
    hint = tenant;
    now = record { year = 2024; month = 2; day_number = 110 };
    seen = seen;
  };
  redacts = λ s. false;
  triage_is_llm = false;
  triage_call = λ n prompt. ok "";
  triage_prompt = "";
  llm_model = "ollama";
  registry = "log_evidence" ∷ "service_status" ∷ [];
  run_tool = λ n tool params. returned log_result "nothing seen";
  truth_text = "";
  reporting = record {
    dumps_report = λ r. "";
    dumps_answer = λ v. "";
    dumps_bundles = λ bundles. "";
    loads = λ s. none;
    decode_error = λ s. "Expecting value";
    check_report = λ r. none;
    check_answer = λ v. none;
  };
  report_is_llm = false;
  report_call = λ n prompt. ok "";
  report_prompt = λ bundles. "";
}

abbrev pub draws : Draws
draws = record {
  intake_id = "i1";
  handoff_id = "h1";
  conversation_id = "v1";
  run_id = λ n. if n == 0 then "e1" else if n == 1 then "e2" else "e3";
  run_clock = λ n. 60000000 * n;
  now = 1707523200;
  elapsed = 2;
  llm_latency_ms = 0;
}

-- A message from a chat handle that is the tenant's name.
abbrev pub message : Row
message = record {
  id = 1;
  status = "queued";
  cells =
      ("end_user_handle", text "acme")
      ∷ ("payload", text "The site is down")
      ∷ ("case_id", text "c1")
      ∷ ("created_at", time 5)
      ∷ [];
}

abbrev pub table : Table
table = record { rows = message ∷ []; next_id = 2 }

abbrev pub empty : Tables
empty = record { intakes = []; runs = []; packs = [] }

abbrev pub describe : QueueError → String
describe e = "update refused"

abbrev pub config : RetryConfig
config = record { max_retries = 3; retry_base_seconds = 2; retry_max_seconds = 60 }

abbrev pub fin : Finish
fin = record { elapsed = 2; finished_at = 1707523201; now = 1707523202 }

-- the message as a worker has claimed it
abbrev pub claimed : Row
claimed = record {
  id = 1;
  status = "processing";
  cells =
      ("end_user_handle", text "acme")
      ∷ ("payload", text "The site is down")
      ∷ ("case_id", text "c1")
      ∷ ("created_at", time 5)
      ∷ ("processor_id", text "w1")
      ∷ ("started_at", time 10)
      ∷ [];
}

abbrev pub asked_frame : TimeFrame
asked_frame = record {
  start = "a";
  end = "b";
  reason = "parsed_none";
  source = "triage";
  anchor = "";
}

abbrev pub window : CustomerWindow
window = record { start = ""; end = ""; confidence = none; reason = "none"; anchor = "" }
