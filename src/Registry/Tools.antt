-- ===== src/Registry/Tools.antt =====
-- `run_tool` of tools/registry.py. Of a schema of parameters, the names of its members and the required
-- ones are kept; `validate` is jsonschema with that schema, `validate_result` with
-- evidence_bundle.schema.json, and `fn` the function of a tool.
use support_triage_llm.Base.{
  String, Option, none, some, List, [], ◌∷◌, str_eq, ◌||◌, if◌then◌else◌, Result, ok, err, ◌>>=◌,
}
use support_triage_llm.Base.Text.{concat}
use support_triage_llm.Values.{Value}
use support_triage_llm.Evidence.Replay.{ToolOutcome, returned, raised}

pub record Schema : Type 0 where
  pub properties : List String
  pub required : List String

unfoldable pub email_params : Schema
email_params = record {
  properties = "tenant" ∷ "start" ∷ "end" ∷ "recipient_domain" ∷ [];
  required = [];
}

unfoldable pub dns_params : Schema
dns_params = record { properties = "domain" ∷ []; required = "domain" ∷ [] }

unfoldable pub app_events_params : Schema
app_events_params = record {
  properties = "tenant" ∷ "start" ∷ "end" ∷ "workflow_id" ∷ [];
  required = [];
}

unfoldable pub integration_events_params : Schema
integration_events_params = record {
  properties = "tenant" ∷ "start" ∷ "end" ∷ "integration_name" ∷ [];
  required = [];
}

unfoldable pub file_params : Schema
file_params = record { properties = "file_path" ∷ "tenant" ∷ []; required = "file_path" ∷ [] }

unfoldable pub log_evidence_params : Schema
log_evidence_params = record {
  properties =
      "service" ∷ "query_type" ∷ "incident_window" ∷ "time_window" ∷ "tenant" ∷ "reason"
      ∷ "fixture_path" ∷ [];
  required = "time_window" ∷ "query_type" ∷ [];
}

unfoldable pub service_status_params : Schema
service_status_params = record {
  properties = "service_id" ∷ "tenant_id" ∷ "region" ∷ [];
  required = "service_id" ∷ [];
}

-- REGISTRY.get(name), of the schema of its parameters
unfoldable pub registered : String → Option Schema
unfolding email_params dns_params app_events_params integration_events_params file_params
    log_evidence_params service_status_params
registered name =
    if str_eq name "fetch_email_events_sample" || str_eq name "fetch_email_provider_events_sample"
    then some email_params
    else if str_eq name "dns_email_auth_check_sample"
    then some dns_params
    else if str_eq name "fetch_app_events_sample"
    then some app_events_params
    else if str_eq name "fetch_integration_events_sample"
    then some integration_events_params
    else if str_eq name "fetch_email_provider_events_file"
        || str_eq name "fetch_app_log_events_file"
    then some file_params
    else if str_eq name "log_evidence"
    then some log_evidence_params
    else if str_eq name "service_status"
    then some service_status_params
    else none

-- _validate, on the text of the error
unfoldable pub checked : Value → Option String → Result String Value
checked v none = ok v
checked v (some e) = err e

module _ (validate : Schema → Value → Option String) (validate_result : Value → Option String)
    (fn : String → Value → Result String Value) where
  unfoldable pub run_tool : String → Value → Result String Value
  unfolding registered checked
  run_tool name params = elim (registered name) [
    | none ↦ err (concat ("Tool not allowed: " ∷ name ∷ []))
    | some schema ↦
        checked params (validate schema params)
        >>= (λ p. fn name p >>= (λ result. checked result (validate_result result)))
  ]

  -- what the evidence runner makes of it, with its summary for the customer
  unfoldable pub outcome_of : (String → Value → String) → String → Value → ToolOutcome
  unfolding run_tool
  outcome_of summary name params = elim (run_tool name params) [
    | ok v ↦ returned v (summary name v)
    | err e ↦ raised e
  ]
