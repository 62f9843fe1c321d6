-- ===== src/Registry/Examples.antt =====
-- Runs of two tools, with a validator that asks for the required members alone.
use mathlib.Core.List.{Memᴰ}
use support_triage_llm.Queue.Schema.{member}
use support_triage_llm.Base.{
  String, ◌≡◌, refl, ◌≢◌, Bool, true, false, not, Option, none, some, List, [], ◌∷◌, any, Result,
  ok, arith,
}
use support_triage_llm.Values.{
  Value, object, null, text, flag, time, num, array, Members, no_members, named,
}
use support_triage_llm.Worker.Select.{Tool, TriageResult, select_tools}
use support_triage_llm.Values.Objects.{has_member}
use support_triage_llm.Worker.Gather.{Setting, complete_params}
use support_triage_llm.Registry.Tools.{Schema, run_tool}
use support_triage_llm.Registry.Incident.{select_tools-incident}

lacks : Members → List String → Bool
lacks ms ks = any (λ k. not (has_member k ms)) ks

abbrev refusal : Bool → Option String
refusal true = some "a required property is missing"
refusal false = none

validate : Schema → Value → Option String
unfolding lacks
validate schema (object ms) = refusal (lacks ms schema.required)
validate schema null = some "not of type object"
validate schema (flag b) = some "not of type object"
validate schema (time n) = some "not of type object"
validate schema (num n) = some "not of type object"
validate schema (text s) = some "not of type object"
validate schema (array vs) = some "not of type object"

lacks-one :
    (ms : Members) (ks : List String) (k : String)
    → Memᴰ k ks
    → has_member k ms ≡ false
    → lacks ms ks ≡ true
unfolding lacks
lacks-one ms [] k m h = elim m [ ]
lacks-one ms (j ∷ ks) k (Memᴰ.head p) h = rw (← p, h) refl
lacks-one ms (j ∷ ks) k (Memᴰ.tail m) h = ground (arith, lacks-one ms ks k m h)

strict :
    (schema : Schema) (ms : Members) (k : String)
    → Memᴰ k schema.required
    → has_member k ms ≡ false
    → validate schema (object ms) ≢ none
unfolding validate
strict schema ms k m h e = cc (rw (lacks-one ms schema.required k m h) at e)

abbrev dns_checks : String → Value → Result String Value
dns_checks name params = ok (object no_members)

abbrev domain : Value
domain = object (named "domain" (text "b.com") no_members)

abbrev incident : TriageResult
incident = record {
  case_type = "incident";
  symptoms = "slow" ∷ [];
  recipient_domains = [];
  draft_body = "";
}

abbrev setting : Setting
setting = record {
  intake_id = "i1";
  query_start = text "10:00";
  query_end = text "12:00";
  customer_start = null;
  customer_end = null;
  tenant = text "acme";
  log_service = text "api";
  tenant_id = null;
  region = null;
  service_ids = "api" ∷ [];
}

select_tools-incident_example :
    (tool : Tool) × Memᴰ tool (select_tools ("service_status" ∷ []) incident)
    × (tool.name ≡ "service_status")
    × ((result : Value)
        → run_tool validate (λ v. none) dns_checks tool.name (complete_params setting tool)
          ≢ ok result)
unfolding member
select_tools-incident_example =
    select_tools-incident validate (λ v. none) dns_checks ("service_status" ∷ []) incident setting
      strict refl refl
