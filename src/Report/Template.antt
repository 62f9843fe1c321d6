-- ===== src/Report/Template.antt =====
-- The parts of the template report of app/report_service.py. A field that a JSON object lacks is the
-- empty text where the code takes it as "", and none where the code tells the two apart. Confidence is
-- in hundredths.
use support_triage_llm.Base.{
  ℕ, String, Bool, true, false, not, ◌||◌, Option, none, some, List, [], ◌∷◌, ◌++◌, map, any, take,
  str_eq, if◌then◌else◌,
}
use support_triage_llm.Base.Text.{lower, begins_with, concat, join, strip, contains}

pub record Event : Type 0 where
  pub id : String
  pub ts : String
  pub event_type : String
  pub detail : String

-- `bounced` is that member of `summary_counts`, where it has it.
pub record Bundle : Type 0 where
  pub tool_name : String
  pub source : Option String
  pub events : List Event
  pub bounced : Option ℕ

pub record Classification : Type 0 where
  pub failure_stage : String
  pub confidence : ℕ
  pub top_reasons : List String

pub record CustomerUpdate : Type 0 where
  pub subject : String
  pub body : String
  pub requested_info : List String

pub record Escalation : Type 0 where
  pub title : String
  pub body : String
  pub evidence_refs : List String
  pub severity : String
  pub repro_steps : List String

pub record Report : Type 0 where
  pub classification : Classification
  pub timeline_summary : String
  pub customer_update : CustomerUpdate
  pub engineering_escalation : Escalation
  pub kb_suggestions : List String

-- what the report reads of the triage: the case type and the customer's window
pub record Facts : Type 0 where
  pub case_type : String
  pub start : String
  pub end : String
  pub case_id : String

unfoldable pub allowed_tools_for_case : String → List String
allowed_tools_for_case case_type =
    if str_eq case_type "incident"
    then "log_evidence" ∷ "service_status" ∷ "logs" ∷ "app_events" ∷ []
    else if str_eq case_type "email_delivery"
    then "fetch_email_events_sample" ∷ "dns_email_auth_check_sample" ∷ "email_events"
      ∷ "log_evidence" ∷ []
    else []

-- the reference of an event, if it has one
unfoldable pub event_ref : Event → List String
event_ref e =
    if not (str_eq e.id "") then e.id ∷ [] else if not (str_eq e.ts "") then e.ts ∷ [] else []

unfoldable pub event_refs : List Event → List String
unfolding event_ref
event_refs [] = []
event_refs (e ∷ es) = event_ref e ++ event_refs es

unfoldable pub evidence_refs : List Bundle → List String
unfolding event_refs
evidence_refs [] = []
evidence_refs (b ∷ bs) = event_refs b.events ++ evidence_refs bs

unfoldable pub is_bounce : Event → Bool
unfolding lower begins_with
is_bounce e = begins_with "bounce" (lower e.event_type)

unfoldable pub has_events : Bundle → Bool
has_events b = elim b.events [ [] ↦ false | e ∷ es ↦ true ]

unfoldable pub classify : List Bundle → Classification
unfolding is_bounce has_events
classify bundles =
    if any (λ b. any is_bounce b.events) bundles
    then record {
      failure_stage = "recipient";
      confidence = 60;
      top_reasons = "Recipient rejected or not found" ∷ [];
    }
    else if not (any has_events bundles)
    then record {
      failure_stage = "unknown";
      confidence = 20;
      top_reasons = "No events observed" ∷ [];
    }
    else record {
      failure_stage = "provider";
      confidence = 40;
      top_reasons = "Provider issues suspected" ∷ [];
    }

unfoldable pub source_or_unknown : Option String → String
source_or_unknown none = "unknown"
source_or_unknown (some s) = s

unfoldable pub timeline_line : String → Event → String
timeline_line source e = concat (e.ts ∷ " [" ∷ source ∷ "] (" ∷ e.id ∷ ") " ∷ e.detail ∷ [])

unfoldable pub timeline_lines : List Bundle → List String
unfolding timeline_line source_or_unknown
timeline_lines [] = []
timeline_lines (b ∷ bs) =
    map (timeline_line (source_or_unknown b.source)) b.events ++ timeline_lines bs

unfoldable pub timeline : List Bundle → String
unfolding timeline_lines join
timeline bundles = elim (timeline_lines bundles) [
  | [] ↦ "No events found in evidence."
  | line ∷ lines ↦ join "\n" (line ∷ lines)
]

-- the first line of the customer update
unfoldable pub stage_line : String → String
stage_line stage =
    if str_eq stage "recipient"
    then "We observed recipient-side bounces in the provided timeframe."
    else if str_eq stage "provider"
    then "We observed provider-side anomalies and are investigating."
    else "We did not find clear failure signals in the evidence."

unfoldable pub refs_line : List String → List String
unfolding join
refs_line [] = []
refs_line (r ∷ refs) = concat ("Evidence references: " ∷ join ", " (take 5 (r ∷ refs)) ∷ []) ∷ []

unfoldable pub customer_update : Classification → List Bundle → CustomerUpdate
unfolding stage_line refs_line evidence_refs join
customer_update c bundles = record {
  subject = "Update on your report";
  body = join "\n" (
      stage_line c.failure_stage
      ∷ (refs_line (evidence_refs bundles)
          ++ ("Next steps: we will continue monitoring and share updates." ∷ [])));
  requested_info = "Additional examples with timestamps" ∷ "Any recent configuration changes" ∷ [];
}

unfoldable pub engineering_escalation : Classification → List Bundle → Escalation
unfolding evidence_refs timeline
engineering_escalation c bundles = record {
  title = concat ("Support triage escalation (" ∷ c.failure_stage ∷ ")" ∷ []);
  body = timeline bundles;
  evidence_refs = evidence_refs bundles;
  severity = "S2";
  repro_steps =
      "Review evidence timeline" ∷ "Attempt send to affected recipient if applicable" ∷ [];
}

unfoldable pub kb_suggestions : String → List String
kb_suggestions case_type =
    if str_eq case_type "email_delivery"
    then "Email delivery troubleshooting" ∷ []
    else if str_eq case_type "integration"
    then "Integration/webhook troubleshooting" ∷ []
    else if str_eq case_type "auth_access"
    then "Login/MFA troubleshooting" ∷ []
    else if str_eq case_type "ui_bug"
    then "UI issue reporting checklist" ∷ []
    else "How to report an issue" ∷ []

-- the sentence on the window that the customer claims
unfoldable pub claimed_window : Facts → String
claimed_window f =
    if str_eq f.start ""
    then ""
    else if str_eq f.end ""
    then concat ("Customer reports issues since " ∷ f.start ∷ " (UTC)." ∷ [])
    else concat ("Customer reports issues between " ∷ f.start ∷ " and " ∷ f.end ∷ " (UTC)." ∷ [])

unfoldable pub prepend_claim : String → CustomerUpdate → CustomerUpdate
unfolding strip contains
prepend_claim claimed u =
    if str_eq claimed "" || contains claimed u.body
    then u
    else record u { body = strip (concat (claimed ∷ "\n" ∷ u.body ∷ [])) }

-- the report before it is checked
unfoldable pub compose : Facts → List Bundle → Report
unfolding classify timeline customer_update engineering_escalation kb_suggestions claimed_window
    prepend_claim
compose f bundles = record {
  classification = classify bundles;
  timeline_summary = timeline bundles;
  customer_update = prepend_claim (claimed_window f) (customer_update (classify bundles) bundles);
  engineering_escalation = engineering_escalation (classify bundles) bundles;
  kb_suggestions = kb_suggestions f.case_type;
}
