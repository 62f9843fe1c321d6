-- ===== src/Triage/Rules.antt =====
-- The triage by rules in app/triage_service.py, what it fills in for a model's answer, and
-- `_apply_confidence_routing`.
use support_triage_llm.Base.{
  ℕ, String, Bool, true, false, ◌&&◌, ◌||◌, Option, none, some, List, [], ◌∷◌, ltb, str_eq,
  if◌then◌else◌, Result, ok, ◌>>=◌,
}
use support_triage_llm.Base.Text.{lower, prefix}
use support_triage_llm.TimeWindow.Dates.{Today, ParseError}
use support_triage_llm.Triage.Payload.{
  Window, Scope, Reply, Payload, text_or, set_default, list_or, is_empty, default_reported,
}
use support_triage_llm.Triage.Infer.{
  infer_case_type, infer_severity, build_missing_questions, build_draft_reply,
}
use support_triage_llm.Triage.Time.{Seen, Calendar, TimeFields, window_of, extract_time_fields}

unfoldable pub tenant_list : String → List String
tenant_list hint = if str_eq hint "" then [] else hint ∷ []

-- _base_triage_payload, after the time fields
unfoldable pub base_of : String → String → Seen → TimeFields → Payload
unfolding infer_case_type infer_severity tenant_list build_missing_questions build_draft_reply
    prefix
base_of text hint seen t = record {
  case_type = some (infer_case_type seen.has_email text);
  severity = some (infer_severity text);
  time_window = some t.time_window;
  reported_time_window = some t.reported_time_window;
  time_ambiguity = some t.time_ambiguity;
  scope = some (record {
    affected_tenants = some (tenant_list hint);
    affected_users = some [];
    affected_recipients = some [];
    recipient_domains = some seen.domains;
    is_all_users = some false;
    notes = some "";
  });
  symptoms = some (prefix 200 text ∷ []);
  examples = some [];
  missing_info_questions =
      some (build_missing_questions seen.domains t.reported_time_window t.time_ambiguity);
  suggested_tools = some [];
  draft_customer_reply = some (build_draft_reply seen.domains);
  time_window_reason = none;
}

unfoldable pub base_triage_payload :
    Calendar → String → String → Today → Seen → Result ParseError Payload
unfolding extract_time_fields base_of
base_triage_payload c text hint now seen =
    extract_time_fields c text now seen >>= (λ t. ok (base_of text hint seen t))

unfoldable pub no_scope : Scope
no_scope = record {
  affected_tenants = none;
  affected_users = none;
  affected_recipients = none;
  recipient_domains = none;
  is_all_users = none;
  notes = none;
}

unfoldable pub scope_or : Option Scope → Scope
unfolding no_scope
scope_or none = no_scope
scope_or (some s) = s

unfoldable pub enrich_draft : Option Reply → Option Reply → Option Reply
unfolding text_or
enrich_draft none base = base
enrich_draft (some d) base =
    if str_eq (text_or d.subject "") "" || str_eq (text_or d.body "") "" then base else some d

-- the scope, with the domains in the text
unfoldable pub enrich_scope : List String → Scope → Scope
unfolding is_empty set_default
enrich_scope domains s = record s {
  recipient_domains = if is_empty s.recipient_domains then some domains else s.recipient_domains;
  notes = set_default "" s.notes;
}

unfoldable pub lacks_window : Option Window → Bool
lacks_window none = true
lacks_window (some w) = elim w.start [
  | some s ↦ false
  | none ↦ elim w.end [ some s ↦ false | none ↦ true ]
]

-- all of `_enrich_from_heuristic` but the time window
unfoldable pub backfill : Seen → Payload → Payload → Payload
unfolding is_empty enrich_draft enrich_scope scope_or list_or set_default
backfill seen base p = record p {
  missing_info_questions =
      if is_empty p.missing_info_questions
      then base.missing_info_questions
      else p.missing_info_questions;
  draft_customer_reply = enrich_draft p.draft_customer_reply base.draft_customer_reply;
  scope = some (enrich_scope seen.domains (scope_or p.scope));
  symptoms = if is_empty p.symptoms then base.symptoms else p.symptoms;
  examples = some (list_or p.examples []);
  case_type = elim p.case_type [
    | none ↦ none
    | some s ↦ if str_eq s "unknown" then base.case_type else some s
  ];
  reported_time_window = elim p.reported_time_window [
    | none ↦ base.reported_time_window
    | some r ↦ some r
  ];
  time_ambiguity = elim p.time_ambiguity [
    | none ↦ base.time_ambiguity
    | some s ↦ if str_eq s "" then base.time_ambiguity else some s
  ];
}

-- the parsed window, where there is none
unfoldable pub fill_window : Calendar → String → Today → Seen → Payload → Result ParseError Payload
unfolding lacks_window window_of
fill_window c text now seen p =
    if lacks_window p.time_window
    then window_of c text now seen.found
      >>= (λ w. ok (record p { time_window = some w.0; time_window_reason = some w.1 }))
    else ok p

unfoldable pub enrich_from_heuristic :
    Calendar → String → String → Today → Seen → Payload → Result ParseError Payload
unfolding base_triage_payload backfill fill_window
enrich_from_heuristic c text hint now seen p =
    base_triage_payload c text hint now seen
    >>= (λ base. fill_window c text now seen (backfill seen base p))

-- float(time_window.get("confidence") or 0.0)
unfoldable pub time_confidence : Option Window → ℕ
time_confidence none = 0
time_confidence (some w) = elim w.confidence [ none ↦ 0 | some n ↦ n ]

unfoldable pub missing_scope : Option Scope → Bool
unfolding is_empty scope_or
missing_scope s = is_empty (scope_or s).affected_tenants && is_empty (scope_or s).recipient_domains

unfoldable pub requires_more_info : Payload → Bool
unfolding time_confidence missing_scope
requires_more_info p = ltb (time_confidence p.time_window) 30 || missing_scope p.scope

-- severity in {"critical", "high"}
unfoldable pub is_severe : Option String → Bool
unfolding text_or lower
is_severe s = let name = lower (text_or s "medium") in str_eq name "critical" || str_eq name "high"

unfoldable pub route_questions : Seen → Payload → Option (List String)
unfolding is_empty build_missing_questions list_or scope_or set_default text_or default_reported
route_questions seen p =
    if is_empty p.missing_info_questions
    then some (
        build_missing_questions (list_or (scope_or p.scope).recipient_domains seen.domains)
          (elim p.reported_time_window [ none ↦ default_reported | some r ↦ r ])
          (text_or p.time_ambiguity "missing_date"))
    else p.missing_info_questions

unfoldable pub apply_confidence_routing : Seen → Payload → Payload
unfolding requires_more_info is_severe route_questions
apply_confidence_routing seen p =
    if requires_more_info p
    then record p {
      severity = if is_severe p.severity then some "medium" else p.severity;
      missing_info_questions = route_questions seen p;
    }
    else p
