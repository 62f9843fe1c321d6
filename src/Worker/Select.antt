-- ===== src/Worker/Select.antt =====
-- Which tools the triage worker runs for a case (tools/triage_worker.py): `_allowed_tools`,
-- `_select_tools`, `_partition_evidence`.
use support_triage_llm.Base.{
  ℕ, String, Bool, true, ◌&&◌, ◌||◌, not, Option, none, some, List, [], ◌∷◌, ◌++◌, str_eq, any,
  keep, leb, length, if◌then◌else◌,
}
use support_triage_llm.Base.Text.{lower, contains, concat, or_text}
use support_triage_llm.Queue.Schema.{member}

-- what the selection reads of a triage result
pub record TriageResult : Type 0 where
  pub case_type : String
  pub symptoms : List String
  pub recipient_domains : List String
  pub draft_body : String

pub record Tool : Type 0 where
  pub name : String
  pub params : List (String × String)

-- " ".join(parts)
unfoldable pub join_words : List String → String
join_words [] = ""
join_words (s ∷ []) = s
join_words (s ∷ t ∷ ss) = concat (s ∷ " " ∷ join_words (t ∷ ss) ∷ [])

-- any(k in text for k in keywords)
unfoldable pub contains_any : List String → String → Bool
contains_any keywords text = any (λ k. contains k text) keywords

unfoldable pub outage_keywords : List String
outage_keywords =
    "down" ∷ "outage" ∷ "unavailable" ∷ "downtime" ∷ "cannot access" ∷ "unresponsive" ∷ "timeout"
    ∷ []

unfoldable pub has_outage_language : TriageResult → Bool
has_outage_language t =
    contains_any outage_keywords (lower (join_words (t.symptoms ++ (t.draft_body ∷ []))))

unfoldable pub should_run_log_tool : TriageResult → Bool
should_run_log_tool t = if str_eq t.case_type "incident" then true else has_outage_language t

unfoldable pub allowed_tools : TriageResult → List String
allowed_tools t =
    let outage = if has_outage_language t then "log_evidence" ∷ [] else [] in
    if str_eq t.case_type "incident"
    then "log_evidence" ∷ "service_status" ∷ []
    else if str_eq t.case_type "email_delivery"
    then "fetch_email_events_sample" ∷ "dns_email_auth_check_sample" ∷ outage
    else outage

-- a parameter that is None is dropped
unfoldable pub param : String → Option String → List (String × String)
param key none = []
param key (some v) = (key, v) ∷ []

unfoldable pub primary_domain : List String → Option String
primary_domain [] = none
primary_domain (d ∷ ds) = some d

unfoldable pub tool_map : String → Option String → List Tool
unfolding param
tool_map case_type domain =
    if str_eq case_type "email_delivery"
    then record { name = "fetch_email_events_sample"; params = param "recipient_domain" domain }
      ∷ record { name = "dns_email_auth_check_sample"; params = param "domain" domain }
      ∷ []
    else if str_eq case_type "integration"
    then record {
      name = "fetch_integration_events_sample";
      params = ("integration_name", "ats") ∷ [];
    }
      ∷ []
    else if str_eq case_type "auth_access" || str_eq case_type "ui_bug"
    then record { name = "fetch_app_events_sample"; params = [] } ∷ []
    else if str_eq case_type "incident"
    then record { name = "service_status"; params = [] } ∷ []
    else []

-- name in registry.REGISTRY and (not allowed or name in allowed)
unfoldable pub may_run : List String → List String → Tool → Bool
unfolding member
may_run registry [] tool = member tool.name registry
may_run registry (a ∷ allowed) tool = member tool.name registry && member tool.name (a ∷ allowed)

unfoldable pub query_type_of : String → String
unfolding contains_any
query_type_of haystack =
    if contains "timeout" haystack
    then "timeouts"
    else if contains_any ("down" ∷ "unavailable" ∷ "outage" ∷ []) haystack
    then "availability"
    else "errors"

unfoldable pub log_tool : TriageResult → List Tool
log_tool t =
    let haystack = concat (lower (join_words t.symptoms) ∷ " " ∷ lower t.draft_body ∷ []) in
    if should_run_log_tool t && member "log_evidence" (allowed_tools t)
    then record {
      name = "log_evidence";
      params = ("service", "api") ∷ ("query_type", query_type_of haystack) ∷ [];
    }
      ∷ []
    else []

-- the tools whose names have not been seen, each once
unfoldable pub dedupe : List String → List Tool → List Tool
dedupe seen [] = []
dedupe seen (tool ∷ tools) =
    let skip = dedupe seen tools in
    let take = dedupe (tool.name ∷ seen) tools in
    if member tool.name seen then skip else tool ∷ take

unfoldable pub select_tools : List String → TriageResult → List Tool
select_tools registry t = dedupe [] (
    keep (may_run registry (allowed_tools t))
      (tool_map t.case_type (primary_domain t.recipient_domains))
    ++ log_tool t)

-- what the partition reads of a bundle
pub record EvidenceBundle : Type 0 where
  pub tool_name : String
  pub source : String

unfoldable pub is_relevant : List String → EvidenceBundle → Bool
is_relevant [] b = true
is_relevant (a ∷ allowed) b = member (or_text b.tool_name b.source) (a ∷ allowed)

pub record Partition {ℓ} (A : Type ℓ) : Type ℓ where
  pub relevant : List A
  pub other : List A

-- `view` shows what it reads of a bundle
unfoldable pub partition_evidence {ℓ} :
    {A : Type ℓ} → (A → EvidenceBundle) → List A → List String → Partition A
unfolding is_relevant
partition_evidence view bundles allowed = record {
  relevant = keep (λ b. is_relevant allowed (view b)) bundles;
  other = keep (λ b. not (is_relevant allowed (view b))) bundles;
}

-- _dedupe_cap: the distinct values in order, at most `cap` of them
unfoldable pub dedupe_cap_from : ℕ → List String → List String → List String
dedupe_cap_from cap seen [] = seen
dedupe_cap_from cap seen (v ∷ values) =
    let grown = if member v seen then seen else seen ++ (v ∷ []) in
    let rest = dedupe_cap_from cap grown values in if leb cap (length grown) then grown else rest

unfoldable pub dedupe_cap : ℕ → List String → List String
unfolding dedupe_cap_from
dedupe_cap cap values = dedupe_cap_from cap [] values
