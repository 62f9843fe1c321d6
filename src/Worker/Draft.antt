-- ===== src/Worker/Draft.antt =====
-- The customer draft in tools/triage_worker.py: `_guard_draft_claims`, which holds back claims without
-- evidence, and the statements that `_append_log_statement` and `_append_service_status_statement` add.
use support_triage_llm.Base.{
  ℕ, String, Bool, ◌&&◌, ◌||◌, not, Option, none, some, List, [], ◌∷◌, ◌++◌, ltb, str_eq, keep, map,
  take, if◌then◌else◌,
}
use support_triage_llm.Base.Text.{lower, strip, contains, or_text, concat}
use support_triage_llm.LogEvidence.Entries.{insert_sorted}

pub record Draft : Type 0 where
  pub subject : String
  pub body : String

-- what the guard reads besides the draft: `json.dumps` of the bundles in lower case, their bounces, the
-- knowledge base in lower case, and the questions of the triage
pub record Grounds : Type 0 where
  pub evidence_text : String
  pub bounced : ℕ
  pub truth_text : String
  pub questions : List String

unfoldable pub claim_keywords : List String
claim_keywords =
    "bounce" ∷ "quarantine" ∷ "dmarc" ∷ "spf" ∷ "rate limit" ∷ "auth failed" ∷ "workflow disabled"
    ∷ []

-- checks[keyword]()
unfoldable pub supported : Grounds → String → Bool
supported g keyword =
    if str_eq keyword "bounce"
    then contains "bounce" g.evidence_text || (ltb 0 g.bounced || contains "bounce" g.truth_text)
    else if str_eq keyword "rate limit"
    then contains "rate limit" g.evidence_text
      || (contains "429" g.evidence_text || contains "rate limit" g.truth_text)
    else if str_eq keyword "auth failed"
    then contains "auth_failed" g.evidence_text
      || (contains "token expired" g.evidence_text || contains "auth failed" g.truth_text)
    else if str_eq keyword "workflow disabled"
    then contains "workflow_disabled" g.evidence_text || contains "workflow disabled" g.truth_text
    else contains keyword g.evidence_text || contains keyword g.truth_text

unfoldable pub draft_text : Draft → String
draft_text d = lower (concat (d.subject ∷ " " ∷ d.body ∷ []))

unfoldable pub unsupported : Grounds → Draft → List String
unsupported g d = keep (λ k. contains k (draft_text d) && not (supported g k)) claim_keywords

-- "\n".join(lines)
unfoldable pub join_lines : List String → String
join_lines [] = ""
join_lines (s ∷ []) = s
join_lines (s ∷ t ∷ ss) = concat (s ∷ "\n" ∷ join_lines (t ∷ ss) ∷ [])

unfoldable pub safe_body : List String → String
safe_body [] = join_lines (
    "Thanks for reaching out. We are still gathering evidence before confirming the exact cause."
    ∷ "We'll follow up with more details once we finish collecting evidence." ∷ [])
safe_body (q ∷ qs) = join_lines (
    "Thanks for reaching out. We are still gathering evidence before confirming the exact cause."
    ∷ "To help us move faster, could you share:"
    ∷ map (λ s. concat ("- " ∷ s ∷ [])) (take 6 (q ∷ qs)))

-- sorted(set(keywords))
unfoldable pub sorted_set : List String → List String
sorted_set [] = []
sorted_set (s ∷ ss) = insert_sorted s (sorted_set ss)

-- ",".join(parts)
unfoldable pub join_commas : List String → String
join_commas [] = ""
join_commas (s ∷ []) = s
join_commas (s ∷ t ∷ ss) = concat (s ∷ "," ∷ join_commas (t ∷ ss) ∷ [])

pub record Guarded : Type 0 where
  pub draft : Draft
  pub warnings : List String

-- the draft with these unsupported claims
unfoldable pub hold_back : Grounds → Draft → List String → Guarded
hold_back g d [] = record { draft = d; warnings = [] }
hold_back g d (k ∷ ks) = record {
  draft = record {
    subject = or_text d.subject "Quick update on your report";
    body = safe_body g.questions;
  };
  warnings = concat ("unsupported_claims:" ∷ join_commas (sorted_set (k ∷ ks)) ∷ []) ∷ [];
}

unfoldable pub guard_draft_claims : Grounds → Draft → Guarded
guard_draft_claims g d =
    if str_eq (strip (draft_text d)) ""
    then record { draft = d; warnings = [] }
    else hold_back g d (unsupported g d)

-- an addition to the body, unless the body has it already
unfoldable pub append_to : String → String → String → String
append_to label addition body =
    if contains addition body then body else strip (concat (body ∷ "\n\n" ∷ label ∷ addition ∷ []))

unfoldable pub confirm_identity : Bool → String → String
confirm_identity is_high summary =
    if is_high
    then summary
    else concat (
        summary ∷ " Please confirm your organization/account ID and the affected time window." ∷ [])

-- what the statement reads of the log bundle
pub record LogFacts : Type 0 where
  pub query_type : String
  pub observed : Bool
  pub start : String
  pub end : String
  pub summary_external : String

unfoldable pub log_summary : LogFacts → Bool → String
log_summary f is_high =
    let prefix = if is_high then "For your tenant, " else "We checked our service signals and " in
    or_text f.summary_external (
      if f.observed
      then concat (
          prefix
          ∷ "observed elevated "
          ∷ or_text f.query_type "errors"
          ∷ " signals between "
          ∷ f.start
          ∷ " and "
          ∷ f.end
          ∷ "; we're investigating."
          ∷ [])
      else concat (
          prefix
          ∷ "did not observe "
          ∷ or_text f.query_type "errors"
          ∷ " anomalies in the checked window."
          ∷ []))

-- the customer's own window; an absent bound is empty
unfoldable pub customer_line : String → String → List String
customer_line start end =
    if str_eq start ""
    then []
    else if str_eq end ""
    then concat ("Customer reports issues since " ∷ start ∷ "." ∷ []) ∷ []
    else concat ("Customer reports issues between " ∷ start ∷ " and " ∷ end ∷ "." ∷ []) ∷ []

unfoldable pub append_log_statement : Option LogFacts → Bool → String → String → Draft → Draft
append_log_statement none is_high start end d = d
append_log_statement (some f) is_high start end d =
    let lines =
      customer_line start end ++ (confirm_identity is_high (log_summary f is_high) ∷ []) in
    let addition = strip (join_lines lines) in
    record d { body = if str_eq addition "" then d.body else append_to "" addition d.body }

-- the summary and the status of the service status bundle
unfoldable pub append_service_status_statement : Option (String × String) → Bool → Draft → Draft
append_service_status_statement none is_high d = d
append_service_status_statement (some (summary, status)) is_high d = record d {
  body =
      append_to "Service check: "
        (confirm_identity is_high (
          or_text summary
            (concat ("Service status signal observed: " ∷ or_text status "unknown" ∷ []))))
        d.body;
}
