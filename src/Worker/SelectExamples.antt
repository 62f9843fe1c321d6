-- ===== src/Worker/SelectExamples.antt =====
-- The tools selected for some cases.
use support_triage_llm.Base.Text.{contains, lower}
use support_triage_llm.Base.{String, ◌≡◌, refl, List, [], ◌∷◌, take, arith}
use support_triage_llm.Queue.Schema.{member}
use support_triage_llm.Worker.Select.{
  TriageResult, has_outage_language, allowed_tools, select_tools, dedupe_cap, contains_any, dedupe,
  join_words, log_tool, may_run, outage_keywords, should_run_log_tool, tool_map,
}
use support_triage_llm.Worker.DedupeLaws.{fresh, dedupe_cap_lem}
use support_triage_llm.Worker.SelectLaws.{names}

abbrev registry : List String
registry =
    "fetch_email_events_sample" ∷ "dns_email_auth_check_sample" ∷ "fetch_integration_events_sample"
    ∷ "fetch_app_events_sample" ∷ "log_evidence" ∷ "service_status" ∷ []

abbrev report : String → String → TriageResult
report case_type symptom = record {
  case_type = case_type;
  symptoms = symptom ∷ [];
  recipient_domains = "b.com" ∷ [];
  draft_body = "Thanks.";
}

email_test :
    names (select_tools registry (report "email_delivery" "Site Down"))
    ≡ "fetch_email_events_sample" ∷ "dns_email_auth_check_sample" ∷ "log_evidence" ∷ []
unfolding names select_tools dedupe tool_map may_run allowed_tools log_tool should_run_log_tool
    has_outage_language contains_any outage_keywords contains lower join_words
email_test = refl

incident_test :
    names (select_tools registry (report "incident" "slow"))
    ≡ "service_status" ∷ "log_evidence" ∷ []
unfolding names select_tools dedupe tool_map may_run allowed_tools log_tool should_run_log_tool
incident_test = refl

dedupe_cap_test : dedupe_cap 2 ("a" ∷ "a" ∷ "b" ∷ "c" ∷ []) ≡ "a" ∷ "b" ∷ []
unfolding dedupe_cap member
dedupe_cap_test = refl

dedupe_cap_lem_example :
    dedupe_cap 2 ("a" ∷ "a" ∷ "b" ∷ "c" ∷ []) ≡ take 2 (fresh [] ("a" ∷ "a" ∷ "b" ∷ "c" ∷ []))
dedupe_cap_lem_example = dedupe_cap_lem 2 ("a" ∷ "a" ∷ "b" ∷ "c" ∷ []) (omega arith)
