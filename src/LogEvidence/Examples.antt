-- ===== src/LogEvidence/Examples.antt =====
-- Two tenants' logs, and the tool run on them.
use support_triage_llm.Base.Text.{contains, lower, upper}
use support_triage_llm.Queue.Schema.{member}
use support_triage_llm.Base.{
  ℕ, String, ◌≡◌, refl, ◌≤◌, true, Option, none, some, List, [], ◌∷◌, length, keep, str_eq, arith,
  if◌then◌else◌, ◌↔◌,
}
use support_triage_llm.LogEvidence.Entries.{
  LogEntry, query, answers_query, first_ts, in_window, last_ts, other_tenant,
  select_incident_entries,
}
use support_triage_llm.LogEvidence.Run.{
  Params, run_log_evidence, corroborated, not_observed, assess, query_service, query_tenant,
  service_hint, text_or,
}
use support_triage_llm.LogEvidence.Verdict.{incident_filtered, run_log_evidence-observed}
use support_triage_llm.LogEvidence.Isolation.{run_log_evidence-isolated}
use support_triage_llm.LogEvidence.Window.{run_log_evidence_window}

abbrev entry : ℕ → String → Option ℕ → LogEntry
entry t tenant code = record {
  ts = t;
  tenant = tenant;
  service = "api";
  level = "ERROR";
  event_type = "timeout";
  message = "slow";
  status_code = code;
  request_id = none;
  latency_ms = none;
}

abbrev log : List LogEntry
log =
    entry 10 "acme" (some 504)
    ∷ entry 12 "acme" (some 500)
    ∷ entry 13 "other" (some 503)
    ∷ entry 15 "acme" none
    ∷ entry 90 "acme" none
    ∷ []

abbrev asked : Params
asked = record {
  start = 5;
  end = 50;
  incident_start = some 11;
  incident_end = none;
  tenant = some "acme";
  service = none;
  query_type = none;
}

abbrev wide : Params
wide = record {
  start = 5;
  end = 50;
  incident_start = none;
  incident_end = none;
  tenant = some "acme";
  service = none;
  query_type = some "timeouts";
}

asked_test : (run_log_evidence (λ s. s) asked log).decision ≡ not_observed
unfolding run_log_evidence assess select_incident_entries text_or query answers_query other_tenant
    query_tenant service_hint member lower query_service in_window upper contains
asked_test = refl

wide_test : (run_log_evidence (λ s. s) wide log).decision ≡ corroborated
unfolding run_log_evidence assess select_incident_entries text_or query answers_query other_tenant
    query_tenant service_hint member lower query_service in_window contains
wide_test = refl

wide-window_test : (run_log_evidence (λ s. s) wide log).incident_window ≡ (10, 15)
unfolding run_log_evidence assess select_incident_entries text_or query answers_query other_tenant
    query_tenant service_hint member lower query_service in_window first_ts last_ts contains
wide-window_test = refl

run_log_evidence-observed_example :
    let b = run_log_evidence (λ s. s) wide log in
    (b.observed_incident ≡ true ↔ (3 ≤ length (incident_filtered wide log)))
    × (b.decision ≡ (if b.observed_incident then corroborated else not_observed))
run_log_evidence-observed_example = run_log_evidence-observed (λ s. s) wide log

run_log_evidence-isolated_example :
    run_log_evidence (λ s. s) wide (keep (λ e. str_eq e.tenant "acme") log)
    ≡ run_log_evidence (λ s. s) wide log
unfolding service_hint member lower
run_log_evidence-isolated_example =
    run_log_evidence-isolated (λ s. s) wide "acme" log refl (λ e. absurd (cc e)) refl

run_log_evidence_window_example :
    let w = (run_log_evidence (λ s. s) asked log).incident_window in
    (11 ≤ w.0) × (w.0 ≤ w.1) × (w.1 ≤ 50)
run_log_evidence_window_example = run_log_evidence_window (λ s. s) asked log (omega arith)
