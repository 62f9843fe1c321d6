-- ===== src/LogEvidence/Verdict.antt =====
-- What the verdict of a log query rests on: decision, score, confidence and sample.
use support_triage_llm.Base.{
  ℕ, ◌+◌, ◌*◌, ◌≤◌, String, ◌≡◌, refl, ◌≢◌, Bool, true, false, List, [], ◌∷◌, leb→le, keep, length,
  length-keep-le, length-map, take, length-take-le, min, if◌then◌else◌, arith, ◌↔◌,
}
use support_triage_llm.LogEvidence.Entries.{
  LogEntry, query, select_incident_entries, in_window, code_at_least, mentions,
}
use support_triage_llm.LogEvidence.Run.{
  corroborated, inconclusive, not_observed, Params, observed_incident, signals, decide,
  sample_events, serialize, assess, run_log_evidence, query_tenant, query_service, stamp_or,
  text_or,
}

-- Every signal needs as many entries as an observed incident.
signals-observed :
    (filtered : List LogEntry) → observed_incident filtered ≡ false → signals filtered ≡ []
unfolding observed_incident signals
signals-observed filtered h = ground (
  arith,
  length-keep-le (code_at_least 500) filtered,
  length-keep-le (mentions "timeout") filtered,
)

decide-ne :
    (observed : Bool) (found : List String)
    → (observed ≡ false → found ≡ [])
    → decide observed found ≢ inconclusive
unfolding decide
decide-ne true found h e = cc
decide-ne false found h e = ground (arith, h refl)

observed_incident-length : (f : List LogEntry) → observed_incident f ≡ true ↔ (3 ≤ length f)
unfolding observed_incident
observed_incident-length f = (λ h. leb→le 3 (length f) h, λ h. ground arith)

decide-observed :
    (observed : Bool) (found : List String)
    → (observed ≡ false → found ≡ [])
    → decide observed found ≡ (if observed then corroborated else not_observed)
unfolding decide
decide-observed true found h = refl
decide-observed false [] h = refl
decide-observed false (s ∷ found) h = ground (arith, h refl)

length-signals-le : (f : List LogEntry) → length (signals f) ≤ 3
unfolding signals
length-signals-le f = ground arith

length-sample_events-le :
    (redact : String → String) (f : List LogEntry) → length (sample_events redact f) ≤ 25
unfolding sample_events
length-sample_events-le redact f =
    rw (length-map (serialize redact) (take 25 f)) (length-take-le 25 f)

score_bounds : (n : ℕ) → n ≤ 3 → (min 100 (n * 30) ≡ 30 * n) × (min 100 (n * 30) ≤ 90)
score_bounds n h = (omega arith, omega arith)

confidence_bounds :
    (observed : Bool) (n : ℕ)
    → (2 ≤ (if observed then min 10 (5 + n) else 2))
      × ((if observed then min 10 (5 + n) else 2) ≤ 10)
confidence_bounds true n = (omega arith, omega arith)
confidence_bounds false n = (omega arith, omega arith)

-- the incident entries of a run
unfoldable pub incident_filtered : Params → List LogEntry → List LogEntry
incident_filtered p log =
    select_incident_entries
      (keep (in_window (stamp_or p.incident_start p.start) (stamp_or p.incident_end p.end))
        (query (query_tenant p) (query_service p) p.start p.end log))
      (text_or p.query_type "errors")

module _ (redact : String → String) where
  -- The tool never answers `inconclusive`: each signal needs as many entries as make the incident
  -- observed, so without an observed incident there is no signal.
  pub run_log_evidence-ne-inconclusive :
      (p : Params) (log : List LogEntry) → (run_log_evidence redact p log).decision ≢ inconclusive
  unfolding run_log_evidence assess incident_filtered
  run_log_evidence-ne-inconclusive p log =
      decide-ne (observed_incident (incident_filtered p log)) (signals (incident_filtered p log))
        (signals-observed (incident_filtered p log))

  -- An incident is observed exactly when at least three entries count as signs of it, and exactly
  -- then the decision is `corroborated`, and otherwise `not_observed`.
  pub run_log_evidence-observed :
      (p : Params) (log : List LogEntry)
      → let b = run_log_evidence redact p log in
        (b.observed_incident ≡ true ↔ (3 ≤ length (incident_filtered p log)))
        × (b.decision ≡ (if b.observed_incident then corroborated else not_observed))
  unfolding run_log_evidence assess incident_filtered
  run_log_evidence-observed p log =
      let f = incident_filtered p log in
      (
        observed_incident-length f,
        decide-observed (observed_incident f) (signals f) (signals-observed f),
      )

  -- The score is at most 90, a confidence lies between 0.2 and 1, and the sample has at most 25
  -- events.
  pub run_log_evidence_bounds :
      (p : Params) (log : List LogEntry)
      → let b = run_log_evidence redact p log in
        (b.incident_score ≡ 30 * length b.incident_signals)
        × (b.incident_score ≤ 90)
        × (2 ≤ b.confidence)
        × (b.confidence ≤ 10)
        × (length b.events ≤ 25)
  unfolding run_log_evidence assess incident_filtered
  run_log_evidence_bounds p log =
      let f = incident_filtered p log in
      let score = score_bounds (length (signals f)) (length-signals-le f) in
      let confidence = confidence_bounds (observed_incident f) (length f) in
      (score.0, score.1, confidence.0, confidence.1, length-sample_events-le redact _)
