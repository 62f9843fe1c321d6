-- ===== src/Worker/LinkLaws.antt =====
-- That the evidence runs and the handoff packs that the worker writes belong to intakes
-- (tools/triage_worker.py).
use support_triage_llm.Base.{
  ℕ, String, ◌≡◌, refl, subst, ◌||◌, List, [], ◌∷◌, any, keep, str_eq, All, All-append, Result, ok,
  err, Bool-cases, Option-cases, inl, inr,
}
use support_triage_llm.Values.{Value}
use support_triage_llm.Queue.Schema.{member}
use support_triage_llm.Evidence.Runs.{
  EvidenceRun, Recorded, EvidenceError, same_key, reuse, latest, insert_run, new_run,
  record_evidence_run,
}
use support_triage_llm.Evidence.Replay.{ToolOutcome, request_of, run_tool_with_evidence}
use support_triage_llm.Worker.Select.{Tool, TriageResult, allowed_tools, select_tools}
use support_triage_llm.Worker.Gather.{
  Setting, Gathered, note_run, tool_run, complete_params, service_params, gather_one, gather_tools,
  gather_services, no_evidence, gather,
}

module _ (P : EvidenceRun → Type 0) where
  insert_run-All :
      (e : EvidenceRun) (runs runs' : List EvidenceRun) (r : Recorded)
      → insert_run e runs ≡ ok (r, runs')
      → P e
      → All P runs
      → All P runs'
  unfolding insert_run reuse
  insert_run-All e runs runs' r h p all =
      elim (Bool-cases
        (any (same_key e) runs || any (λ s. str_eq s.evidence_id e.evidence_id) runs)) [
          | inr fresh ↦
              subst (All P) (cc (rw (insert_run, fresh) at h))
                (All-append P runs (e ∷ []) all (p, tt))
          | inl taken ↦ elim (Option-cases (latest (keep (same_key e) runs))) [
            | inl l ↦ absurd (cc (rw (insert_run, taken, l) at h))
            | inr (s, l) ↦ subst (All P) (cc (rw (insert_run, taken, l) at h)) all
          ]
        ]

  note_run-All :
      (describe : EvidenceError → String) (tool : String) (outcome : ToolOutcome) (g : Gathered)
      (r : Result EvidenceError (Recorded × List EvidenceRun))
      → ((x : Recorded) (runs : List EvidenceRun) → r ≡ ok (x, runs) → All P runs)
      → All P g.runs
      → All P (note_run describe tool outcome g r).runs
  unfolding note_run
  note_run-All describe tool outcome g (err e) next all = all
  note_run-All describe tool outcome g (ok (x, runs)) next all = next x runs refl

  module _ (canonical_json : Value → String) (sha256 : String → String) (ttl_days : ℕ)
      (loads : String → Value) (describe : EvidenceError → String)
      (run : ℕ → String → Value → ToolOutcome) (uuid : ℕ → String) (clock : ℕ → ℕ) (s : Setting)
      (holds : (e : EvidenceRun) → e.intake_id ≡ s.intake_id → P e) where
    gather_one-All :
        (tool : String) (params : Value) (g : Gathered)
        → All P g.runs
        → All P
            (gather_one canonical_json sha256 ttl_days loads describe run uuid clock s tool params
              g).runs
    unfolding gather_one run_tool_with_evidence record_evidence_run
    gather_one-All tool params g all =
        let new =
          new_run canonical_json sha256 ttl_days (uuid g.started) (clock g.started)
            (request_of (tool_run s tool params) (run g.started tool params)) in
        note_run-All describe tool (run g.started tool params) g (insert_run new g.runs)
          (λ x runs e.
            insert_run-All new g.runs runs x e
              (holds new (unfold new_run request_of tool_run in refl)) all)
          all

    gather_tools-All :
        (tools : List Tool) (g : Gathered)
        → All P g.runs
        → All P
            (gather_tools canonical_json sha256 ttl_days loads describe run uuid clock s tools
              g).runs
    unfolding gather_tools
    gather_tools-All [] g all = all
    gather_tools-All (tool ∷ tools) g all =
        gather_tools-All tools
          (gather_one canonical_json sha256 ttl_days loads describe run uuid clock s tool.name
            (complete_params s tool) g)
          (gather_one-All tool.name (complete_params s tool) g all)

    gather_services-All :
        (ids : List String) (g : Gathered)
        → All P g.runs
        → All P
            (gather_services canonical_json sha256 ttl_days loads describe run uuid clock s ids
              g).runs
    unfolding gather_services
    gather_services-All [] g all = all
    gather_services-All (id ∷ ids) g all =
        gather_services-All ids
          (gather_one canonical_json sha256 ttl_days loads describe run uuid clock s
            "service_status" (service_params s id) g)
          (gather_one-All "service_status" (service_params s id) g all)

    -- What holds of the runs before and of every run of the case's intake holds of the runs after.
    pub gather-All :
        (registry : List String) (t : TriageResult) (runs : List EvidenceRun)
        → All P runs
        → All P
            (gather canonical_json sha256 ttl_days loads describe run uuid clock s registry t
              runs).runs
    unfolding gather no_evidence
    gather-All registry t runs all =
        let tools = gather_tools-All (select_tools registry t) (no_evidence runs) all in
        elim (Bool-cases (member "service_status" (allowed_tools t))) [
          | inl e ↦ rw (gather, e) (gather_services-All s.service_ids _ tools)
          | inr e ↦ rw (gather, e) tools
        ]
