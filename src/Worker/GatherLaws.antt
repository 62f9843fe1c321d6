-- ===== src/Worker/GatherLaws.antt =====
-- What the evidence loop of the triage worker leaves behind.
use support_triage_llm.Base.{
  ℕ, suc, ◌+◌, ◌≤◌, String, ◌≡◌, refl, sym, ◌∙◌, ap, false, ◌||◌, inl, inr, List, [], ◌∷◌, ◌++◌,
  length, length-append, append_assoc, append_nil, keep, any, str_eq, Result, ok, err, Bool-cases,
  Option-cases, if◌then◌else◌, arith,
}
use support_triage_llm.Values.{Value}
use support_triage_llm.Queue.Schema.{member}
use support_triage_llm.Evidence.Runs.{
  EvidenceRun, Recorded, EvidenceError, same_key, reuse, latest, insert_run, new_run,
  record_evidence_run,
}
use support_triage_llm.Evidence.Replay.{
  ToolOutcome, raised, request_of, with_metadata, run_tool_with_evidence,
}
use support_triage_llm.Worker.Select.{Tool, TriageResult, allowed_tools, select_tools}
use support_triage_llm.Worker.Gather.{
  Setting, Gathered, note_run, tool_run, complete_params, service_params, gather_one, gather_tools,
  gather_services, no_evidence, gather,
}

-- Runs are added at the end, and none is changed.
IsExtended : List EvidenceRun → List EvidenceRun → Type 0
IsExtended runs runs' = (extra : List EvidenceRun) × (runs' ≡ runs ++ extra)

-- `n` sources more, as many bundles at most, and the runs extended.
Advanced : ℕ → Gathered → Gathered → Type 0
Advanced n g h =
    IsExtended g.runs h.runs
    × (length h.sources_run ≡ length g.sources_run + n)
    × (length h.bundles ≤ length g.bundles + n)

Advanced-refl : (g : Gathered) → Advanced 0 g g
unfolding Advanced IsExtended
Advanced-refl g = (([], sym (append_nil g.runs)), omega arith, omega arith)

Advanced-trans :
    (n m : ℕ) (f g h : Gathered) → Advanced n f g → Advanced m g h → Advanced (n + m) f h
unfolding Advanced IsExtended
Advanced-trans n m f g h ((xs, e), a, b) ((ys, k), c, d) = (
  (xs ++ ys, k ∙ ap (λ r. r ++ ys) e ∙ append_assoc f.runs xs ys),
  omega (arith, a, c),
  omega (arith, b, d),
)

Advanced-step : (m : ℕ) (f g h : Gathered) → Advanced 1 f g → Advanced m g h → Advanced (suc m) f h
unfolding Advanced
Advanced-step m f g h p q =
    let (runs, sources, bundles) = Advanced-trans 1 m f g h p q in
    (runs, omega (arith, sources), omega (arith, bundles))

insert_run-IsExtended :
    (e : EvidenceRun) (runs runs' : List EvidenceRun) (r : Recorded)
    → insert_run e runs ≡ ok (r, runs')
    → IsExtended runs runs'
unfolding IsExtended insert_run reuse
insert_run-IsExtended e runs runs' r h =
    elim (Bool-cases
      (any (same_key e) runs || any (λ s. str_eq s.evidence_id e.evidence_id) runs)) [
        | inr fresh ↦ (e ∷ [], cc (rw (insert_run, fresh) at h))
        | inl taken ↦ elim (Option-cases (latest (keep (same_key e) runs))) [
          | inl l ↦ absurd (cc (rw (insert_run, taken, l) at h))
          | inr (s, l) ↦ ([], cc (rw (insert_run, taken, l) at h, append_nil runs))
        ]
      ]

module _ (canonical_json : Value → String) (sha256 : String → String) (ttl_days : ℕ)
    (loads : String → Value) (describe : EvidenceError → String)
    (run : ℕ → String → Value → ToolOutcome) (uuid : ℕ → String) (clock : ℕ → ℕ) (s : Setting) where
  note_run-Advanced :
      (tool : String) (outcome : ToolOutcome) (g : Gathered)
      (r : Result EvidenceError (Recorded × List EvidenceRun))
      → ((x : Recorded) (runs : List EvidenceRun) → r ≡ ok (x, runs) → IsExtended g.runs runs)
      → Advanced 1 g (note_run describe tool outcome g r)
  unfolding note_run Advanced IsExtended
  note_run-Advanced tool outcome g (err e) grows =
      (([], sym (append_nil g.runs)), length-append g.sources_run _, omega arith)
  note_run-Advanced tool outcome g (ok (x, runs)) grows = (
    grows x runs refl,
    length-append g.sources_run _,
    omega (
      arith,
      length-append g.bundles
          ((record { tool_name = tool; source = "" }, with_metadata x outcome) ∷ []),
    ),
  )

  gather_one-Advanced :
      (tool : String) (params : Value) (g : Gathered)
      → Advanced 1 g
          (gather_one canonical_json sha256 ttl_days loads describe run uuid clock s tool params g)
  unfolding gather_one run_tool_with_evidence record_evidence_run
  gather_one-Advanced tool params g =
      let new =
        new_run canonical_json sha256 ttl_days (uuid g.started) (clock g.started)
          (request_of (tool_run s tool params) (run g.started tool params)) in
      note_run-Advanced tool (run g.started tool params) g (insert_run new g.runs)
        (λ x runs e. insert_run-IsExtended new g.runs runs x e)

  gather_tools-Advanced :
      (tools : List Tool) (g : Gathered)
      → Advanced
          (length tools)
          g
          (gather_tools canonical_json sha256 ttl_days loads describe run uuid clock s tools g)
  unfolding gather_tools
  gather_tools-Advanced [] g = Advanced-refl g
  gather_tools-Advanced (tool ∷ tools) g =
      let h =
        gather_one canonical_json sha256 ttl_days loads describe run uuid clock s tool.name
          (complete_params s tool) g in
      Advanced-step (length tools) g h
        (gather_tools canonical_json sha256 ttl_days loads describe run uuid clock s tools h)
        (gather_one-Advanced tool.name (complete_params s tool) g) (gather_tools-Advanced tools h)

  gather_services-Advanced :
      (ids : List String) (g : Gathered)
      → Advanced
          (length ids)
          g
          (gather_services canonical_json sha256 ttl_days loads describe run uuid clock s ids g)
  unfolding gather_services
  gather_services-Advanced [] g = Advanced-refl g
  gather_services-Advanced (id ∷ ids) g =
      let h =
        gather_one canonical_json sha256 ttl_days loads describe run uuid clock s "service_status"
          (service_params s id) g in
      Advanced-step (length ids) g h
        (gather_services canonical_json sha256 ttl_days loads describe run uuid clock s ids h)
        (gather_one-Advanced "service_status" (service_params s id) g)
        (gather_services-Advanced ids h)

  -- The evidence loop only adds to the table of runs; it notes one source for every selected tool, and
  -- one for every service where the case allows the service status, whatever the tools return or raise;
  -- and it has at most as many bundles.
  pub gather_lem :
      (registry : List String) (t : TriageResult) (runs : List EvidenceRun)
      → let g =
          gather canonical_json sha256 ttl_days loads describe run uuid clock s registry t runs in
        ((extra : List EvidenceRun) × (g.runs ≡ runs ++ extra))
        × (length g.sources_run
            ≡ length (select_tools registry t)
              + (if member "service_status" (allowed_tools t) then length s.service_ids else 0))
        × (length g.bundles ≤ length g.sources_run)
  unfolding gather Advanced IsExtended no_evidence
  gather_lem registry t runs =
      let tools = select_tools registry t in
      let start = no_evidence runs in
      let h =
        gather_tools canonical_json sha256 ttl_days loads describe run uuid clock s tools start in
      elim (Bool-cases (member "service_status" (allowed_tools t))) [
        | inl e ↦
            let (grown, sources, bundles) =
              Advanced-trans (length tools) (length s.service_ids) start h
                (gather_services canonical_json sha256 ttl_days loads describe run uuid clock s
                  s.service_ids h)
                (gather_tools-Advanced tools start) (gather_services-Advanced s.service_ids h) in
            rw (gather, e) (grown, omega (arith, sources), omega (arith, sources, bundles))
        | inr e ↦
            let (grown, sources, bundles) = gather_tools-Advanced tools start in
            rw (gather, e) (grown, omega (arith, sources), omega (arith, sources, bundles))
      ]

  -- The loop takes a tool that raises for one that ran: where neither the key nor the id of its run is in
  -- the table, an error row is recorded, and the tool is noted as a source without an error, with the
  -- metadata of that row alone as its bundle.
  pub gather_one-raised :
      (tool error : String) (params : Value) (g : Gathered)
      → let new =
          new_run canonical_json sha256 ttl_days
            (uuid g.started)
            (clock g.started)
            (request_of (tool_run s tool params) (raised error)) in
        let h =
          gather_one canonical_json sha256 ttl_days loads describe run uuid clock s tool params g in
        run g.started tool params ≡ raised error
        → any (same_key new) g.runs ≡ false
        → any (λ r. str_eq r.evidence_id new.evidence_id) g.runs ≡ false
        → (h.runs ≡ g.runs ++ (new ∷ []))
          × (new.status ≡ "error")
          × (h.sources_run ≡ g.sources_run ++ (tool ∷ []))
          × (h.bundles
              ≡ g.bundles
                ++ ((
                  record { tool_name = tool; source = "" },
                  with_metadata (record { run = new; cache_hit = false }) (raised error),
                )
                    ∷ []))
  unfolding gather_one run_tool_with_evidence record_evidence_run insert_run note_run
  gather_one-raised tool error params g e key id =
      rw (gather_one, e, run_tool_with_evidence, record_evidence_run, insert_run, key, id)
        (refl, refl, refl, refl)
