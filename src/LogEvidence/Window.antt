-- ===== src/LogEvidence/Window.antt =====
-- The incident window of a bundle lies in the window asked about.
use support_triage_llm.Base.{
  ℕ, ◌≤◌, String, List, [], ◌∷◌, keep, leb→le, arith, All, All-keep, All-keep_test, All-map,
  All-if_else, str_eq,
}
use support_triage_llm.LogEvidence.Entries.{
  LogEntry, query, in_window, first_ts, last_ts, select_incident_entries, is_error, is_timeout,
  is_outage,
}
use support_triage_llm.LogEvidence.Run.{
  Params, run_log_evidence, assess, window_of, stamp_or, text_or, query_tenant, query_service,
}

first_ts-le-last_ts :
    (a b : ℕ) (e : LogEntry) (es : List LogEntry) → first_ts a (e ∷ es) ≤ last_ts b (e ∷ es)
unfolding first_ts last_ts
first_ts-le-last_ts a b e [] = omega arith
first_ts-le-last_ts a b e (f ∷ es) = omega (arith, first_ts-le-last_ts a b f es)

module _ (lo hi : ℕ) where
  InRange : LogEntry → Type 0
  InRange e = (lo ≤ e.ts) × (e.ts ≤ hi)

  first_ts-ge :
      (d : ℕ) (e : LogEntry) (es : List LogEntry) → All InRange (e ∷ es) → first_ts d (e ∷ es) ≤ hi
  unfolding first_ts InRange
  first_ts-ge d e [] h = h.0.1
  first_ts-ge d e (f ∷ es) h = omega (arith, h.0.1, first_ts-ge d f es h.1)

  last_ts-ge :
      (d : ℕ) (e : LogEntry) (es : List LogEntry) → All InRange (e ∷ es) → lo ≤ last_ts d (e ∷ es)
  unfolding last_ts InRange
  last_ts-ge d e [] h = h.0.0
  last_ts-ge d e (f ∷ es) h = omega (arith, h.0.0, last_ts-ge d f es h.1)

  in_window-InRange : (xs : List LogEntry) → All InRange (keep (in_window lo hi) xs)
  unfolding in_window InRange
  in_window-InRange xs =
      All-map (keep (in_window lo hi) xs)
        (λ e h. (leb→le lo e.ts (ground arith), leb→le e.ts hi (ground arith)))
        (All-keep_test (in_window lo hi) xs)

  select_incident_entries-InRange :
      (xs : List LogEntry) (query_type : String)
      → All InRange xs
      → All InRange (select_incident_entries xs query_type)
  unfolding select_incident_entries
  select_incident_entries-InRange xs query_type h =
      All-if_else InRange (str_eq query_type "errors") _ _ (All-keep InRange is_error xs h) (
        All-if_else InRange (str_eq query_type "timeouts") _ _ (All-keep InRange is_timeout xs h)
          (All-keep InRange is_outage xs h))

  Inside : ℕ × ℕ → Type 0
  Inside w = (lo ≤ w.0) × (w.0 ≤ w.1) × (w.1 ≤ hi)

  window_of-Inside :
      (filtered incident_entries : List LogEntry)
      → lo ≤ hi
      → All InRange filtered
      → All InRange incident_entries
      → Inside (window_of lo hi filtered incident_entries)
  unfolding window_of Inside last_ts
  window_of-Inside (e ∷ filtered) es le h k = (
    omega arith,
    omega (
      arith,
      le,
      first_ts-ge lo e filtered h,
      last_ts-ge hi e filtered h,
      first_ts-le-last_ts lo hi e filtered,
    ),
    omega arith,
  )
  window_of-Inside [] (e ∷ es) le h k =
      (omega arith, omega (arith, le, last_ts-ge hi e es k), omega arith)
  window_of-Inside [] [] le h k = (omega arith, omega (arith, le), omega arith)

module _ (redact : String → String) where
  -- The incident window that a bundle reports lies in the one asked about, and does not end before
  -- it starts, provided the one asked about does not either.
  pub run_log_evidence_window :
      (p : Params) (log : List LogEntry)
      → stamp_or p.incident_start p.start ≤ stamp_or p.incident_end p.end
      → let w = (run_log_evidence redact p log).incident_window in
        (stamp_or p.incident_start p.start ≤ w.0)
        × (w.0 ≤ w.1)
        × (w.1 ≤ stamp_or p.incident_end p.end)
  unfolding run_log_evidence assess Inside
  run_log_evidence_window p log le =
      let lo = stamp_or p.incident_start p.start in
      let hi = stamp_or p.incident_end p.end in
      let h =
        in_window-InRange lo hi (query (query_tenant p) (query_service p) p.start p.end log) in
      window_of-Inside lo hi _ _ le
        (select_incident_entries-InRange lo hi _ (text_or p.query_type "errors") h) h
