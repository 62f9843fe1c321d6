-- ===== src/Triage/Reported.antt =====
-- What becomes of the time that a model says was reported.
use support_triage_llm.Base.{
  ℕ, String, ◌≡◌, refl, ◌∙◌, ◌≢◌, inl, inr, Bool, none, some, Result, ok, ok-injective, >>=-eq-ok,
  Bool-cases,
}
use support_triage_llm.TimeWindow.Dates.{ParseError, Today}
use support_triage_llm.Triage.Extract.{Failure}
use support_triage_llm.Triage.Payload.{Payload, default_reported, set_default}
use support_triage_llm.Triage.Time.{Seen, Calendar, window_of}
use support_triage_llm.Triage.Rules.{
  backfill, enrich_from_heuristic, base_triage_payload, lacks_window, fill_window,
}
use support_triage_llm.Triage.Model.{
  Libraries, Subject, Triaged, fix_answer, fix_heuristic, keep_allowed, complete_answer, triage_llm,
}
use support_triage_llm.Triage.Attempts.{
  validate_with_retry-ok, complete_answer-ok, triage_attempts-holds,
}

-- Filling in the window changes the window and its reason alone.
pub fill_window-ok :
    (c : Calendar) (text : String) (now : Today) (seen : Seen) (p q : Payload)
    → fill_window c text now seen p ≡ ok q
    → (q.reported_time_window ≡ p.reported_time_window)
      × (q.time_ambiguity ≡ p.time_ambiguity)
      × (q.missing_info_questions ≡ p.missing_info_questions)
unfolding fill_window
fill_window-ok c text now seen p q h = elim (Bool-cases (lacks_window p.time_window)) [
  | inl e ↦
      let (w, _, k) = >>=-eq-ok (window_of c text now seen.found) _ q (rw (fill_window, e) at h) in
      let same =
        ok-injective {E = ParseError}
          (record p { time_window = some w.0; time_window_reason = some w.1 }) q k in
      rw (← same) (refl, refl, refl)
  | inr e ↦ rw (ok-injective {E = ParseError} p q (rw (fill_window, e) at h)) (refl, refl, refl)
]

pub enrich_from_heuristic-ok :
    (c : Calendar) (text hint : String) (now : Today) (seen : Seen) (q p : Payload)
    → enrich_from_heuristic c text hint now seen q ≡ ok p
    → (base : Payload) × (base_triage_payload c text hint now seen ≡ ok base)
      × (p.reported_time_window ≡ (backfill seen base q).reported_time_window)
      × (p.time_ambiguity ≡ (backfill seen base q).time_ambiguity)
      × (p.missing_info_questions ≡ (backfill seen base q).missing_info_questions)
unfolding enrich_from_heuristic
enrich_from_heuristic-ok c text hint now seen q p h =
    let (base, e, k) = >>=-eq-ok (base_triage_payload c text hint now seen) _ p h in
    let (a, b, d) = fill_window-ok c text now seen (backfill seen base q) p k in (base, e, a, b, d)

abbrev pub IsUnreported : Payload → Type 0
IsUnreported p =
    (p.reported_time_window ≡ some default_reported) × (p.time_ambiguity ≡ some "missing_date")

backfill-IsUnreported :
    (seen : Seen) (base p : Payload) → IsUnreported p → IsUnreported (backfill seen base p)
unfolding backfill
backfill-IsUnreported seen base p (a, b) = (rw a refl, rw b refl)

fix_answer-IsUnreported :
    (has_email : Bool) (text : String) (p : Payload)
    → IsUnreported (fix_answer has_email text (keep_allowed p))
unfolding fix_answer fix_heuristic keep_allowed set_default
fix_answer-IsUnreported has_email text p = (refl, refl)

-- Where the schema requires a reported time, every triage by the model has the default one, which says
-- that nothing was reported and that the date is missing, whatever the model answered.
pub triage_llm-unreported :
    (l : Libraries) (s : Subject) (call : ℕ → String → Result Failure String) (base : String)
    (t : Triaged)
    → ((p : Payload) → p.reported_time_window ≡ none → l.check p ≢ none)
    → triage_llm l s call base ≡ ok t
    → (t.payload.reported_time_window ≡ some default_reported)
      × (t.payload.time_ambiguity ≡ some "missing_date")
unfolding triage_llm keep_allowed
triage_llm-unreported l s call base t required h =
    triage_attempts-holds l s IsUnreported completed call base 2 0 "" t h
  where
    completed : (answer p : Payload) → complete_answer l s answer ≡ ok p → IsUnreported p
    completed answer p k =
        let (q, valid, rest) = complete_answer-ok l s answer p k in
        let (b, _, r, a, _) =
          enrich_from_heuristic-ok l.calendar s.text s.hint s.now s.seen q p rest in
        let (_, came) =
          validate_with_retry-ok l.check (fix_answer s.seen.has_email s.text) (keep_allowed answer)
            q valid in
        elim came [
          | inl (passed, _) ↦ absurd (required (keep_allowed answer) refl passed)
          | inr same ↦
              let (r', a') =
                backfill-IsUnreported s.seen b q
                  (rw same (fix_answer-IsUnreported s.seen.has_email s.text answer)) in
              (r ∙ r', a ∙ a')
        ]
