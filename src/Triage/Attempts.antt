-- ===== src/Triage/Attempts.antt =====
-- What every payload has that a triage by the model returns.
use support_triage_llm.Base.{
  ℕ, zero, suc, String, ◌≡◌, sym, ◌∙◌, ap, ok-injective, ◌⊎◌, inl, inr, Option, none, Result, ok,
  err, >>=-eq-ok, Option-cases,
}
use support_triage_llm.TimeWindow.Dates.{ParseError}
use support_triage_llm.Triage.Extract.{Failure, retryable, fatal, TriageError}
use support_triage_llm.Triage.Payload.{Payload}
use support_triage_llm.Triage.Rules.{enrich_from_heuristic}
use support_triage_llm.Triage.Model.{
  Libraries, Subject, Triaged, validate_with_retry, fix_answer, keep_allowed, as_retryable,
  as_fatal, complete_answer, with_raw_prefix, parse_answer, judge_triage, resume_triage,
  retry_prompt, triage_attempts,
}

-- A payload that validates passes the schema, as it came or as the fixer left it.
pub validate_with_retry-ok :
    (check : Payload → Option String) (fixer : Payload → Payload) (p q : Payload)
    → validate_with_retry check fixer p ≡ ok q
    → (check q ≡ none) × (((check p ≡ none) × (q ≡ p)) ⊎ (q ≡ fixer p))
unfolding validate_with_retry
validate_with_retry-ok check fixer p q h = elim (Option-cases (check p)) [
  | inl e ↦
      let same = ok-injective {E = String} p q (rw (validate_with_retry, e) at h) in
      (ap check (sym same) ∙ e, inl (e, sym same))
  | inr (s, e) ↦ elim (Option-cases (check (fixer p))) [
    | inl c ↦
        let same = ok-injective {E = String} (fixer p) q (rw (validate_with_retry, e, c) at h) in
        (ap check (sym same) ∙ c, inr (sym same))
    | inr (s', c) ↦ absurd (cc (rw (validate_with_retry, e, c) at h))
  ]
]

as_retryable-ok : {A : Type 0} (r : Result String A) (a : A) → as_retryable r ≡ ok a → r ≡ ok a
unfolding as_retryable
as_retryable-ok (ok b) a h = cc
as_retryable-ok (err e) a h = cc

as_fatal-ok :
    {A : Type 0} (f : ParseError → String) (r : Result ParseError A) (a : A)
    → as_fatal f r ≡ ok a
    → r ≡ ok a
unfolding as_fatal
as_fatal-ok f (ok b) a h = cc
as_fatal-ok f (err e) a h = cc

module _ (l : Libraries) (s : Subject) where
  with_raw_prefix-ok :
      (raw : String) (r : Result Failure Payload) (p : Payload)
      → with_raw_prefix l s raw r ≡ ok p
      → r ≡ ok p
  unfolding with_raw_prefix
  with_raw_prefix-ok raw (ok q) p h = h
  with_raw_prefix-ok raw (err (fatal e)) p h = cc
  with_raw_prefix-ok raw (err (retryable e)) p h = cc

  judge_triage-ok :
      (r : Result Failure String) (p : Payload)
      → judge_triage l s r ≡ ok p
      → (answer : Payload) × (complete_answer l s answer ≡ ok p)
  unfolding judge_triage
  judge_triage-ok (err e) p h = absurd (cc (with_raw_prefix-ok "" (err e) p h))
  judge_triage-ok (ok raw) p h =
      let (answer, _, done) =
        >>=-eq-ok (parse_answer l s raw) (complete_answer l s) p (with_raw_prefix-ok raw _ p h) in
      (answer, done)

  resume_triage-ok :
      (again : String → Result TriageError Triaged) (n : ℕ) (r : Result Failure Payload)
      (t : Triaged)
      → resume_triage l s again n r ≡ ok t
      → (r ≡ ok t.payload) ⊎ ((e : String) × (again e ≡ ok t))
  unfolding resume_triage
  resume_triage-ok again n (ok p) t h = inl cc
  resume_triage-ok again n (err (fatal e)) t h = cc
  resume_triage-ok again n (err (retryable e)) t h = inr (e, h)

  -- What every completed answer has, every triage by the model has.
  pub triage_attempts-holds :
      (P : Payload → Type 0)
      → ((answer p : Payload) → complete_answer l s answer ≡ ok p → P p)
      → (call : ℕ → String → Result Failure String) (base : String) (n attempt : ℕ) (last : String)
        (t : Triaged)
      → triage_attempts l s call base n attempt last ≡ ok t
      → P t.payload
  unfolding triage_attempts
  triage_attempts-holds P holds call base zero attempt last t h = cc
  triage_attempts-holds P holds call base (suc n) attempt last t h =
      elim (resume_triage-ok (triage_attempts l s call base n (suc attempt)) (suc attempt)
        (judge_triage l s (call attempt (retry_prompt l s base last))) t h) [
          | inl e ↦
              let (answer, done) = judge_triage-ok _ t.payload e in holds answer t.payload done
          | inr (e, k) ↦ triage_attempts-holds P holds call base n (suc attempt) e t k
        ]

  -- A completed answer was validated and filled in.
  pub complete_answer-ok :
      (answer p : Payload)
      → complete_answer l s answer ≡ ok p
      → (q : Payload) × (validate_with_retry l.check
            (fix_answer s.seen.has_email s.text)
            (keep_allowed answer)
          ≡ ok q)
        × (enrich_from_heuristic l.calendar s.text s.hint s.now s.seen q ≡ ok p)
  unfolding complete_answer as_retryable as_fatal
  complete_answer-ok answer p h =
      let (q, valid, rest) =
        >>=-eq-ok
          (as_retryable (
            validate_with_retry l.check (fix_answer s.seen.has_email s.text) (keep_allowed answer)))
          _ p h in
      (q, as_retryable-ok _ q valid, as_fatal-ok l.error_text _ p rest)
