-- ===== src/Triage/Questions.antt =====
-- The questions that a triage asks the customer.
use support_triage_llm.Base.{
  ℕ, ◌≤◌, String, ◌≡◌, refl, ◌⊎◌, inl, inr, Bool, true, false, not, ◌&&◌, Option, none, some, List,
  [], ◌∷◌, ◌++◌, length, take, str_eq, Result, ok, err, ok-injective, >>=-eq-ok, Bool-cases,
  if-holds, if◌then◌else◌, arith,
}
use support_triage_llm.TimeWindow.Dates.{ParseError, Today}
use support_triage_llm.Triage.Extract.{Failure, TriageError}
use support_triage_llm.Triage.Payload.{Reported, Payload, is_empty, set_default, text_or}
use support_triage_llm.Triage.Infer.{
  time_questions, domain_questions, all_questions, build_missing_questions,
}
use support_triage_llm.Triage.Time.{Seen, Calendar, extract_time_fields}
use support_triage_llm.Triage.Rules.{
  base_of, backfill, base_triage_payload, apply_confidence_routing, route_questions,
  requires_more_info,
}
use support_triage_llm.Triage.Model.{
  Libraries, Subject, Triaged, validate_with_retry, fix_heuristic, worded, as_rejected,
  complete_answer, triage_heuristic, triage_llm,
}
use support_triage_llm.Triage.Finish.{
  Outcome, keep_redactions, finish_window, finish_triage, triage,
}
use support_triage_llm.Triage.Attempts.{
  validate_with_retry-ok, complete_answer-ok, triage_attempts-holds,
}
use support_triage_llm.Triage.Reported.{enrich_from_heuristic-ok}

-- one or two questions
IsShort : List String → Type 0
IsShort xs = ((x : String) × (xs ≡ x ∷ [])) ⊎ ((x : String) × ((y : String) × (xs ≡ x ∷ y ∷ [])))

pair-IsShort : (b : Bool) (x y : String) → IsShort (x ∷ (if b then y ∷ [] else []))
unfolding IsShort
pair-IsShort true x y = inr (x, (y, refl))
pair-IsShort false x y = inl (x, refl)

time_questions-IsShort : (r : Reported) (ambiguity : String) → IsShort (time_questions r ambiguity)
unfolding time_questions
time_questions-IsShort r ambiguity =
    if-holds IsShort (str_eq (text_or r.raw_text "") "") _ _ (pair-IsShort false _ "")
      (pair-IsShort (str_eq ambiguity "missing_timezone") _ _)

domain_questions-IsShort : (domains : List String) → IsShort (domain_questions domains)
unfolding domain_questions IsShort
domain_questions-IsShort [] = inl (_, refl)
domain_questions-IsShort (d ∷ ds) = inr (_, (_, refl))

IsWhole : List String → Type 0
IsWhole xs = (take 6 xs ≡ xs) × (4 ≤ length xs) × (length xs ≤ 6)

whole :
    (xs ys : List String) (a b : String)
    → IsShort xs
    → IsShort ys
    → IsWhole (xs ++ (a ∷ (ys ++ (b ∷ []))))
unfolding IsShort IsWhole
whole xs ys a b (inl (x, e)) (inl (y, k)) = rw (e, k) (refl, omega arith, omega arith)
whole xs ys a b (inl (x, e)) (inr (y, (z, k))) = rw (e, k) (refl, omega arith, omega arith)
whole xs ys a b (inr (x, (u, e))) (inl (y, k)) = rw (e, k) (refl, omega arith, omega arith)
whole xs ys a b (inr (x, (u, e))) (inr (y, (z, k))) = rw (e, k) (refl, omega arith, omega arith)

-- There are four to six questions, so that cutting the list at six never drops one.
pub build_missing_questions-whole :
    (domains : List String) (r : Reported) (ambiguity : String)
    → (build_missing_questions domains r ambiguity ≡ all_questions domains r ambiguity)
      × (4 ≤ length (build_missing_questions domains r ambiguity))
      × (length (build_missing_questions domains r ambiguity) ≤ 6)
unfolding build_missing_questions all_questions IsWhole
build_missing_questions-whole domains r ambiguity =
    let (same, low, high) =
      whole _ _ _ _ (time_questions-IsShort r ambiguity) (domain_questions-IsShort domains) in
    (same, rw same low, rw same high)

long-asks : (xs : List String) → 4 ≤ length xs → is_empty (some xs) ≡ false
unfolding is_empty
long-asks [] h = absurd (omega arith)
long-asks (x ∷ xs) h = refl

built-asks :
    (domains : List String) (r : Reported) (ambiguity : String)
    → is_empty (some (build_missing_questions domains r ambiguity)) ≡ false
built-asks domains r ambiguity = long-asks _ (build_missing_questions-whole domains r ambiguity).1

base_triage_payload-asks :
    (c : Calendar) (text hint : String) (now : Today) (seen : Seen) (p : Payload)
    → base_triage_payload c text hint now seen ≡ ok p
    → is_empty p.missing_info_questions ≡ false
unfolding base_triage_payload base_of
base_triage_payload-asks c text hint now seen p h =
    let (t, _, k) =
      >>=-eq-ok (extract_time_fields c text now seen) (λ u. ok (base_of text hint seen u)) p h in
    rw (← ok-injective {E = ParseError} (base_of text hint seen t) p k)
      (built-asks seen.domains t.reported_time_window t.time_ambiguity)

if-asks :
    (q b : Option (List String))
    → is_empty b ≡ false
    → is_empty (if is_empty q then b else q) ≡ false
if-asks q b h = elim (Bool-cases (is_empty q)) [ inl e ↦ rw e h | inr e ↦ rw e e ]

fix-asks :
    (p : Payload)
    → is_empty p.missing_info_questions ≡ false
    → is_empty (fix_heuristic p).missing_info_questions ≡ false
unfolding fix_heuristic set_default is_empty
fix-asks p h =
    elim p.missing_info_questions
        as (λ q. is_empty q ≡ false → is_empty (set_default [] q) ≡ false) [
          | none ↦ λ k. absurd (cc k)
          | some xs ↦ λ k. k
        ]
      h

as_rejected-ok : {A : Type 0} (r : Result String A) (a : A) → as_rejected r ≡ ok a → r ≡ ok a
unfolding as_rejected
as_rejected-ok (ok b) a h = cc
as_rejected-ok (err e) a h = cc

worded-ok :
    {A : Type 0} (f : ParseError → String) (r : Result ParseError A) (a : A)
    → worded f r ≡ ok a
    → r ≡ ok a
unfolding worded
worded-ok f (ok b) a h = cc
worded-ok f (err e) a h = cc

keep_redactions-questions :
    (text : String) (applied : Bool) (p : Payload)
    → (keep_redactions text applied p).missing_info_questions ≡ p.missing_info_questions
unfolding keep_redactions
keep_redactions-questions text applied p = elim (Bool-cases (applied && not (str_eq text ""))) [
  | inl e ↦ rw (keep_redactions, e) refl
  | inr e ↦ rw (keep_redactions, e) refl
]

module _ (l : Libraries) (s : Subject) where
  triage_heuristic-asks :
      (t : Triaged)
      → triage_heuristic l s ≡ ok t
      → is_empty t.payload.missing_info_questions ≡ false
  unfolding triage_heuristic
  triage_heuristic-asks t h =
      let (p, based, rest) =
        >>=-eq-ok (worded l.error_text (base_triage_payload l.calendar s.text s.hint s.now s.seen))
          _ t h in
      let (q, valid, last) =
        >>=-eq-ok (as_rejected (validate_with_retry l.check fix_heuristic p)) _ t rest in
      let asks =
        base_triage_payload-asks l.calendar s.text s.hint s.now s.seen p
          (worded-ok l.error_text _ p based) in
      let same =
        ok-injective {E = TriageError}
          (record { payload = q; triage_mode = "heuristic"; llm_attempts = 0 }) t last in
      rw (← same)
        (elim (validate_with_retry-ok l.check fix_heuristic p q (as_rejected-ok _ q valid)).1 [
          | inl (_, e) ↦ rw e asks
          | inr e ↦ rw e (fix-asks p asks)
        ])

  complete_answer-asks :
      (answer p : Payload)
      → complete_answer l s answer ≡ ok p
      → is_empty p.missing_info_questions ≡ false
  unfolding backfill
  complete_answer-asks answer p h =
      let (q, _, rest) = complete_answer-ok l s answer p h in
      let (b, based, _, _, asked) =
        enrich_from_heuristic-ok l.calendar s.text s.hint s.now s.seen q p rest in
      rw asked (
        if-asks q.missing_info_questions b.missing_info_questions
          (base_triage_payload-asks l.calendar s.text s.hint s.now s.seen b based))

  routing-asks :
      (p : Payload)
      → is_empty p.missing_info_questions ≡ false
      → is_empty (apply_confidence_routing s.seen p).missing_info_questions ≡ false
  unfolding apply_confidence_routing route_questions
  routing-asks p h = elim (Bool-cases (requires_more_info p)) [
    | inl e ↦ rw (apply_confidence_routing, e, route_questions, h) h
    | inr e ↦ rw (apply_confidence_routing, e) h
  ]

  finish_triage-asks :
      (applied : Bool) (anchor : ℕ) (case_id source : String) (r : Result TriageError Triaged)
      (out : Outcome)
      → ((t : Triaged) → r ≡ ok t → is_empty t.payload.missing_info_questions ≡ false)
      → finish_triage l s applied anchor case_id source r ≡ ok out
      → is_empty out.payload.missing_info_questions ≡ false
  unfolding finish_triage finish_window
  finish_triage-asks applied anchor case_id source (err e) out asks h = cc
  finish_triage-asks applied anchor case_id source (ok t) out asks h =
      let q = apply_confidence_routing s.seen t.payload in
      rw
        (
          ← ok-injective {E = TriageError} (finish_window l s applied anchor case_id source t q) out
              h,
          keep_redactions-questions s.text applied _,
        )
        (routing-asks t.payload (asks t refl))

  -- Every triage, by rules or by the model, asks the customer at least one question.
  pub triage-asks :
      (applied : Bool) (anchor : ℕ) (case_id : String) (is_llm : Bool)
      (call : ℕ → String → Result Failure String) (base : String) (out : Outcome)
      → triage l s applied anchor case_id is_llm call base ≡ ok out
      → is_empty out.payload.missing_info_questions ≡ false
  unfolding triage triage_llm
  triage-asks applied anchor case_id true call base out =
      finish_triage-asks applied anchor case_id "llm" (triage_llm l s call base) out (λ t e.
        triage_attempts-holds l s (λ p. is_empty p.missing_info_questions ≡ false)
          complete_answer-asks call base 2 0 "" t e)
  triage-asks applied anchor case_id false call base out =
      finish_triage-asks applied anchor case_id "heuristic" (triage_heuristic l s) out
        triage_heuristic-asks
