-- ===== src/Triage/Model.antt =====
-- The triage by a language model in app/triage_service.py, with app/validation.py. An answer is read
-- as the members of the schema. A member that is null and that the fixer replaces, like one that is
-- missing, is read as missing.
use support_triage_llm.Base.{
  ℕ, zero, suc, String, Bool, Option, none, some, [], ◌∷◌, str_eq, if◌then◌else◌, Result, ok, err,
  ◌>>=◌,
}
use support_triage_llm.Base.Text.{concat, prefix}
use support_triage_llm.TimeWindow.Dates.{Today, ParseError}
use support_triage_llm.Triage.Extract.{
  extract_json_block, Failure, retryable, fatal, TriageError, rejected, crashed,
}
use support_triage_llm.Triage.Payload.{
  Scope, Reply, Payload, text_or, set_default, default_reported,
}
use support_triage_llm.Triage.Infer.{infer_case_type, infer_severity}
use support_triage_llm.Triage.Time.{Seen, Calendar}
use support_triage_llm.Triage.Rules.{no_scope, base_triage_payload, enrich_from_heuristic}

-- validate_with_retry, with a fixer; `check` is `validate_payload`
unfoldable pub validate_with_retry :
    (Payload → Option String) → (Payload → Payload) → Payload → Result String Payload
validate_with_retry check fixer p = elim (check p) [
  | none ↦ ok p
  | some e ↦ elim (check (fixer p)) [ none ↦ ok (fixer p) | some e' ↦ err e' ]
]

-- the fixer of the triage by rules
unfoldable pub fix_heuristic : Payload → Payload
unfolding set_default default_reported
fix_heuristic p = record p {
  examples = set_default [] p.examples;
  suggested_tools = set_default [] p.suggested_tools;
  missing_info_questions = set_default [] p.missing_info_questions;
  symptoms = set_default [] p.symptoms;
  reported_time_window = set_default default_reported p.reported_time_window;
  time_ambiguity = set_default "missing_date" p.time_ambiguity;
}

unfoldable pub fix_scope : Option Scope → Scope
unfolding no_scope set_default
fix_scope none = record no_scope { notes = some "" }
fix_scope (some s) = record s { notes = set_default "" s.notes }

unfoldable pub fix_draft : Option Reply → Reply
unfolding text_or
fix_draft none = record { subject = some ""; body = some "" }
fix_draft (some d) = record {
  subject = some (text_or d.subject "");
  body = some (text_or d.body "");
}

-- the fixer of the model's answers
unfoldable pub fix_answer : Bool → String → Payload → Payload
unfolding fix_heuristic fix_scope fix_draft set_default text_or infer_case_type infer_severity
fix_answer has_email text p = record (fix_heuristic p) {
  case_type = some (text_or p.case_type (infer_case_type has_email text));
  severity = some (text_or p.severity (infer_severity text));
  time_window =
      set_default (record { start = none; end = none; confidence = some 10 }) p.time_window;
  scope = some (fix_scope p.scope);
  draft_customer_reply = some (fix_draft p.draft_customer_reply);
}

-- Of the members of the schema, the reported window and its ambiguity are not among the keys that are
-- kept; the reason is no member of the schema.
unfoldable pub keep_allowed : Payload → Payload
keep_allowed p = record p {
  reported_time_window = none;
  time_ambiguity = none;
  time_window_reason = none;
  suggested_tools = some [];
}

-- The libraries: `json.loads` with the reading of what it gives, the text of its error, jsonschema with schemas/triage.schema.json, `repr`,
-- and the text of a `ValueError`.
pub record Libraries : Type 0 where
  pub loads : String → Option (Result Failure Payload)
  pub decode_error : String → String
  pub check : Payload → Option String
  pub calendar : Calendar
  pub repr : String → String
  pub error_text : ParseError → String

-- the triage of one text, and the hint at its tenant
pub record Subject : Type 0 where
  pub text : String
  pub hint : String
  pub now : Today
  pub seen : Seen

pub record Triaged : Type 0 where
  pub payload : Payload
  pub triage_mode : String
  pub llm_attempts : ℕ

-- a SchemaValidationError in an attempt
unfoldable pub as_retryable {ℓ} : {A : Type ℓ} → Result String A → Result Failure A
as_retryable (ok a) = ok a
as_retryable (err e) = err (retryable e)

-- a ValueError in an attempt
unfoldable pub as_fatal {ℓ} :
    {A : Type ℓ} → (ParseError → String) → Result ParseError A → Result Failure A
as_fatal error_text (ok a) = ok a
as_fatal error_text (err e) = err (fatal (error_text e))

-- a ValueError that is not caught, as its text
unfoldable pub worded {ℓ} :
    {A : Type ℓ} → (ParseError → String) → Result ParseError A → Result TriageError A
worded error_text (ok a) = ok a
worded error_text (err e) = err (crashed (error_text e))

-- a SchemaValidationError that is not caught
unfoldable pub as_rejected {ℓ} : {A : Type ℓ} → Result String A → Result TriageError A
as_rejected (ok a) = ok a
as_rejected (err e) = err (rejected e)

module _ (l : Libraries) (s : Subject) where
  unfoldable pub triage_heuristic : Result TriageError Triaged
  unfolding base_triage_payload validate_with_retry fix_heuristic worded as_rejected
  triage_heuristic =
      worded l.error_text (base_triage_payload l.calendar s.text s.hint s.now s.seen) >>= (λ p.
        as_rejected (validate_with_retry l.check fix_heuristic p)
        >>= (λ q. ok (record { payload = q; triage_mode = "heuristic"; llm_attempts = 0 })))

  -- a parsed answer: validated, fixed once, and filled in
  unfoldable pub complete_answer : Payload → Result Failure Payload
  unfolding validate_with_retry fix_answer keep_allowed enrich_from_heuristic as_retryable as_fatal
  complete_answer p =
      as_retryable
        (validate_with_retry l.check (fix_answer s.seen.has_email s.text) (keep_allowed p))
      >>= (λ q.
          as_fatal l.error_text (enrich_from_heuristic l.calendar s.text s.hint s.now s.seen q))

  -- the error that the next prompt quotes, with the start of the answer
  unfoldable pub with_raw_prefix {κ} : {A : Type κ} → String → Result Failure A → Result Failure A
  unfolding prefix
  with_raw_prefix raw (ok a) = ok a
  with_raw_prefix raw (err (fatal e)) = err (fatal e)
  with_raw_prefix raw (err (retryable e)) =
      err (retryable (concat (e ∷ "; raw_prefix=" ∷ l.repr (prefix 100 raw) ∷ [])))

  -- Of an answer that is JSON, `loads` gives the document, or the exception that it leads to: fatal where
  -- it is no object or its scope is null (AttributeError, which is not caught), retryable where the
  -- schema refuses a member that the fixer leaves.
  unfoldable pub parse_answer : String → Result Failure Payload
  unfolding extract_json_block
  parse_answer raw = elim (extract_json_block l.loads raw) [
    | none ↦ err (retryable (l.decode_error raw))
    | some r ↦ r
  ]

  -- the body of the `try`, and the error of its `except`
  unfoldable pub judge_triage : Result Failure String → Result Failure Payload
  unfolding parse_answer complete_answer with_raw_prefix
  judge_triage (err e) = with_raw_prefix "" (err e)
  judge_triage (ok raw) = with_raw_prefix raw (parse_answer raw >>= complete_answer)

  -- what follows an attempt: `again` is the loop from the next one
  unfoldable pub resume_triage :
      (String → Result TriageError Triaged)
      → ℕ
      → Result Failure Payload
      → Result TriageError Triaged
  resume_triage again n (ok p) = ok (record { payload = p; triage_mode = "llm"; llm_attempts = n })
  resume_triage again n (err (fatal e)) = err (crashed e)
  resume_triage again n (err (retryable e)) = again e

  unfoldable pub retry_prompt : String → String → String
  retry_prompt base last_error =
      if str_eq last_error ""
      then base
      else concat (
          base ∷ "\nPrevious attempt failed schema validation: " ∷ last_error
          ∷ "\nReturn ONLY valid JSON." ∷ [])

  -- `call` is `_call_ollama`, which may answer each attempt differently.
  module _ (call : ℕ → String → Result Failure String) (base : String) where
    unfoldable pub triage_attempts : ℕ → ℕ → String → Result TriageError Triaged
    unfolding judge_triage resume_triage retry_prompt
    triage_attempts zero attempt last_error = err (
        rejected
          (if str_eq last_error "" then "LLM could not produce schema-valid JSON" else last_error))
    triage_attempts (suc n) attempt last_error =
        resume_triage (triage_attempts n (suc attempt)) (suc attempt)
          (judge_triage (call attempt (retry_prompt base last_error)))

    unfoldable pub triage_llm : Result TriageError Triaged
    unfolding triage_attempts
    triage_llm = triage_attempts 2 0 ""
