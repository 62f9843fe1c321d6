-- ===== src/Triage/Finish.antt =====
-- `triage` of app/triage_service.py: the triage of a redacted message, routed by confidence, its window
-- made plausible, and its redactions kept. `_meta` holds what is read of it.
use support_triage_llm.Base.{
  ℕ, String, Bool, not, ◌&&◌, Option, none, some, List, [], ◌∷◌, any, str_eq, if◌then◌else◌, Result,
  ok, err,
}
use support_triage_llm.Base.Text.{contains, concat, prefix, strip}
use support_triage_llm.Triage.Extract.{Failure, TriageError}
use support_triage_llm.Triage.Payload.{Window, Reply, Payload, text_or}
use support_triage_llm.Triage.Time.{sanitize_time_window}
use support_triage_llm.Triage.Rules.{apply_confidence_routing}
use support_triage_llm.Triage.Model.{Libraries, Subject, Triaged, triage_heuristic, triage_llm}

pub record TriageMeta : Type 0 where
  pub triage_mode : String
  pub llm_attempts : ℕ
  pub redaction_applied : Bool
  pub redacted_text : String
  pub case_id : String
  pub time_window_source : String
  pub time_window_sanity_overridden : Bool
  pub time_window_reason : String

pub record Outcome : Type 0 where
  pub payload : Payload
  pub meta : TriageMeta

unfoldable pub window_or : Option Window → Window
window_or none = record { start = none; end = none; confidence = some 10 }
window_or (some w) = w

unfoldable pub window_reason : Bool → Window → Option String → String
unfolding text_or
window_reason overridden w reason =
    if overridden
    then "sanity_override"
    else if str_eq (text_or w.start "") "" && str_eq (text_or w.end "") ""
    then "parsed_none"
    else text_or reason "parsed_none"

-- the symptoms, with the redacted snippet first unless one shows a redaction
unfoldable pub keep_symptoms : String → Option (List String) → List String
unfolding contains
keep_symptoms snippet none = snippet ∷ []
keep_symptoms snippet (some []) = snippet ∷ []
keep_symptoms snippet (some (s ∷ ss)) =
    if any (contains "[REDACTED") (s ∷ ss) then s ∷ ss else snippet ∷ ss

unfoldable pub excerpt_body : String → String → String
unfolding strip
excerpt_body snippet body = strip (concat (strip body ∷ "\n\nRedacted excerpt: " ∷ snippet ∷ []))

unfoldable pub keep_draft : String → Option Reply → Option Reply
unfolding excerpt_body text_or contains
keep_draft snippet none =
    if contains "[REDACTED" snippet
    then some (record { subject = none; body = some (excerpt_body snippet "") })
    else none
keep_draft snippet (some d) =
    if contains "[REDACTED" snippet && not (contains "[REDACTED" (text_or d.body ""))
    then some (record d { body = some (excerpt_body snippet (text_or d.body "")) })
    else some d

-- the redacted text, and whether it differs from the message
unfoldable pub keep_redactions : String → Bool → Payload → Payload
unfolding keep_symptoms keep_draft prefix
keep_redactions text applied p =
    if applied && not (str_eq text "")
    then record p {
      symptoms = some (keep_symptoms (prefix 200 text) p.symptoms);
      draft_customer_reply = keep_draft (prefix 200 text) p.draft_customer_reply;
    }
    else p

-- The text of `s` is the redacted one, `applied` whether `redact` changed it, and `anchor` the instant
-- that the message was received.
module _ (l : Libraries) (s : Subject) (applied : Bool) (anchor : ℕ) (case_id : String) where
  unfoldable pub finish_window : String → Triaged → Payload → Outcome
  unfolding sanitize_time_window window_or window_reason keep_redactions
  finish_window source t p =
      let (w, overridden) =
        sanitize_time_window l.calendar anchor s.seen.has_explicit_date (window_or p.time_window) in
      record {
        payload = keep_redactions s.text applied (record p { time_window = some w });
        meta = record {
          triage_mode = t.triage_mode;
          llm_attempts = t.llm_attempts;
          redaction_applied = applied;
          redacted_text = s.text;
          case_id = case_id;
          time_window_source = source;
          time_window_sanity_overridden = overridden;
          time_window_reason = window_reason overridden w p.time_window_reason;
        };
      }

  unfoldable pub finish_triage : String → Result TriageError Triaged → Result TriageError Outcome
  unfolding finish_window apply_confidence_routing
  finish_triage source (err e) = err e
  finish_triage source (ok t) =
      ok (finish_window source t (apply_confidence_routing s.seen t.payload))

  -- `is_llm` is TRIAGE_MODE == "llm", `base` the prompt.
  unfoldable pub triage :
      Bool → (ℕ → String → Result Failure String) → String → Result TriageError Outcome
  unfolding finish_triage triage_llm triage_heuristic
  triage is_llm call base =
      if is_llm
      then finish_triage "llm" (triage_llm l s call base)
      else finish_triage "heuristic" (triage_heuristic l s)
