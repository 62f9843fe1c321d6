-- ===== src/Worker/BadDate.antt =====
-- A message with a date that does not exist, from the parser of times to the outcome of the triage.
use support_triage_llm.Base.{ℕ, String, ◌≡◌, refl, Bool, false, none, some, Result, err}
use support_triage_llm.TimeWindow.Dates.{value_error}
use support_triage_llm.TimeWindow.Raises.{parse_time_window-raises}
use support_triage_llm.Triage.Extract.{Failure, crashed}
use support_triage_llm.Triage.Time.{window_of, extract_time_fields}
use support_triage_llm.Triage.Rules.{base_triage_payload}
use support_triage_llm.Triage.Model.{Libraries, Subject, triage_heuristic, worded}
use support_triage_llm.Triage.Finish as Finished
use support_triage_llm.Triage.Finish.{finish_triage, triage}
use support_triage_llm.Worker.Retry.{Outcome, failure}
use support_triage_llm.Worker.Analysis.{after_triage}

module _ (l : Libraries) (s : Subject) (y m d : ℕ) (no_iso : s.seen.found.iso ≡ none)
    (no_range : s.seen.found.clock_range ≡ none) (dated : s.seen.found.date_only ≡ some (y, m, d))
    (absent : l.calendar.date_number y m d ≡ none) where
  base-crashes : base_triage_payload l.calendar s.text s.hint s.now s.seen ≡ err value_error
  unfolding base_triage_payload extract_time_fields window_of
  base-crashes =
      rw
        (
          base_triage_payload,
          extract_time_fields,
          window_of,
          parse_time_window-raises l.calendar.date_number s.text s.now s.seen.found y m d no_iso
              no_range dated absent,
        )
        refl

  triage-crashes :
      (applied : Bool) (anchor : ℕ) (case_id : String) (call : ℕ → String → Result Failure String)
      (base : String)
      → triage l s applied anchor case_id false call base ≡ err (crashed (l.error_text value_error))
  unfolding triage finish_triage triage_heuristic worded
  triage-crashes applied anchor case_id call base = rw (triage, triage_heuristic, base-crashes) refl

-- A message that is triaged by rules, that names a date which does not exist, and that has no ISO time
-- and no range, fails every triage with one and the same error, whatever follows the triage.
pub after_triage-bad_date :
    (l : Libraries) (s : Subject) (y m d : ℕ)
    → s.seen.found.iso ≡ none
    → s.seen.found.clock_range ≡ none
    → s.seen.found.date_only ≡ some (y, m, d)
    → l.calendar.date_number y m d ≡ none
    → (error : String) × ((rest : Finished.Outcome → Outcome) (applied : Bool) (anchor : ℕ)
          (case_id : String) (call : ℕ → String → Result Failure String) (base : String)
        → after_triage rest (triage l s applied anchor case_id false call base) ≡ failure error)
unfolding after_triage
after_triage-bad_date l s y m d a b c e = (
  l.error_text value_error,
  λ rest applied anchor case_id call base.
      rw (triage-crashes l s y m d a b c e applied anchor case_id call base) refl,
)
