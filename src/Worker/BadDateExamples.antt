-- ===== src/Worker/BadDateExamples.antt =====
-- "broken since 2024-13-45".
use support_triage_llm.Base.{ℕ, String, ◌≡◌, refl, Bool, true, false, none, some, [], Result}
use support_triage_llm.Triage.Extract.{Failure}
use support_triage_llm.Triage.Model.{Libraries, Subject}
use support_triage_llm.Triage.Finish as Finished
use support_triage_llm.Triage.Finish.{triage}
use support_triage_llm.Worker.Retry.{Outcome, failure}
use support_triage_llm.Worker.Analysis.{after_triage}
use support_triage_llm.Worker.BadDate.{after_triage-bad_date}

abbrev libraries : Libraries
libraries = record {
  loads = λ s. none;
  decode_error = λ s. "Expecting value";
  check = λ p. none;
  calendar = record {
    date_number = λ y m d. none;
    isoformat = λ t. "";
    fromisoformat = λ s. none;
    year_of = λ t. 2024;
  };
  repr = λ s. s;
  error_text = λ e. "month must be in 1..12";
}

abbrev subject : Subject
subject = record {
  text = "broken since 2024-13-45";
  hint = "";
  now = record { year = 2024; month = 2; day_number = 110 };
  seen = record {
    found = record {
      iso = none;
      clock = none;
      clock_range = none;
      date_only = some (2024, 13, 45);
      month_day = none;
    };
    iso = none;
    time_range = none;
    clock = none;
    has_explicit_date = true;
    domains = [];
    has_email = false;
  };
}

after_triage-bad_date_example :
    (error : String) × ((rest : Finished.Outcome → Outcome) (applied : Bool) (anchor : ℕ)
        (case_id : String) (call : ℕ → String → Result Failure String) (base : String)
      → after_triage rest (triage libraries subject applied anchor case_id false call base)
        ≡ failure error)
after_triage-bad_date_example =
    after_triage-bad_date libraries subject 2024 13 45 refl refl refl refl
