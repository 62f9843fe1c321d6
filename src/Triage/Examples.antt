-- ===== src/Triage/Examples.antt =====
-- Triages of some texts, with a toy JSON and a toy calendar.
use support_triage_llm.Base.{
  ℕ, ◌+◌, String, ◌≡◌, refl, ◌≢◌, Option, none, some, [], ◌∷◌, Result, ok, err, true, false, leb,
  str_eq, ◌&&◌, if◌then◌else◌,
}
use support_triage_llm.Base.Text.{begins_with}
use support_triage_llm.TimeWindow.Parse.{parse_time_window, mentions_today, mentions_yesterday}
use support_triage_llm.Triage.Extract.{Failure, extract_json_block, TriageError}
use support_triage_llm.Triage.Payload.{Window, Payload, default_reported, is_empty}
use support_triage_llm.Triage.Infer.{infer_case_type}
use support_triage_llm.Triage.Time.{Seen, Calendar, is_implausible}
use support_triage_llm.Triage.Rules.{requires_more_info, is_severe}
use support_triage_llm.Triage.Model.{Libraries, Subject, Triaged, triage_llm}
use support_triage_llm.Triage.Finish.{Outcome, finish_triage, triage}
use support_triage_llm.Triage.Routing.{triage-weak, finish_triage-overridden}
use support_triage_llm.Triage.Reported.{triage_llm-unreported}
use support_triage_llm.Triage.Questions.{triage-asks}
use support_triage_llm.Triage.Prose.{occurs, extract_json_block-prose}

abbrev calendar : Calendar
calendar = record {
  date_number = λ y m d. if leb 1 d && leb d 28 then some (d + 100) else none;
  isoformat = λ t. "2024-02-10T00:00:00Z";
  fromisoformat = λ s. if str_eq s "2021-01-01T00:00:00Z" then some 1609459200 else none;
  year_of = λ t. if leb t 1640995199 then 2021 else 2024;
}

-- a schema that asks for the reported time alone
abbrev check : Payload → Option String
check p = elim p.reported_time_window [ none ↦ some "missing reported_time_window" | some r ↦ none ]

abbrev critical_answer : Payload
critical_answer = record {
  case_type = some "incident";
  severity = some "critical";
  time_window =
      some (record { start = some "2021-01-01T00:00:00Z"; end = none; confidence = some 90 });
  reported_time_window = none;
  time_ambiguity = none;
  scope = some (record {
    affected_tenants = some ("acme" ∷ []);
    affected_users = none;
    affected_recipients = none;
    recipient_domains = none;
    is_all_users = none;
    notes = none;
  });
  symptoms = none;
  examples = none;
  missing_info_questions = none;
  suggested_tools = none;
  draft_customer_reply = none;
  time_window_reason = none;
}

abbrev libraries : Libraries
libraries = record {
  loads = λ s. if begins_with "{" s then some (ok critical_answer) else none;
  decode_error = λ s. "Expecting value";
  check = check;
  calendar = calendar;
  repr = λ s. s;
  error_text = λ e. "day is out of range for month";
}

abbrev seen : Seen
seen = record {
  found = record {
    iso = none;
    clock = none;
    clock_range = none;
    date_only = none;
    month_day = none;
  };
  iso = none;
  time_range = none;
  clock = none;
  has_explicit_date = false;
  domains = [];
  has_email = false;
}

abbrev subject : Subject
subject = record {
  text = "urgent: site down";
  hint = "";
  now = record { year = 2024; month = 2; day_number = 110 };
  seen = seen;
}

abbrev call : ℕ → String → Result Failure String
call n prompt = ok "Here it is: {}"

abbrev severity_of : Result TriageError Outcome → Option String
severity_of (ok o) = o.payload.severity
severity_of (err e) = none

abbrev got {ℓ} : {A : Type ℓ} → A → Result TriageError A → A
got d (ok a) = a
got d (err e) = d

abbrev triaged : Triaged
triaged = record { payload = critical_answer; triage_mode = "llm"; llm_attempts = 1 }

abbrev blank : Outcome
blank = record {
  payload = critical_answer;
  meta = record {
    triage_mode = "";
    llm_attempts = 0;
    redaction_applied = false;
    redacted_text = "";
    case_id = "";
    time_window_source = "";
    time_window_sanity_overridden = true;
    time_window_reason = "";
  };
}

case_type_test : infer_case_type false "The site is down, site down since noon" ≡ "incident"
unfolding infer_case_type
case_type_test = refl

-- "capital" has "api" in it.
capital_test : infer_case_type false "Cannot update our capital letters" ≡ "integration"
unfolding infer_case_type
capital_test = refl

severity_test :
    severity_of (triage libraries subject false 1707523200 "c1" false call "") ≡ some "medium"
unfolding triage parse_time_window mentions_yesterday mentions_today
severity_test = refl

overridden_test :
    severity_of (triage libraries subject false 1707523200 "c1" true call "") ≡ some "critical"
unfolding triage parse_time_window
overridden_test = refl

abbrev by_rules : Outcome
by_rules = got blank (triage libraries subject false 1707523200 "c1" false call "")

triage-weak_example : is_severe by_rules.payload.severity ≡ false
unfolding triage parse_time_window mentions_yesterday mentions_today
triage-weak_example =
    triage-weak libraries subject false 1707523200 "c1" false call "" by_rules refl refl refl

triage-asks_example : is_empty by_rules.payload.missing_info_questions ≡ false
unfolding triage parse_time_window
triage-asks_example =
    triage-asks libraries subject false 1707523200 "c1" false call "" by_rules refl

abbrev far : Window
far = record { start = some "2021-01-01T00:00:00Z"; end = none; confidence = some 90 }

finish_triage-overridden_example :
    (out : Outcome) × (finish_triage libraries subject false 1707523200 "c1" "llm" (ok triaged)
      ≡ ok out)
    × (out.meta.time_window_sanity_overridden ≡ true)
    × (requires_more_info out.payload ≡ true)
    × (out.payload.severity ≡ some "critical")
unfolding requires_more_info is_implausible
finish_triage-overridden_example =
    finish_triage-overridden libraries subject false 1707523200 "c1" "llm" triaged far
      "2021-01-01T00:00:00Z" refl refl refl (λ h. cc h) refl refl

required : (p : Payload) → p.reported_time_window ≡ none → check p ≢ none
required p e h = cc (rw e at h)

abbrev by_model : Triaged
by_model = got triaged (triage_llm libraries subject call "")

triage_llm-unreported_example :
    (by_model.payload.reported_time_window ≡ some default_reported)
    × (by_model.payload.time_ambiguity ≡ some "missing_date")
unfolding triage_llm parse_time_window
triage_llm-unreported_example =
    triage_llm-unreported libraries subject call "" by_model required refl

abbrev loads : String → Option ℕ
loads s = if begins_with "{" s then some 7 else none

extract_json_block-prose_example : extract_json_block loads "Sure: {x} done" ≡ some 7
unfolding begins_with occurs
extract_json_block-prose_example =
    extract_json_block-prose loads (λ n. "{x}") 7 "Sure: " "x" " done" refl refl refl refl refl
