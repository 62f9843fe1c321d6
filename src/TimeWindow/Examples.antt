-- ===== src/TimeWindow/Examples.antt =====
-- Windows of some texts, over a toy calendar.
use support_triage_llm.Base.Text.{contains, lower}
use support_triage_llm.Base.{
  ℕ, ◌+◌, ◌*◌, ◌≡◌, refl, Option, none, some, List, leb, ◌&&◌, if◌then◌else◌, ok, arith,
}
use support_triage_llm.LogEvidence.Run.{Params, run_log_evidence, not_observed}
use support_triage_llm.LogEvidence.Entries.{LogEntry}
use support_triage_llm.TimeWindow.Dates.{
  Clock, with_meridiem, Found, Today, LocalTime, TimeWindow, pm, combine_date_time, midnight,
  tz_from_text,
}
use support_triage_llm.TimeWindow.Parse.{parse_time_window, mentions_today, mentions_yesterday}
use support_triage_llm.TimeWindow.Bounds.{only_clock, parse_time_window-blind}

-- day numbers of the dates of one month
abbrev calendar : ℕ → ℕ → ℕ → Option ℕ
calendar y m d = if leb 1 d && leb d 28 then some (d + 100) else none

abbrev today : Today
today = record { year = 2024; month = 2; day_number = 110 }

abbrev four_pm : Clock
four_pm = with_meridiem 4 pm

utc_test :
    parse_time_window calendar "since 4 pm utc" today (only_clock four_pm)
    ≡ ok (record {
      start = some (110 * 1440 + 960);
      end = some (110 * 1440 + 1080);
      confidence = 10;
      reason = "parsed_from_text";
    })
unfolding parse_time_window only_clock mentions_yesterday contains lower mentions_today
utc_test = refl

-- 4 pm in the Pacific time zone is 23:00 UTC, and 6 pm is 01:00 UTC of the next day.
pacific_test :
    parse_time_window calendar "since 4 pm pdt" today (only_clock four_pm)
    ≡ ok (record {
      start = some (110 * 1440 + 1380);
      end = some (110 * 1440 + 60);
      confidence = 10;
      reason = "parsed_from_text";
    })
unfolding parse_time_window only_clock mentions_yesterday contains lower mentions_today
pacific_test = refl

abbrev start_time : LocalTime
start_time = record { minutes = 110 * 1440 + 960; behind = 7 }

parse_time_window-blind_example :
    (w : TimeWindow) × (parse_time_window calendar "since 4 pm pdt" today (only_clock four_pm)
      ≡ ok w)
    × ((p : Params) (entries : List LogEntry)
        → p.incident_start ≡ w.start
        → p.incident_end ≡ w.end
        → (run_log_evidence (λ s. s) p entries).decision ≡ not_observed)
unfolding mentions_yesterday contains lower mentions_today combine_date_time midnight tz_from_text
parse_time_window-blind_example =
    parse_time_window-blind (λ s. s) calendar "since 4 pm pdt" today four_pm start_time refl refl
      refl (omega arith) (omega arith) (omega arith) (omega arith) (omega arith)

abbrev no_such_day : Found
no_such_day = record {
  iso = none;
  clock = none;
  clock_range = none;
  date_only = some (2024, 13, 45);
  month_day = none;
}
