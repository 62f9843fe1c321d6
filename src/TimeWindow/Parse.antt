-- ===== src/TimeWindow/Parse.antt =====
-- `parse_time_window` of app/time_window.py. A time is a number of minutes in local time, with the hours
-- that its zone lies behind UTC; `Found` is what the regular expressions found in the text, and
-- `date_number` the day number of a date, if there is such a date (`datetime`). Confidence is in
-- hundredths.
use support_triage_llm.Base.{
  ℕ, ◌+◌, ◌-◌, String, Bool, ◌||◌, Option, none, some, [], ◌∷◌, any, if◌then◌else◌, Result, ok, err,
  ◌>>=◌,
}
use support_triage_llm.Base.Text.{lower, prefix, contains, concat}
use support_triage_llm.TimeWindow.Dates.{
  Clock, Range, MonthDay, Found, Today, LocalTime, TimeWindow, ParseError, Draft, tz_from_text,
  month_lookup, utc_of, prevent_rollover, replace_clock, combine_date_time, attempted, later_by,
  midnight, value_error,
}

-- the start and end of an ISO time
unfoldable pub from_iso : Option ℕ → Draft
from_iso none = record { start = none; end = none; confidence = 10 }
from_iso (some t) = record {
  start = some (record { minutes = t; behind = 0 });
  end = some (record { minutes = t + 120; behind = 0 });
  confidence = 80;
}

-- the two datetime calls of a range: if the second raises, the start has been set
unfoldable pub from_range_bounds : Result ParseError LocalTime → Result ParseError LocalTime → Draft
from_range_bounds (err e) later = record { start = none; end = none; confidence = 10 }
from_range_bounds (ok s) (err e) = record { start = some s; end = none; confidence = 10 }
from_range_bounds (ok s) (ok t) = record { start = some s; end = some t; confidence = 70 }

unfoldable pub from_range : ℕ → Today → Range → Draft
unfolding replace_clock from_range_bounds midnight
from_range tz now r =
    from_range_bounds (replace_clock (midnight tz now.day_number) r.start_hour r.start_minute)
      (replace_clock (midnight tz now.day_number) r.end_hour r.end_minute)

-- the start of a date, or the `ValueError` of `datetime(year, month, day)`
unfoldable pub dated : ℕ → ℕ → Option ℕ → Result ParseError Draft
dated tz confidence none = err value_error
dated tz confidence (some day) =
    ok (record { start = some (midnight tz day); end = none; confidence = confidence })

module _ (date_number : ℕ → ℕ → ℕ → Option ℕ) where
  unfoldable pub from_month_day : ℕ → Today → Option MonthDay → Result ParseError Draft
  unfolding dated
  from_month_day tz now none = ok (record { start = none; end = none; confidence = 10 })
  from_month_day tz now (some m) = dated tz 55 (
      date_number (elim m.year [ none ↦ now.year | some y ↦ y ])
        (month_lookup now.month (prefix 3 (lower m.month))) m.day)

  -- the date in the text, if there is one
  unfoldable pub from_date : ℕ → Today → Found → Result ParseError Draft
  unfolding dated from_month_day
  from_date tz now found = elim found.date_only [
    | none ↦ from_month_day tz now found.month_day
    | some (y, m, d) ↦ dated tz 60 (date_number y m d)
  ]

-- the start that `clock` gives on a day, where the text has a clock time and no date
unfoldable pub clock_on : LocalTime → Option Clock → Option LocalTime → Option LocalTime
unfolding attempted combine_date_time
clock_on base clock (some start) = some start
clock_on base none none = none
clock_on base (some c) none = attempted (combine_date_time base c)

unfoldable pub mentions_yesterday : String → Bool
mentions_yesterday text = contains "yesterday" text || contains "last night" text

unfoldable pub mentions_today : String → Bool
mentions_today text =
    any (λ token. contains token text)
      ("today" ∷ "this morning" ∷ "this afternoon" ∷ "this evening" ∷ [])

-- "yesterday" and "today"
unfoldable pub relative : String → ℕ → Today → Option Clock → Draft → Draft
unfolding clock_on
relative text tz now clock d =
    if mentions_yesterday text
    then record d {
      start = clock_on (midnight tz (now.day_number - 1)) clock d.start;
      confidence = 35;
    }
    else if mentions_today text
    then record d { start = clock_on (midnight tz now.day_number) clock d.start; confidence = 35 }
    else d

unfoldable pub two_hours : ℕ → Option LocalTime → Draft
two_hours confidence none = record { start = none; end = none; confidence = confidence }
two_hours confidence (some t) = record {
  start = some t;
  end = some (later_by 120 t);
  confidence = confidence;
}

-- the clock time put on the start, or on today
unfoldable pub with_clock : ℕ → Today → Option Clock → Draft → Result ParseError Draft
unfolding combine_date_time attempted two_hours
with_clock tz now none d = ok d
with_clock tz now (some c) d = elim d.start [
  | some start ↦ combine_date_time start c >>= (λ t. ok (two_hours d.confidence (some t)))
  | none ↦
      ok (two_hours d.confidence (attempted (combine_date_time (midnight tz now.day_number) c)))
]

unfoldable pub end_or : LocalTime → Option LocalTime → LocalTime
unfolding later_by prevent_rollover
end_or start none = later_by 2160 start
end_or start (some t) = prevent_rollover t

unfoldable pub utc_end : Option LocalTime → Option ℕ
unfolding prevent_rollover utc_of
utc_end none = none
utc_end (some t) = some (utc_of (prevent_rollover t))

-- the bounds in UTC, each kept from rolling over; without an end, 36 hours
unfoldable pub close : Draft → TimeWindow
unfolding end_or utc_end prevent_rollover utc_of
close d = elim d.start [
  | none ↦ record {
    start = none;
    end = utc_end d.end;
    confidence = d.confidence;
    reason = "no_time_found";
  }
  | some t ↦ record {
    start = some (utc_of (prevent_rollover t));
    end = some (utc_of (end_or (prevent_rollover t) d.end));
    confidence = d.confidence;
    reason = "parsed_from_text";
  }
]

module _ (date_number : ℕ → ℕ → ℕ → Option ℕ) where
  -- the text without an ISO time and without a range
  unfoldable pub from_words : String → ℕ → Today → Found → Result ParseError TimeWindow
  unfolding from_date relative with_clock close
  from_words text tz now found = from_date date_number tz now found >>= (λ d.
      with_clock tz now found.clock (relative text tz now found.clock d) >>= (λ d'. ok (close d')))

  unfoldable pub parse_time_window : String → Today → Found → Result ParseError TimeWindow
  unfolding tz_from_text from_words from_iso from_range close
  parse_time_window text now found =
      let tz = tz_from_text (concat (" " ∷ lower text ∷ " " ∷ [])) in
      elim found.iso [
        | some iso ↦ ok (close (from_iso iso))
        | none ↦ elim found.clock_range [
          | some r ↦ ok (close (from_range tz now r))
          | none ↦ from_words (lower text) tz now found
        ]
      ]
