-- ===== src/TimeWindow/Dates.antt =====
-- What the parser of app/time_window.py reads and computes of dates and times: a time is a number of minutes
-- in local time, with the hours that its zone lies behind UTC; `Found` is what the regular expressions
-- found in the text. Confidence is in hundredths.
use support_triage_llm.Base.{
  ℕ, ◌+◌, ◌-◌, ◌*◌, ◌/◌, ◌%◌, String, ◌&&◌, ◌||◌, Option, none, some, ltb, ◌==◌, str_eq,
  if◌then◌else◌, Result, ok, err,
}
use support_triage_llm.Base.Text.{contains}

pub data Meridiem : Type 0 where
  am pm : Meridiem

-- A match of CLOCK_PATTERN: an hour, and one alternative of three, a minute, am or pm, or a time zone.
pub data Clock : Type 0 where
  with_minute : ℕ → ℕ → Clock
  with_meridiem : ℕ → Meridiem → Clock
  with_zone : ℕ → Clock

-- clock_match.group("hour")
unfoldable pub hour_of : Clock → ℕ
hour_of (with_minute h m) = h
hour_of (with_meridiem h a) = h
hour_of (with_zone h) = h

-- clock_match.group("minute")
unfoldable pub minute_of : Clock → Option ℕ
minute_of (with_minute h m) = some m
minute_of (with_meridiem h a) = none
minute_of (with_zone h) = none

-- clock_match.group("ampm")
unfoldable pub ampm_of : Clock → Option Meridiem
ampm_of (with_minute h m) = none
ampm_of (with_meridiem h a) = some a
ampm_of (with_zone h) = none

-- the groups of RANGE_PATTERN, split at the colons
pub record Range : Type 0 where
  pub start_hour : ℕ
  pub start_minute : ℕ
  pub end_hour : ℕ
  pub end_minute : ℕ

pub record MonthDay : Type 0 where
  pub month : String
  pub day : ℕ
  pub year : Option ℕ

-- `iso` holds the UTC minute that `fromisoformat` reads, or none where it raises.
pub record Found : Type 0 where
  pub iso : Option (Option ℕ)
  pub clock : Option Clock
  pub clock_range : Option Range
  pub date_only : Option (ℕ × ℕ × ℕ)
  pub month_day : Option MonthDay

-- the date of `now`, and its day number
pub record Today : Type 0 where
  pub year : ℕ
  pub month : ℕ
  pub day_number : ℕ

pub record LocalTime : Type 0 where
  pub minutes : ℕ
  pub behind : ℕ

pub record TimeWindow : Type 0 where
  pub start : Option ℕ
  pub end : Option ℕ
  pub confidence : ℕ
  pub reason : String

-- a `ValueError` of `datetime` or of `replace`
pub data ParseError : Type 0 where
  value_error : ParseError

-- the start and the end as they stand, and the confidence
pub record Draft : Type 0 where
  pub start : Option LocalTime
  pub end : Option LocalTime
  pub confidence : ℕ

unfoldable pub tz_from_text : String → ℕ
tz_from_text text =
    if contains "pdt" text || (contains " pt " text || contains " pacific" text)
    then 7
    else if contains "pst" text
    then 8
    else 0

unfoldable pub month_lookup : ℕ → String → ℕ
month_lookup default name =
    if str_eq name "jan"
    then 1
    else if str_eq name "feb"
    then 2
    else if str_eq name "mar"
    then 3
    else if str_eq name "apr"
    then 4
    else if str_eq name "may"
    then 5
    else if str_eq name "jun"
    then 6
    else if str_eq name "jul"
    then 7
    else if str_eq name "aug"
    then 8
    else if str_eq name "sep"
    then 9
    else if str_eq name "oct"
    then 10
    else if str_eq name "nov"
    then 11
    else if str_eq name "dec"
    then 12
    else default

-- the UTC minute of a local time
unfoldable pub utc_of : LocalTime → ℕ
utc_of t = t.minutes + 60 * t.behind

-- _prevent_rollover
unfoldable pub prevent_rollover : LocalTime → LocalTime
unfolding utc_of
prevent_rollover t =
    if t.behind == 0
    then t
    else if ltb (t.minutes / 1440) (utc_of t / 1440)
    then record { minutes = utc_of t - 1440; behind = 0 }
    else t

-- the hour of a clock time, before `% 24`
unfoldable pub clock_hour : ℕ → Option Meridiem → ℕ
clock_hour hour none = hour
clock_hour hour (some pm) = if ltb hour 12 then hour + 12 else hour
clock_hour hour (some am) = if hour == 12 then 0 else hour

unfoldable pub minute_or_zero : Option ℕ → ℕ
minute_or_zero none = 0
minute_or_zero (some m) = m

-- base.replace(hour=hour, minute=minute)
unfoldable pub replace_clock : LocalTime → ℕ → ℕ → Result ParseError LocalTime
replace_clock base hour minute =
    if ltb hour 24 && ltb minute 60
    then ok (record base { minutes = base.minutes / 1440 * 1440 + hour * 60 + minute })
    else err value_error

-- _combine_date_time, with a clock time
unfoldable pub combine_date_time : LocalTime → Clock → Result ParseError LocalTime
unfolding clock_hour minute_or_zero replace_clock hour_of minute_of ampm_of
combine_date_time base c =
    replace_clock base (clock_hour (hour_of c) (ampm_of c) % 24) (minute_or_zero (minute_of c))

-- try: … except: None
unfoldable pub attempted : Result ParseError LocalTime → Option LocalTime
attempted (ok t) = some t
attempted (err e) = none

unfoldable pub later_by : ℕ → LocalTime → LocalTime
later_by minutes t = record t { minutes = t.minutes + minutes }

unfoldable pub midnight : ℕ → ℕ → LocalTime
midnight tz day = record { minutes = day * 1440; behind = tz }
