-- ===== src/Triage/Time.antt =====
-- What app/triage_service.py makes of the times in a message: `_extract_time_fields` and
-- `_sanitize_time_window`. Instants are in seconds.
use support_triage_llm.Base.{
  ℕ, ◌+◌, ◌-◌, ◌/◌, max, min, String, Bool, true, false, not, ◌&&◌, ◌||◌, Option, none, some, List,
  [], ◌∷◌, ltb, ◌==◌, str_eq, if◌then◌else◌, Result, ok, err,
}
use support_triage_llm.Base.Text.{lower, contains}
use support_triage_llm.TimeWindow.Dates.{Found, Today, ParseError}
use support_triage_llm.TimeWindow.Parse.{parse_time_window}
use support_triage_llm.Triage.Payload.{Window, Reported, default_reported, text_or}
use support_triage_llm.Triage.Infer.{mentions}

-- What the regular expressions of the triage find in the text, besides those of the parser: the matches
-- of ISO_PATTERN, TIME_RANGE_RE and CLOCK_RE, whether there is an explicit date, and the domains and
-- email addresses.
pub record Seen : Type 0 where
  pub found : Found
  pub iso : Option String
  pub time_range : Option String
  pub clock : Option String
  pub has_explicit_date : Bool
  pub domains : List String
  pub has_email : Bool

-- `date_number` is the calendar, `isoformat` writes a minute of UTC, `fromisoformat` reads an instant
-- and `year_of` is its year.
pub record Calendar : Type 0 where
  pub date_number : ℕ → ℕ → ℕ → Option ℕ
  pub isoformat : ℕ → String
  pub fromisoformat : String → Option ℕ
  pub year_of : ℕ → ℕ

-- the members that the payload takes over
pub record TimeFields : Type 0 where
  pub time_window : Window
  pub reported_time_window : Reported
  pub time_ambiguity : String

unfoldable pub written : (ℕ → String) → Option ℕ → Option String
written isoformat none = none
written isoformat (some t) = some (isoformat t)

-- the window that the parser returns
unfoldable pub window_of : Calendar → String → Today → Found → Result ParseError (Window × String)
unfolding written
window_of c text now found = elim (parse_time_window c.date_number text now found) [
  | err e ↦ err e
  | ok w ↦ ok (
    record {
      start = written c.isoformat w.start;
      end = written c.isoformat w.end;
      confidence = some w.confidence;
    },
    w.reason,
  )
]

-- a clock time or a range that was reported
unfoldable pub reported_clock : String → String → ℕ → Reported
unfolding lower contains
reported_clock text raw confidence = record {
  raw_text = some raw;
  timezone = if contains "utc" (lower text) then some "UTC" else none;
  has_date = false;
  has_only_clock_time = true;
  confidence = confidence;
}

-- what was reported, and what is unclear about it, by the confidence of the window
unfoldable pub reported_of : String → Seen → ℕ → Reported × String
unfolding reported_clock mentions lower contains default_reported
reported_of text seen confidence = elim seen.iso [
  | some raw ↦ (
    record {
      raw_text = some raw;
      timezone = none;
      has_date = true;
      has_only_clock_time = false;
      confidence = max confidence 80;
    },
    "none",
  )
  | none ↦ elim seen.time_range [
    | some raw ↦ (reported_clock text raw (max confidence 50), "missing_date")
    | none ↦ elim seen.clock [
      | some raw ↦ (
        reported_clock text raw (max confidence 40),
        if contains "utc" (lower text) then "missing_date" else "missing_timezone",
      )
      | none ↦
          if mentions ("yesterday" ∷ "last night" ∷ "since yesterday" ∷ "earlier today" ∷ [])
            (lower text)
          then (record default_reported { confidence = max confidence 20 }, "relative_ambiguous")
          else (record default_reported { confidence = confidence }, "missing_date")
    ]
  ]
]

unfoldable pub extract_time_fields : Calendar → String → Today → Seen → Result ParseError TimeFields
unfolding window_of reported_of
extract_time_fields c text now seen = elim (window_of c text now seen.found) [
  | err e ↦ err e
  | ok (w, reason) ↦
      let (reported, ambiguity) =
        reported_of text seen (elim w.confidence [ none ↦ 0 | some n ↦ n ]) in
      ok (record { time_window = w; reported_time_window = reported; time_ambiguity = ambiguity })
]

-- abs((t - anchor).days): the days of a negative difference are rounded down
unfoldable pub delta_days : ℕ → ℕ → ℕ
delta_days t anchor = if ltb t anchor then (anchor - t + 86399) / 86400 else (t - anchor) / 86400

-- whether a start is too far from the anchor
unfoldable pub is_implausible : Calendar → ℕ → String → Bool
unfolding delta_days
is_implausible c anchor start = elim (c.fromisoformat start) [
  | none ↦ false
  | some t ↦ not (c.year_of t == c.year_of anchor) || ltb 30 (delta_days t anchor)
]

-- min(float(confidence or 0.1), 0.2)
unfoldable pub lowered : Option ℕ → ℕ
lowered none = 10
lowered (some n) = if n == 0 then 10 else min n 20

unfoldable pub sanitize_time_window : Calendar → ℕ → Bool → Window → Window × Bool
unfolding is_implausible lowered text_or
sanitize_time_window c anchor explicit w =
    let start = text_or w.start "" in
    if not (str_eq start "") && (not explicit && is_implausible c anchor start)
    then (record { start = none; end = none; confidence = some (lowered w.confidence) }, true)
    else (w, false)
