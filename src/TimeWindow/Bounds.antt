-- ===== src/TimeWindow/Bounds.antt =====
-- The two hours of a clock time, and what the guard against rolling over makes of them.
use support_triage_llm.Base.{
  ℕ, ◌+◌, ◌*◌, ◌%◌, ◌≤◌, ◌<◌, String, ◌≡◌, refl, ◌∙◌, Bool, true, false, Option, none, some, List,
  [], ◌∷◌, if◌then◌else◌, ok, arith, keep, str_eq,
}
use support_triage_llm.Base.Text.{lower, concat}
use support_triage_llm.LogEvidence.Entries.{LogEntry, in_window, select_incident_entries}
use support_triage_llm.LogEvidence.Run.{
  Params, run_log_evidence, assess, observed_incident, signals, decide, not_observed, text_or,
  stamp_or,
}
use support_triage_llm.TimeWindow.Dates.{
  Clock, Found, Today, LocalTime, TimeWindow, tz_from_text, utc_of, prevent_rollover,
  combine_date_time, attempted, later_by, midnight,
}
use support_triage_llm.TimeWindow.Parse.{
  from_month_day, from_date, mentions_yesterday, mentions_today, relative, two_hours, with_clock,
  end_or, close, from_words, parse_time_window,
}

-- the UTC minute of a bound, after the guard
unfoldable pub guarded : LocalTime → ℕ
guarded t = utc_of (prevent_rollover t)

guarded-utc : (t : LocalTime) → t.behind ≡ 0 → guarded t ≡ t.minutes
unfolding guarded prevent_rollover utc_of
guarded-utc t e = ground arith

guarded-same_day :
    (t : LocalTime)
    → t.minutes % 1440 + 60 * t.behind < 1440
    → guarded t ≡ t.minutes + 60 * t.behind
unfolding guarded prevent_rollover utc_of
guarded-same_day t h = ground arith

guarded-next_day :
    (t : LocalTime)
    → 0 < t.behind
    → t.behind < 24
    → 1440 ≤ t.minutes % 1440 + 60 * t.behind
    → guarded t + 1440 ≡ t.minutes + 60 * t.behind
unfolding guarded prevent_rollover utc_of
guarded-next_day t p q h = ground arith

-- Two hours by the clock, in a zone that lies `behind` hours behind UTC, from its minute of the day.
guarded_two_hours :
    (t : LocalTime)
    → t.behind < 24
    → (t.behind ≡ 0 → guarded (later_by 120 t) ≡ guarded t + 120)
      × (t.minutes % 1440 + 120 + 60 * t.behind < 1440 → guarded (later_by 120 t) ≡ guarded t + 120)
      × (0 < t.behind
          → t.minutes % 1440 + 60 * t.behind < 1440
          → t.minutes % 1440 + 120 < 1440
          → 1440 ≤ t.minutes % 1440 + 120 + 60 * t.behind
          → guarded (later_by 120 t) + 1440 ≡ guarded t + 120)
unfolding later_by
guarded_two_hours t small = (
  λ e. omega (arith, guarded-utc t e, guarded-utc (later_by 120 t) e),
  λ h.
      omega
        (arith, guarded-same_day t (omega arith), guarded-same_day (later_by 120 t) (omega arith)),
  λ p h k q.
      omega (arith, guarded-same_day t h, guarded-next_day (later_by 120 t) p small (omega arith)),
)

-- a text with a clock time and nothing else about time
unfoldable pub only_clock : Clock → Found
only_clock c = record {
  iso = none;
  clock = some c;
  clock_range = none;
  date_only = none;
  month_day = none;
}

module _ (date_number : ℕ → ℕ → ℕ → Option ℕ) (text : String) (now : Today) (c : Clock)
    (t : LocalTime) where
  abbrev pub zone : ℕ
  zone = tz_from_text (concat (" " ∷ lower text ∷ " " ∷ []))

  parse-clock :
      mentions_yesterday (lower text) ≡ false
      → mentions_today (lower text) ≡ false
      → combine_date_time (midnight zone now.day_number) c ≡ ok t
      → parse_time_window date_number text now (only_clock c)
        ≡ ok (record {
          start = some (guarded t);
          end = some (guarded (later_by 120 t));
          confidence = 10;
          reason = "parsed_from_text";
        })
  unfolding parse_time_window only_clock from_words from_date from_month_day relative with_clock
      attempted two_hours close end_or guarded
  parse-clock y d e = rw (y, d, e) refl

  -- A text whose only time is a clock time of today. In UTC, or where two hours later is still the same
  -- UTC day, the window ends two hours after it starts. In a zone behind UTC, where the UTC day changes
  -- within the two hours and the local day does not, the guard pulls the end back a day and not the
  -- start: the window ends 22 hours before it starts.
  pub parse_time_window-clock :
      mentions_yesterday (lower text) ≡ false
      → mentions_today (lower text) ≡ false
      → combine_date_time (midnight zone now.day_number) c ≡ ok t
      → t.behind < 24
      → (w : TimeWindow) × (s : ℕ) × (e : ℕ) × (parse_time_window date_number text now
            (only_clock c)
          ≡ ok w)
        × (w.start ≡ some s)
        × (w.end ≡ some e)
        × (t.behind ≡ 0 → e ≡ s + 120)
        × (t.minutes % 1440 + 120 + 60 * t.behind < 1440 → e ≡ s + 120)
        × (0 < t.behind
            → t.minutes % 1440 + 60 * t.behind < 1440
            → t.minutes % 1440 + 120 < 1440
            → 1440 ≤ t.minutes % 1440 + 120 + 60 * t.behind
            → e + 1320 ≡ s)
  parse_time_window-clock y d e small =
      let (utc, day, over) = guarded_two_hours t small in
      (
        _,
        guarded t,
        guarded (later_by 120 t),
        parse-clock y d e,
        refl,
        refl,
        utc,
        day,
        λ p h k q. omega (arith, over p h k q),
      )

-- A window that ends before it starts holds no entry.
keep-inverted :
    (start end : ℕ) (entries : List LogEntry)
    → end < start
    → keep (in_window start end) entries ≡ []
unfolding in_window
keep-inverted start end [] h = refl
keep-inverted start end (e ∷ es) h = ground (arith, keep-inverted start end es h)

if-same : (b : Bool) (xs : List LogEntry) → (if b then xs else xs) ≡ xs
if-same true xs = refl
if-same false xs = refl

select_incident_entries-nil : (query_type : String) → select_incident_entries [] query_type ≡ []
unfolding select_incident_entries
select_incident_entries-nil query_type =
    rw
      (
        select_incident_entries,
        if-same (str_eq query_type "timeouts") [],
        if-same (str_eq query_type "errors") [],
      )
      refl

module _ (redact : String → String) where
  assess-inverted :
      (p : Params) (entries : List LogEntry)
      → stamp_or p.incident_end p.end < stamp_or p.incident_start p.start
      → (assess redact p entries).decision ≡ not_observed
  unfolding assess observed_incident signals decide
  assess-inverted p entries h =
      rw
        (
          assess,
          keep-inverted (stamp_or p.incident_start p.start) (stamp_or p.incident_end p.end) entries
              h,
          select_incident_entries-nil (text_or p.query_type "errors"),
        )
        refl

  -- Whatever the log holds, a query whose incident window ends before it starts is `not_observed`.
  run_log_evidence-inverted :
      (p : Params) (log : List LogEntry) (s e : ℕ)
      → p.incident_start ≡ some s
      → p.incident_end ≡ some e
      → e < s
      → (run_log_evidence redact p log).decision ≡ not_observed
  unfolding run_log_evidence
  run_log_evidence-inverted p log s e a b h = assess-inverted p _ (rw (a, b) h)

  -- Where a clock time of today rolls over in this way, the log evidence is blind: a query about the
  -- incident window that the parser returned answers `not_observed`, whatever the log holds.
  pub parse_time_window-blind :
      (date_number : ℕ → ℕ → ℕ → Option ℕ) (text : String) (now : Today) (c : Clock) (t : LocalTime)
      → mentions_yesterday (lower text) ≡ false
      → mentions_today (lower text) ≡ false
      → combine_date_time (midnight (zone date_number text now c t) now.day_number) c ≡ ok t
      → 0 < t.behind
      → t.behind < 24
      → t.minutes % 1440 + 60 * t.behind < 1440
      → t.minutes % 1440 + 120 < 1440
      → 1440 ≤ t.minutes % 1440 + 120 + 60 * t.behind
      → (w : TimeWindow) × (parse_time_window date_number text now (only_clock c) ≡ ok w)
        × ((p : Params) (log : List LogEntry)
            → p.incident_start ≡ w.start
            → p.incident_end ≡ w.end
            → (run_log_evidence redact p log).decision ≡ not_observed)
  parse_time_window-blind date_number text now c t y d e p small h k q =
      let (w, start, end, parsed, at, until, _, _, over) =
        parse_time_window-clock date_number text now c t y d e small in
      (
        w,
        parsed,
        λ r log a b.
            run_log_evidence-inverted r log start end (a ∙ at) (b ∙ until)
              (omega (arith, over p h k q)),
      )
