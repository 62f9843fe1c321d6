-- ===== src/TimeWindow/Raises.antt =====
-- Dates that do not exist.
use support_triage_llm.Base.{ℕ, String, ◌≡◌, refl, Option, none, some, err}
use support_triage_llm.TimeWindow.Dates.{value_error, Found, Today}
use support_triage_llm.TimeWindow.Parse.{from_date, from_words, parse_time_window}

-- A text that names a date which does not exist, such as 2024-13-45, and has no ISO time and no range,
-- makes the parser raise, whatever else it says: this call of `datetime` is not in a `try`.
pub parse_time_window-raises :
    (date_number : ℕ → ℕ → ℕ → Option ℕ) (text : String) (now : Today) (found : Found) (y m d : ℕ)
    → found.iso ≡ none
    → found.clock_range ≡ none
    → found.date_only ≡ some (y, m, d)
    → date_number y m d ≡ none
    → parse_time_window date_number text now found ≡ err value_error
unfolding parse_time_window from_words from_date
parse_time_window-raises date_number text now found y m d a b e h =
    rw (parse_time_window, a, b, from_words, from_date, e, h) refl
