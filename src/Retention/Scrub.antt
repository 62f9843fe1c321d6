-- ===== src/Retention/Scrub.antt =====
-- `purge`, `scrub_raw` and `main` of tools/retention.py, on the table `queue`. Time stamps are in
-- microseconds.
use support_triage_llm.Base.{
  ℕ, ◌-◌, ◌*◌, Bool, true, false, not, ◌&&◌, map, keep, length, ltb, ◌==◌, str_eq, if◌then◌else◌,
}
use support_triage_llm.Values.{Value, null, text, time, get, put}
use support_triage_llm.Queue.Rows.{Row, Table}

-- column < ?, for a column of time stamps
unfoldable pub is_before : ℕ → Value → Bool
is_before cutoff (time t) = ltb t cutoff
is_before cutoff _ = false

-- column != ''
unfoldable pub is_filled : Value → Bool
is_filled null = false
is_filled (text s) = not (str_eq s "")
is_filled _ = true

unfoldable pub is_old : ℕ → Row → Bool
unfolding is_before
is_old cutoff r = is_before cutoff (get "created_at" r.cells)

-- DELETE FROM queue WHERE created_at < ?: the table and the number of rows deleted
unfoldable pub purge : ℕ → Table → Table × ℕ
unfolding is_old
purge cutoff t = (
  record t { rows = keep (λ r. not (is_old cutoff r)) t.rows },
  length (keep (is_old cutoff) t.rows),
)

-- created_at < ? AND redacted_payload != ''
unfoldable pub is_scrubbable : ℕ → Row → Bool
unfolding is_old is_filled
is_scrubbable cutoff r = is_old cutoff r && is_filled (get "redacted_payload" r.cells)

-- SET raw_payload = '', payload = redacted_payload
unfoldable pub scrub_row : ℕ → Row → Row
unfolding is_scrubbable
scrub_row cutoff r =
    if is_scrubbable cutoff r
    then record r {
      cells = put "payload" (get "redacted_payload" r.cells) (put "raw_payload" (text "") r.cells);
    }
    else r

-- the UPDATE: the table and the number of rows updated
unfoldable pub scrub_raw : ℕ → Table → Table × ℕ
unfolding scrub_row is_scrubbable
scrub_raw cutoff t =
    (record t { rows = map (scrub_row cutoff) t.rows }, length (keep (is_scrubbable cutoff) t.rows))

-- the time stamp so many days ago
unfoldable pub days_ago : ℕ → ℕ → ℕ
days_ago now days = now - days * 86400000000

-- main: the two actions, each if its number of days is not 0, each with its own reading of the clock
unfoldable pub retain : ℕ → ℕ → ℕ → ℕ → Table → Table
unfolding purge scrub_raw days_ago
retain purged_at scrubbed_at purge_days scrub_days t =
    let kept = if purge_days == 0 then t else (purge (days_ago purged_at purge_days) t).0 in
    if scrub_days == 0 then kept else (scrub_raw (days_ago scrubbed_at scrub_days) kept).0
