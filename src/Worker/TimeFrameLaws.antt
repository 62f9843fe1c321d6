-- ===== src/Worker/TimeFrameLaws.antt =====
-- The query window has both bounds, and the right length where it is inferred.
use support_triage_llm.Base.{ℕ, ◌+◌, ◌-◌, String, ◌≡◌, ◌≢◌, Option, some, str_eq-ne}
use support_triage_llm.Worker.TimeFrame.{
  Asked, anchor_or, infer_end, infer_start, frame, last_day, derive_query_time_window,
}

module _ (parse_iso : String → Option ℕ) (iso : ℕ → String)
    (parse-iso : (t : ℕ) → parse_iso (iso t) ≡ some t) where
  -- Where `isoformat` is read back by `fromisoformat`: a triage window with a start alone that parses
  -- ends two hours later; one with an end alone that parses starts two hours before; and without
  -- either, the window is the day before the anchor, or before the present if there is no anchor that
  -- parses. Subtraction stops at the epoch.
  pub derive_query_time_window_lem :
      (now t : ℕ) (q : Asked)
      → let w = derive_query_time_window parse_iso iso now q in
        (q.start ≢ "" → q.end ≡ "" → parse_iso q.start ≡ some t → parse_iso w.end ≡ some (t + 7200))
        × (q.start ≡ ""
            → q.end ≢ ""
            → parse_iso q.end ≡ some t
            → parse_iso w.start ≡ some (t - 7200))
        × (q.start ≡ ""
            → q.end ≡ ""
            → (parse_iso w.end ≡ some (anchor_or parse_iso iso now q.anchor))
              × (parse_iso w.start ≡ some (anchor_or parse_iso iso now q.anchor - 86400)))
  unfolding derive_query_time_window infer_end infer_start frame last_day
  derive_query_time_window_lem now t q = (
    λ a b p. rw (derive_query_time_window, str_eq-ne q.start "" a, b, p) (parse-iso (t + 7200)),
    λ a b p. rw (derive_query_time_window, str_eq-ne q.end "" b, a, p) (parse-iso (t - 7200)),
    λ a b. rw (derive_query_time_window, a, b) (parse-iso _, parse-iso _),
  )
