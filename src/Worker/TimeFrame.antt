-- ===== src/Worker/TimeFrame.antt =====
-- `_derive_query_time_window` of tools/triage_worker.py: the window that the tools are asked about.
-- `parse_iso` stands for `datetime.fromisoformat` and `iso` for `isoformat`, on instants in seconds.
-- An absent text is empty.
use support_triage_llm.Base.{ℕ, ◌+◌, ◌-◌, String, Bool, Option, none, some, str_eq, if◌then◌else◌}
use support_triage_llm.Base.Text.{or_text}

-- what it reads: the window of the triage, and the meta data of the parsed one
pub record Asked : Type 0 where
  pub start : String
  pub end : String
  pub anchor : String
  pub reason : String
  pub sanity_overridden : Bool
  pub source : String

pub record TimeFrame : Type 0 where
  pub start : String
  pub end : String
  pub reason : String
  pub source : String
  pub anchor : String

unfoldable pub reason_hint : Asked → String
reason_hint q = if q.sanity_overridden then "sanity_override" else or_text q.reason "parsed_none"

unfoldable pub reason_or : String → String → String
reason_or hint reason = if str_eq hint "parsed_none" then reason else hint

module _ (parse_iso : String → Option ℕ) (iso : ℕ → String) where
  -- the anchor, or the present where it is absent or does not parse
  unfoldable pub anchor_or : ℕ → String → ℕ
  anchor_or now anchor =
      if str_eq anchor "" then now else elim (parse_iso anchor) [ none ↦ now | some t ↦ t ]

  -- end, and the reason, from a start alone
  unfoldable pub infer_end : Option ℕ → String × String
  infer_end none = ("", "triage_time_window")
  infer_end (some t) = (iso (t + 7200), "triage_time_window_inferred_end")

  -- start, and the reason, from an end alone
  unfoldable pub infer_start : Option ℕ → String × String
  infer_start none = ("", "triage_time_window")
  infer_start (some t) = (iso (t - 7200), "triage_time_window_inferred_start")

  unfoldable pub frame : Asked → String → String → String → TimeFrame
  frame q start end reason = record {
    start = start;
    end = end;
    reason = reason_or (reason_hint q) reason;
    source = or_text q.source "triage";
    anchor = q.anchor;
  }

  -- the last 24 hours before the anchor
  unfoldable pub last_day : ℕ → Asked → TimeFrame
  last_day now q =
      let t = anchor_or now q.anchor in
      record {
        start = iso (t - 86400);
        end = iso t;
        reason = "fallback_last24h";
        source = or_text q.source "triage";
        anchor = q.anchor;
      }

  unfoldable pub derive_query_time_window : ℕ → Asked → TimeFrame
  derive_query_time_window now q =
      let later = infer_end (parse_iso q.start) in
      let earlier = infer_start (parse_iso q.end) in
      if str_eq q.start ""
      then (if str_eq q.end "" then last_day now q else frame q earlier.0 q.end earlier.1)
      else if str_eq q.end ""
      then frame q q.start later.0 later.1
      else frame q q.start q.end "triage_time_window"
