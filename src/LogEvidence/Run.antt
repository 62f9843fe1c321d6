-- ===== src/LogEvidence/Run.antt =====
-- `run_log_evidence` of tools/log_evidence.py: from the entries of the log to the evidence bundle.
-- `redact` stands for the `re.sub` calls of `_truncate`, and `sanitize` for `sanitize_public_text`.
-- Confidence is in tenths.
use support_triage_llm.Base.{
  ℕ, ◌+◌, ◌*◌, String, Bool, true, false, ◌&&◌, not, Option, none, some, List, [], ◌∷◌, ◌++◌, map,
  leb, str_eq, any, keep, length, take, min, max, if◌then◌else◌,
}
use support_triage_llm.Base.Text.{lower, prefix, concat}
use support_triage_llm.Queue.Schema.{member}
use support_triage_llm.LogEvidence.Entries.{
  LogEntry, Counts, query, count_events, select_incident_entries, in_window, code_at_least,
  mentions, first_ts, last_ts,
}

pub data Decision : Type 0 where
  corroborated inconclusive not_observed : Decision

pub record Event : Type 0 where
  pub ts : ℕ
  pub type : String
  pub detail : String

-- The parameters, their time stamps parsed. An absent incident bound is the window's own.
pub record Params : Type 0 where
  pub start : ℕ
  pub end : ℕ
  pub incident_start : Option ℕ
  pub incident_end : Option ℕ
  pub tenant : Option String
  pub service : Option String
  pub query_type : Option String

pub record Bundle : Type 0 where
  pub tenant : Option String
  pub service : String
  pub incident_window : ℕ × ℕ
  pub observed_incident : Bool
  pub decision : Decision
  pub incident_score : ℕ
  pub incident_signals : List String
  pub confidence : ℕ
  pub summary_counts : Counts
  pub log_entry_count : ℕ
  pub service_inferred_from : Option String
  pub events : List Event

abbrev pub incident_threshold : ℕ
incident_threshold = 3

abbrev pub max_events : ℕ
max_events = 25

abbrev pub max_detail_len : ℕ
max_detail_len = 200

-- x or default, of an optional text
unfoldable pub text_or : Option String → String → String
text_or none d = d
text_or (some s) d = if str_eq s "" then d else s

abbrev pub stamp_or : Option ℕ → ℕ → ℕ
stamp_or none d = d
stamp_or (some t) d = t

-- a tenant that is really the name of a service
unfoldable pub service_hint : Option String → Option String → Bool
unfolding text_or
service_hint service tenant =
    str_eq (text_or service "") ""
    && (not (str_eq (text_or tenant "") "")
        && member (lower (text_or tenant "")) ("api" ∷ "worker" ∷ "app" ∷ "ui" ∷ "backend" ∷ []))

-- the tenant and the service that the query uses
unfoldable pub query_tenant : Params → Option String
query_tenant p = if service_hint p.service p.tenant then none else p.tenant

unfoldable pub query_service : Params → String
unfolding text_or
query_service p =
    if service_hint p.service p.tenant then text_or p.tenant "api" else text_or p.service "api"

unfoldable pub observed_incident : List LogEntry → Bool
observed_incident incident_entries = leb incident_threshold (length incident_entries)

unfoldable pub signals : List LogEntry → List String
signals filtered =
    (if leb incident_threshold (length (keep (code_at_least 500) filtered))
      then "5xx_burst" ∷ []
      else [])
    ++ ((if leb incident_threshold (length (keep (mentions "timeout") filtered))
          then "timeouts" ∷ []
          else [])
        ++ (if leb incident_threshold (length filtered) && any (mentions "service_down") filtered
            then "availability_drop" ∷ []
            else []))

unfoldable pub decide : Bool → List String → Decision
decide true found = corroborated
decide false [] = not_observed
decide false (s ∷ found) = inconclusive

unfoldable pub window_of : ℕ → ℕ → List LogEntry → List LogEntry → ℕ × ℕ
window_of start end [] incident_entries = (start, min (last_ts end incident_entries) end)
window_of start end (e ∷ filtered) incident_entries =
    (max (first_ts start (e ∷ filtered)) start, min (last_ts end (e ∷ filtered)) end)

module _ (redact : String → String) where
  unfoldable pub serialize : LogEntry → Event
  serialize e = record {
    ts = e.ts;
    type = e.event_type;
    detail =
        prefix max_detail_len
          (redact (concat (e.level ∷ " " ∷ e.event_type ∷ " " ∷ e.message ∷ [])));
  }

  unfoldable pub sample_events : List LogEntry → List Event
  unfolding serialize
  sample_events entries = map serialize (take max_events entries)

  -- from the entries that the source returned to the bundle
  unfoldable pub assess : Params → List LogEntry → Bundle
  unfolding observed_incident signals window_of sample_events decide
  assess p entries =
      let start = stamp_or p.incident_start p.start in
      let end = stamp_or p.incident_end p.end in
      let incident_entries = keep (in_window start end) entries in
      let filtered = select_incident_entries incident_entries (text_or p.query_type "errors") in
      let observed = observed_incident filtered in
      record {
        tenant = query_tenant p;
        service = query_service p;
        incident_window = window_of start end filtered incident_entries;
        observed_incident = observed;
        decision = decide observed (signals filtered);
        incident_score = min 100 (length (signals filtered) * 30);
        incident_signals = signals filtered;
        confidence = if observed then min 10 (5 + length filtered) else 2;
        summary_counts = count_events entries;
        log_entry_count = length entries;
        service_inferred_from =
            if service_hint p.service p.tenant then some "tenant_as_service" else none;
        events = sample_events (if observed then filtered else entries);
      }

  unfoldable pub run_log_evidence : Params → List LogEntry → Bundle
  run_log_evidence p log = assess p (query (query_tenant p) (query_service p) p.start p.end log)
