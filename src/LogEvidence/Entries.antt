-- ===== src/LogEvidence/Entries.antt =====
-- Log entries, the source that the tool queries, and its counts (tools/log_evidence.py). Time
-- stamps are instants; the parsing of their ISO form is `datetime.fromisoformat`.
use Prim.Native.Nat.{Ordering}
use Prim.Native.String.{compare}
use support_triage_llm.Base.{
  ℕ, String, Bool, false, ◌&&◌, ◌||◌, not, Option, none, some, List, [], ◌∷◌, leb, ◌==◌, str_eq,
  keep, length, min, max, if◌then◌else◌,
}
use support_triage_llm.Base.Text.{lower, upper, contains}

pub record LogEntry : Type 0 where
  pub ts : ℕ
  pub tenant : String
  pub service : String
  pub level : String
  pub event_type : String
  pub message : String
  pub status_code : Option ℕ
  pub request_id : Option String
  pub latency_ms : Option ℕ

-- tenant and e.tenant != tenant: the entry belongs to another tenant than the one asked for
unfoldable pub other_tenant : Option String → LogEntry → Bool
other_tenant none e = false
other_tenant (some t) e = not (str_eq t "") && not (str_eq e.tenant t)

unfoldable pub in_window : ℕ → ℕ → LogEntry → Bool
in_window start end e = leb start e.ts && leb e.ts end

unfoldable pub answers_query : Option String → String → ℕ → ℕ → LogEntry → Bool
answers_query tenant service start end e =
    not (other_tenant tenant e) && (str_eq e.service service && in_window start end e)

-- FakeLogSource.query
unfoldable pub query : Option String → String → ℕ → ℕ → List LogEntry → List LogEntry
query tenant service start end entries = keep (answers_query tenant service start end) entries

-- (e.status_code or 0) >= bound
unfoldable pub code_at_least : ℕ → LogEntry → Bool
code_at_least bound e = elim e.status_code [ none ↦ leb bound 0 | some c ↦ leb bound c ]

unfoldable pub is_error : LogEntry → Bool
unfolding code_at_least
is_error e = str_eq (upper e.level) "ERROR" || code_at_least 500 e

unfoldable pub mentions : String → LogEntry → Bool
mentions word e = contains word (lower e.event_type)

unfoldable pub is_timeout : LogEntry → Bool
unfolding mentions
is_timeout e = elim e.status_code [
  | none ↦ mentions "timeout" e
  | some c ↦ (c == 504) || mentions "timeout" e
]

unfoldable pub is_outage : LogEntry → Bool
unfolding code_at_least mentions
is_outage e = code_at_least 500 e || mentions "service_down" e

-- the entries that count as signs of the incident asked about
unfoldable pub select_incident_entries : List LogEntry → String → List LogEntry
unfolding is_error is_timeout is_outage
select_incident_entries entries query_type =
    if str_eq query_type "errors"
    then keep is_error entries
    else if str_eq query_type "timeouts"
    then keep is_timeout entries
    else keep is_outage entries

-- a text put into a sorted list without repetition
unfoldable pub insert_sorted : String → List String → List String
insert_sorted s [] = s ∷ []
insert_sorted s (t ∷ ts) =
    let rest = insert_sorted s ts in
    elim (compare s t) [ Ordering.lt ↦ s ∷ t ∷ ts | Ordering.eq ↦ t ∷ ts | Ordering.gt ↦ t ∷ rest ]

-- sorted({e.event_type for e in entries})
unfoldable pub event_types : List LogEntry → List String
unfolding insert_sorted
event_types [] = []
event_types (e ∷ es) = insert_sorted e.event_type (event_types es)

-- min((e.ts for e in entries), default=d)
unfoldable pub first_ts : ℕ → List LogEntry → ℕ
first_ts d [] = d
first_ts d (e ∷ []) = e.ts
first_ts d (e ∷ f ∷ es) = min e.ts (first_ts d (f ∷ es))

-- max((e.ts for e in entries), default=d)
unfoldable pub last_ts : ℕ → List LogEntry → ℕ
last_ts d [] = d
last_ts d (e ∷ []) = e.ts
last_ts d (e ∷ f ∷ es) = max e.ts (last_ts d (f ∷ es))

pub record Counts : Type 0 where
  pub errors : ℕ
  pub warnings : ℕ
  pub info : ℕ
  pub total_events : ℕ
  pub unique_error_types : List String
  pub first : Option ℕ
  pub last : Option ℕ

unfoldable pub none_if_empty : List LogEntry → ℕ → Option ℕ
none_if_empty [] t = none
none_if_empty (e ∷ es) t = some t

unfoldable pub count_events : List LogEntry → Counts
unfolding is_error event_types first_ts last_ts none_if_empty
count_events entries = record {
  errors = length (keep is_error entries);
  warnings = length (keep (λ e. str_eq (upper e.level) "WARN") entries);
  info = length (keep (λ e. str_eq (upper e.level) "INFO") entries);
  total_events = length entries;
  unique_error_types = event_types (keep is_error entries);
  first = none_if_empty entries (first_ts 0 entries);
  last = none_if_empty entries (last_ts 0 entries);
}
