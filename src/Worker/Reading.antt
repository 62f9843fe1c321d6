-- ===== src/Worker/Reading.antt =====
-- What `process_once` of tools/triage_worker.py reads of a row, and what its statements and the report
-- read of the result of a tool. A member of another type than the tools give it counts as absent.
use support_triage_llm.Base.{
  ℕ, ◌+◌, String, Bool, ◌||◌, Option, none, some, List, [], ◌∷◌, ◌++◌, map, first, str_eq,
}
use support_triage_llm.Base.Text.{concat, or_text, prefix, strip}
use support_triage_llm.Values.{Value, time, text, truthy, or_value, get}
use support_triage_llm.Values.Objects.{get_in, text_in, option_text, option_num, list_in}
use support_triage_llm.Queue.Rows.{Row}
use support_triage_llm.Worker.Draft.{LogFacts}
use support_triage_llm.Worker.Select.{dedupe_cap}
use support_triage_llm.Report.Template.{Event, Bundle}

-- a text column
unfoldable pub column : String → Row → String
unfolding text_in get
column key row = text_in (get key row.cells)

unfoldable pub extract_text : Row → String
unfolding column strip
extract_text row = strip (
    or_text (column "payload" row)
      (or_text (column "raw_payload" row) (or_text (column "body" row) (column "text" row))))

-- row.get("end_user_handle") or row.get("customer") or ""
unfoldable pub handle_of : Row → String
unfolding column
handle_of row = or_text (column "end_user_handle" row) (column "customer" row)

-- a time stamp, as text
unfoldable pub shown : (ℕ → String) → Value → String
unfolding text_in
shown iso (time t) = iso t
shown iso v = text_in v

-- the time of the raw message, if that is JSON and has one, or else of the row; `loads` is `json.loads`
unfoldable pub received_at : (String → Option Value) → (ℕ → String) → Row → String
unfolding column shown get_in text_in get
received_at loads iso row = elim (loads (column "raw_payload" row)) [
  | none ↦ shown iso (get "created_at" row.cells)
  | some v ↦ or_text (text_in (get_in "received_at" v)) (shown iso (get "created_at" row.cells))
]

-- row.get("created_at", "")[:10]; none where that raises a TypeError, as it does on NULL
unfoldable pub created_day : (ℕ → String) → Value → Option String
unfolding prefix
created_day iso (time t) = some (prefix 10 (iso t))
created_day iso (text s) = some (prefix 10 s)
created_day iso _ = none

-- the key that a row without one is given
unfoldable pub worker_key : (String → String) → (ℕ → String) → Row → Option String
unfolding handle_of extract_text prefix created_day get
worker_key sha256 iso row = elim (created_day iso (get "created_at" row.cells)) [
  | none ↦ none
  | some day ↦
      some (sha256 (concat (handle_of row ∷ "-" ∷ prefix 200 (extract_text row) ∷ "-" ∷ day ∷ [])))
]

-- the matches of the regular expressions of `_extract_request_ids`
pub record Matches : Type 0 where
  pub request_ids : List String
  pub uuids : List String
  pub errors : List String

pub record RequestIds : Type 0 where
  pub customer_request_ids : List String
  pub error_codes : List String

unfoldable pub extract_request_ids : Matches → RequestIds
unfolding dedupe_cap
extract_request_ids m = record {
  customer_request_ids = dedupe_cap 10 (m.request_ids ++ m.uuids);
  error_codes = dedupe_cap 10 m.errors;
}

unfoldable pub read_event : Value → Event
unfolding get_in text_in
read_event v = record {
  id = text_in (get_in "id" v);
  ts = text_in (get_in "ts" v);
  event_type = text_in (get_in "type" v);
  detail = text_in (get_in "detail" v);
}

unfoldable pub read_bundle : Value → Bundle
unfolding get_in text_in option_text option_num list_in read_event
read_bundle v = record {
  tool_name = text_in (get_in "tool_name" (get_in "metadata" v));
  source = option_text (get_in "source" v);
  events = map read_event (list_in (get_in "events" v));
  bounced = option_num (get_in "bounced" (get_in "summary_counts" v));
}

-- _count_summary("bounced", bundles)
unfoldable pub count_summary : List Bundle → ℕ
count_summary [] = 0
count_summary (b ∷ bs) = elim b.bounced [ none ↦ count_summary bs | some n ↦ n + count_summary bs ]

unfoldable pub is_log_bundle : Value → Bool
unfolding get_in text_in
is_log_bundle v =
    str_eq (text_in (get_in "evidence_type" v)) "logs"
    || str_eq (text_in (get_in "source" v)) "logs"

unfoldable pub log_facts : Value → LogFacts
unfolding get_in text_in truthy or_value
log_facts v =
    let window = or_value (get_in "incident_window" v) (get_in "time_window" v) in
    record {
      query_type = text_in (get_in "query_type" (get_in "metadata" v));
      observed = truthy (get_in "observed_incident" v);
      start = text_in (get_in "start" window);
      end = text_in (get_in "end" window);
      summary_external = text_in (get_in "summary_external" (get_in "metadata" v));
    }

-- the first log bundle
unfoldable pub find_log : List Value → Option LogFacts
unfolding is_log_bundle log_facts
find_log bundles = elim (first is_log_bundle bundles) [ none ↦ none | some v ↦ some (log_facts v) ]

unfoldable pub is_status_bundle : Value → Bool
unfolding get_in text_in
is_status_bundle v = str_eq (text_in (get_in "evidence_type" v)) "service_status"

-- the summary and the status of the first bundle of the service status
unfoldable pub find_status : List Value → Option (String × String)
unfolding is_status_bundle get_in text_in
find_status bundles = elim (first is_status_bundle bundles) [
  | none ↦ none
  | some v ↦ some (
    text_in (get_in "summary_external" (get_in "metadata" v)),
    text_in (get_in "status" (get_in "metadata" v)),
  )
]
