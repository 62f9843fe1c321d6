-- ===== src/Server/Access.antt =====
-- API keys, roles, the replay limits and the acknowledgement of intakes (app/server.py), with the table
-- `replay_audit` of app/queue_db.py. `sha256` is an argument; time is in seconds, and an absent text is
-- empty.
use support_triage_llm.Base.{
  ℕ, ◌-◌, String, Bool, true, false, ◌&&◌, not, Option, none, some, List, [], ◌∷◌, ◌++◌, leb,
  str_eq, keep, length, if◌then◌else◌, Result, ok, err,
}
use support_triage_llm.Queue.Schema.{member}
use support_triage_llm.Intake.Intakes.{Intake, get_intake, acknowledge_intake, update_intake_status}

pub data HttpError : Type 0 where
  http_error : ℕ → String → HttpError
  raised : String → HttpError

pub record ServerConfig : Type 0 where
  pub require_api_key : Bool
  pub ingest_api_key : String
  pub admin_hashes : List String
  pub t3_hashes : List String

pub data Role : Type 0 where
  admin t3 default : Role

-- _get_api_key, on the header's key
unfoldable pub get_api_key : ServerConfig → String → Result HttpError String
get_api_key config header =
    if not config.require_api_key
    then ok header
    else if str_eq config.ingest_api_key ""
    then err (http_error 503 "API key not configured")
    else if not (str_eq header config.ingest_api_key)
    then err (http_error 403 "Invalid or missing API Key")
    else ok header

unfoldable pub is_admin : Role → Bool
is_admin admin = true
is_admin _ = false

unfoldable pub may_acknowledge : Role → Bool
may_acknowledge default = false
may_acknowledge _ = true

-- a row of `replay_audit`
pub record ReplayAttempt : Type 0 where
  pub api_key_hash : String
  pub evidence_id : String
  pub new_evidence_id : Option String
  pub ts : ℕ
  pub result : String
  pub reason : String

abbrev pub replay_limit_per_min : ℕ
replay_limit_per_min = 30

abbrev pub replay_limit_per_evidence_per_hour : ℕ
replay_limit_per_evidence_per_hour = 10

unfoldable pub count_replays_for_evidence : String → ℕ → ℕ → List ReplayAttempt → ℕ
count_replays_for_evidence id window_seconds now audit =
    length (keep (λ a. str_eq a.evidence_id id && leb (now - window_seconds) a.ts) audit)

-- the response to an outcome of the replay itself: the new id, or an exception that is raised on
unfoldable pub respond : Result String String → Result HttpError String
respond (ok id) = ok id
respond (err e) = err (raised e)

unfoldable pub new_id : Result String String → Option String
new_id (ok id) = some id
new_id (err e) = none

unfoldable pub result_text : Result String String → String
result_text (ok id) = "ok"
result_text (err e) = "blocked"

unfoldable pub reason_text : Result String String → String
reason_text (ok id) = "ok"
reason_text (err e) = e

module _ (sha256 : String → String) (config : ServerConfig) where
  unfoldable pub api_role : String → Role
  api_role key =
      if str_eq key ""
      then default
      else if member (sha256 key) config.admin_hashes
      then admin
      else if member (sha256 key) config.t3_hashes
      then t3
      else default

  unfoldable pub count_replays_for_key : String → ℕ → ℕ → List ReplayAttempt → ℕ
  count_replays_for_key key window_seconds now audit =
      length
        (keep (λ a. str_eq a.api_key_hash (sha256 key) && leb (now - window_seconds) a.ts) audit)

  unfoldable pub log_replay_attempt :
      String
      → String
      → Option String
      → String
      → String
      → ℕ
      → List ReplayAttempt
      → List ReplayAttempt
  log_replay_attempt key id new result reason now audit =
      audit
      ++ (record {
        api_key_hash = sha256 key;
        evidence_id = id;
        new_evidence_id = new;
        ts = now;
        result = result;
        reason = reason;
      }
          ∷ [])

  -- replay_evidence, when the outcome of the replay itself would be `outcome`
  unfoldable pub handle_replay :
      String
      → String
      → Bool
      → ℕ
      → Result String String
      → List ReplayAttempt
      → Result HttpError String × List ReplayAttempt
  handle_replay key id force now outcome audit =
      if force && not (is_admin (api_role key))
      then (err (http_error 403 "Force refresh requires admin scope"), audit)
      else if leb replay_limit_per_min (count_replays_for_key key 60 now audit)
      then (
        err (http_error 429 "Replay rate limit exceeded"),
        log_replay_attempt key id none "blocked" "rate_limited" now audit,
      )
      else if leb replay_limit_per_evidence_per_hour (count_replays_for_evidence id 3600 now audit)
      then (
        err (http_error 429 "Replay cap for this evidence exceeded"),
        log_replay_attempt key id none "blocked" "evidence_cap" now audit,
      )
      else (
        respond outcome,
        log_replay_attempt key id (new_id outcome) (result_text outcome) (reason_text outcome) now
            audit,
      )

  unfoldable pub acknowledge_found :
      String → String → ℕ → ℕ → List Intake → Option Intake → Result HttpError (List Intake)
  acknowledge_found key id at now intakes none = err (http_error 404 "not found")
  acknowledge_found key id at now intakes (some i) =
      if str_eq i.status "escalated"
      then ok (acknowledge_intake at now id (sha256 key) intakes)
      else err (http_error 400 "cannot acknowledge unless escalated")

  -- the handler acknowledge_intake
  unfoldable pub handle_acknowledge :
      String → String → ℕ → ℕ → List Intake → Result HttpError (List Intake)
  handle_acknowledge key id at now intakes =
      if may_acknowledge (api_role key)
      then acknowledge_found key id at now intakes (get_intake id intakes)
      else err (http_error 403 "insufficient role")

-- the handler update_intake_status
unfoldable pub handle_status :
    String → String → Option String → ℕ → ℕ → List Intake → Result HttpError (List Intake)
handle_status id status note resolved now intakes =
    if member status ("new" ∷ "investigating" ∷ "awaiting_customer" ∷ "escalated" ∷ "resolved" ∷ [])
    then ok (update_intake_status resolved now id status note intakes)
    else err (http_error 400 "invalid status")
