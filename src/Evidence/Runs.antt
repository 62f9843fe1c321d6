-- ===== src/Evidence/Runs.antt =====
-- The table `evidence_runs` and `record_evidence_run` of app/queue_db.py. Time stamps are in
-- microseconds. `canonical_json` stands for `json.dumps`, `sha256` for the digest.
use support_triage_llm.Base.{
  ℕ, ◌+◌, ◌*◌, ◌/◌, String, Bool, true, false, ◌&&◌, ◌||◌, Option, none, some, List, [], ◌∷◌, ◌++◌,
  ltb, ◌==◌, str_eq, any, keep, if◌then◌else◌, Result, ok, err,
}
use support_triage_llm.Values.{Value, object, named, no_members, truthy}

-- ran_at[:16], or the whole of ran_at
pub data TimeBucket : Type 0 where
  minute instant : ℕ → TimeBucket

unfoldable pub same_bucket : TimeBucket → TimeBucket → Bool
same_bucket (minute a) (minute b) = a == b
same_bucket (instant a) (instant b) = a == b
same_bucket _ _ = false

pub record EvidenceRun : Type 0 where
  pub evidence_id : String
  pub intake_id : String
  pub tool_name : String
  pub params_json : String
  pub ran_at : ℕ
  pub expires_at : ℕ
  pub time_bucket : TimeBucket
  pub params_hash : String
  pub status : String
  pub result_json : String
  pub summary_external : String
  pub summary_internal : String
  pub redaction_level : String
  pub result_hash : String
  pub ttl_seconds : Option ℕ
  pub error_message : Option String
  pub replays_evidence_id : Option String

-- the arguments of `record_evidence_run`
pub record Request : Type 0 where
  pub intake_id : String
  pub tool_name : String
  pub params : Value
  pub result : Value
  pub summary_external : String
  pub status : String
  pub redaction_level : String
  pub error_message : Option String
  pub replays_evidence_id : Option String
  pub cache_bucketed : Bool

-- the record answered, and whether it is an earlier run's
pub record Recorded : Type 0 where
  pub run : EvidenceRun
  pub cache_hit : Bool

pub data EvidenceError : Type 0 where
  integrity_error evidence_not_found : EvidenceError

abbrev pub minute_us : ℕ
minute_us = 60000000

abbrev pub day_us : ℕ
day_us = 86400000000

-- result or {}
unfoldable pub or_empty : Value → Value
or_empty v = if truthy v then v else object no_members

-- the unique index over tool_name, params_hash and time_bucket
unfoldable pub same_key : EvidenceRun → EvidenceRun → Bool
same_key e r =
    str_eq r.tool_name e.tool_name
    && (str_eq r.params_hash e.params_hash && same_bucket r.time_bucket e.time_bucket)

unfoldable pub later : EvidenceRun → Option EvidenceRun → EvidenceRun
later r none = r
later r (some s) = if ltb r.ran_at s.ran_at then s else r

-- ORDER BY ran_at DESC LIMIT 1
unfoldable pub latest : List EvidenceRun → Option EvidenceRun
latest [] = none
latest (r ∷ rs) = some (later r (latest rs))

-- the earlier run that an INSERT collides with; a collision of the ids alone finds none
unfoldable pub reuse :
    List EvidenceRun → Option EvidenceRun → Result EvidenceError (Recorded × List EvidenceRun)
reuse runs none = err integrity_error
reuse runs (some r) = ok (record { run = r; cache_hit = true }, runs)

unfoldable pub insert_run :
    EvidenceRun → List EvidenceRun → Result EvidenceError (Recorded × List EvidenceRun)
unfolding reuse
insert_run e runs =
    if any (same_key e) runs || any (λ r. str_eq r.evidence_id e.evidence_id) runs
    then reuse runs (latest (keep (same_key e) runs))
    else ok (record { run = e; cache_hit = false }, runs ++ (e ∷ []))

module _ (canonical_json : Value → String) (sha256 : String → String) (ttl_days : ℕ) where
  unfoldable pub new_run : String → ℕ → Request → EvidenceRun
  new_run uuid now q = record {
    evidence_id = uuid;
    intake_id = q.intake_id;
    tool_name = q.tool_name;
    params_json = canonical_json q.params;
    ran_at = now;
    expires_at = now + ttl_days * day_us;
    time_bucket = if q.cache_bucketed then minute (now / minute_us) else instant now;
    params_hash = sha256 (canonical_json q.params);
    status = q.status;
    result_json = canonical_json (or_empty q.result);
    summary_external = q.summary_external;
    summary_internal = "";
    redaction_level = q.redaction_level;
    result_hash = sha256 (
        canonical_json
          (object (named "params" q.params (named "result" (or_empty q.result) no_members))));
    ttl_seconds = none;
    error_message = q.error_message;
    replays_evidence_id = q.replays_evidence_id;
  }

  unfoldable pub record_evidence_run :
      String → ℕ → Request → List EvidenceRun → Result EvidenceError (Recorded × List EvidenceRun)
  unfolding new_run insert_run
  record_evidence_run uuid now q runs = insert_run (new_run uuid now q) runs
