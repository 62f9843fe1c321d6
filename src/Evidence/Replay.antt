-- ===== src/Evidence/Replay.antt =====
-- `run_tool_with_evidence` and `replay_evidence` of tools/evidence_runner.py. What the registry's
-- tool returns or raises is an argument; `loads` stands for `json.loads`.
use support_triage_llm.Base.{
  ℕ, String, Bool, false, not, Option, none, some, List, str_eq, first, if◌then◌else◌, Result, ok,
  err, ◌>>=◌,
}
use support_triage_llm.Base.Text.{or_text}
use support_triage_llm.Values.{Value, flag, time, text, object, no_members}
use support_triage_llm.Values.Objects.{members_in, get_in, set_member}
use support_triage_llm.Evidence.Runs.{
  EvidenceRun, Request, Recorded, EvidenceError, evidence_not_found, record_evidence_run,
}

-- a result with its customer-facing summary, or the text of an exception
pub data ToolOutcome : Type 0 where
  returned : Value → String → ToolOutcome
  raised : String → ToolOutcome

unfoldable pub result_of : ToolOutcome → Value
result_of (returned v s) = v
result_of (raised e) = object no_members

unfoldable pub summary_of : ToolOutcome → String
summary_of (returned v s) = s
summary_of (raised e) = ""

unfoldable pub status_of : ToolOutcome → String
status_of (returned v s) = "ok"
status_of (raised e) = "error"

unfoldable pub error_of : ToolOutcome → Option String
error_of (returned v s) = none
error_of (raised e) = some e

pub record ToolRun : Type 0 where
  pub intake_id : String
  pub tool_name : String
  pub params : Value
  pub redaction_level : String
  pub replays : Option String
  pub allow_cache : Bool

unfoldable pub request_of : ToolRun → ToolOutcome → Request
unfolding result_of summary_of status_of error_of
request_of q outcome = record {
  intake_id = q.intake_id;
  tool_name = q.tool_name;
  params = q.params;
  result = result_of outcome;
  summary_external = summary_of outcome;
  status = status_of outcome;
  redaction_level = q.redaction_level;
  error_message = error_of outcome;
  replays_evidence_id = q.replays;
  cache_bucketed = q.allow_cache;
}

-- the result with the keys that the runner adds to its metadata; a metadata that is no object counts
-- as absent
unfoldable pub with_metadata : Recorded → ToolOutcome → Value
unfolding result_of summary_of get_in members_in set_member
with_metadata r outcome = object (
    set_member "metadata"
      (object (
        set_member "checked_at" (time r.run.ran_at) (
          set_member "cache_hit" (flag r.cache_hit) (
            set_member "summary_external" (text (summary_of outcome)) (
              set_member "evidence_id" (text r.run.evidence_id)
                (members_in (get_in "metadata" (result_of outcome))))))))
      (members_in (result_of outcome)))

unfoldable pub get_evidence_by_id : String → List EvidenceRun → Option EvidenceRun
get_evidence_by_id id runs = first (λ r. str_eq r.evidence_id id) runs

pub record Replayed : Type 0 where
  pub run : EvidenceRun
  pub hash_changed : Bool
  pub previous_checked_at : ℕ

module _ (canonical_json : Value → String) (sha256 : String → String) (ttl_days : ℕ)
    (loads : String → Value) where
  unfoldable pub run_tool_with_evidence :
      String
      → ℕ
      → ToolRun
      → ToolOutcome
      → List EvidenceRun
      → Result EvidenceError (Recorded × List EvidenceRun)
  unfolding record_evidence_run request_of
  run_tool_with_evidence uuid now q outcome runs =
      record_evidence_run canonical_json sha256 ttl_days uuid now (request_of q outcome) runs

  -- the run that a replay asks for
  unfoldable pub replay_of : EvidenceRun → Bool → ToolRun
  replay_of e force = record {
    intake_id = e.intake_id;
    tool_name = e.tool_name;
    params = loads (or_text e.params_json "{}");
    redaction_level = or_text e.redaction_level "internal";
    replays = some e.evidence_id;
    allow_cache = not force;
  }

  -- after a cache hit: a row of its own for the replay
  unfoldable pub lineage_request : EvidenceRun → ToolOutcome → Recorded → Request
  lineage_request e outcome recorded = record {
    intake_id = e.intake_id;
    tool_name = e.tool_name;
    params = loads (or_text e.params_json "{}");
    result = with_metadata recorded outcome;
    summary_external = summary_of outcome;
    status = "ok";
    redaction_level = or_text e.redaction_level "internal";
    error_message = none;
    replays_evidence_id = some e.evidence_id;
    cache_bucketed = false;
  }

  -- the row of the replay, once the tool has been run and recorded
  unfoldable pub settle_replay :
      String
      → ℕ
      → EvidenceRun
      → ToolOutcome
      → Recorded × List EvidenceRun
      → Result EvidenceError (Recorded × List EvidenceRun)
  unfolding lineage_request record_evidence_run
  settle_replay uuid now e outcome (recorded, runs) =
      let fabricated =
        record_evidence_run canonical_json sha256 ttl_days uuid now
          (lineage_request e outcome recorded) runs in
      if recorded.cache_hit then fabricated else ok (recorded, runs)

  unfoldable pub replay_found :
      String
      → String
      → ℕ
      → ℕ
      → Bool
      → ToolOutcome
      → List EvidenceRun
      → Option EvidenceRun
      → Result EvidenceError (Replayed × List EvidenceRun)
  unfolding run_tool_with_evidence replay_of settle_replay
  replay_found uuid uuid' now now' force outcome runs none = err evidence_not_found
  replay_found uuid uuid' now now' force outcome runs (some e) =
      run_tool_with_evidence uuid now (replay_of e force) outcome runs >>= (λ first_try.
        settle_replay uuid' now' e outcome first_try >>= (λ last. ok (
          record {
            run = record last.0.run { replays_evidence_id = some e.evidence_id };
            hash_changed = not (str_eq last.0.run.result_hash e.result_hash);
            previous_checked_at = e.ran_at;
          },
          last.1,
        )))

  -- replay_evidence, with the ids and the clock readings of its two rows
  unfoldable pub replay_evidence :
      String
      → String
      → String
      → ℕ
      → ℕ
      → Bool
      → ToolOutcome
      → List EvidenceRun
      → Result EvidenceError (Replayed × List EvidenceRun)
  unfolding replay_found get_evidence_by_id
  replay_evidence id uuid uuid' now now' force outcome runs =
      replay_found uuid uuid' now now' force outcome runs (get_evidence_by_id id runs)
