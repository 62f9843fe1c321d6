-- ===== src/Evidence/Examples.antt =====
-- Two runs in one minute, and a replay whose tool fails.
use support_triage_llm.Base.{String, ◌≡◌, refl, true, false, none, [], ◌∷◌, ok}
use support_triage_llm.Values.{Value, text}
use support_triage_llm.Evidence.Runs.{
  EvidenceRun, Request, new_run, later, latest, same_bucket, same_key,
}
use support_triage_llm.Evidence.Replay.{
  raised, Replayed, replay_evidence, get_evidence_by_id, lineage_request, replay_of,
  run_tool_with_evidence,
}
use support_triage_llm.Evidence.RunLaws.{replay_evidence-raised, lineage_run}

abbrev dumps : Value → String
dumps v = "{}"

abbrev digest : String → String
digest s = s

abbrev loads : String → Value
loads s = text s

abbrev asked : String → Request
asked result = record {
  intake_id = "i1";
  tool_name = "log_evidence";
  params = text "{}";
  result = text result;
  summary_external = "";
  status = "ok";
  redaction_level = "internal";
  error_message = none;
  replays_evidence_id = none;
  cache_bucketed = true;
}

abbrev stored : EvidenceRun
stored = new_run dumps digest 90 "e1" 5 (asked "first")

replay_evidence-raised_example :
    (answer : Replayed) × (replay_evidence dumps digest 90 loads "e1" "e2" "e3" 7 8 false
        (raised "unreachable")
        (stored ∷ [])
      ≡ ok (
        answer,
        stored ∷ lineage_run dumps digest 90 loads "e3" 8 stored "unreachable" stored ∷ [],
      ))
    × (answer.run.status ≡ "ok")
    × (answer.run.error_message ≡ none)
unfolding get_evidence_by_id new_run run_tool_with_evidence same_key replay_of same_bucket latest
    later lineage_request
replay_evidence-raised_example =
    replay_evidence-raised dumps digest 90 loads "e1" "e2" "e3" "unreachable" 7 8 (stored ∷ [])
      stored stored refl refl refl refl
