-- ===== src/Retention/CleanupExamples.antt =====
-- A cleanup with one expired evidence run and one expired handoff pack of a resolved intake.
use support_triage_llm.Base.{
  ◌/◌, ◌%◌, ◌<◌, ◌≡◌, refl, true, false, none, some, [], ◌∷◌, ◌⊎◌, ok, err,
}
use mathlib.Core.List.{Memᴰ}
use support_triage_llm.Evidence.Runs.{EvidenceRun, minute}
use support_triage_llm.Intake.Tenants.{high}
use support_triage_llm.Intake.Intakes.{Intake}
use support_triage_llm.Intake.Handoffs.{HandoffPack}
use support_triage_llm.Retention.Cleanup.{
  args_of, Expiring, run_cleanup, is_past, PackQuery, no_such_column,
}
use support_triage_llm.Retention.CleanupLaws.{run_cleanup-deletes}

abbrev run : EvidenceRun
run = record {
  evidence_id = "e1";
  intake_id = "i1";
  tool_name = "log_evidence";
  params_json = "{}";
  ran_at = 0;
  expires_at = 5000000;
  time_bucket = minute 0;
  params_hash = "p";
  status = "ok";
  result_json = "{}";
  summary_external = "";
  summary_internal = "";
  redaction_level = "internal";
  result_hash = "r";
  ttl_seconds = none;
  error_message = none;
  replays_evidence_id = none;
}

abbrev old_pack : HandoffPack
old_pack = record {
  handoff_id = "h1";
  intake_id = "i1";
  created_at = 0;
  expires_at = some 5;
  tier = 3;
  payload_json = "{}";
  sent_to = none;
  status = "created";
}

abbrev intake : Intake
intake = record {
  intake_id = "i1";
  received_at = "";
  channel = "email";
  from_address = "";
  from_domain = "";
  claimed_domain = "";
  subject_raw = "";
  body_raw = "";
  attachments_json = "[]";
  tenant_id = none;
  identity_confidence = high;
  status = "resolved";
  resolution_note = "";
  resolved_at = some 4;
  customer_request_id = "";
  error_code = "";
  created_at = 0;
  updated_at = 4;
  acknowledged_at = none;
  acknowledged_by = none;
  deleted_at = none;
}

abbrev kept : Expiring
kept = record { runs = run ∷ []; packs = old_pack ∷ []; intakes = intake ∷ [] }

-- the packs that the query means, and SQLite's answer to it
abbrev meant : PackQuery
meant now force intakes packs = ok (λ p. is_past (now / 1000000) p.expires_at)

abbrev refused : PackQuery
refused now force intakes packs = err no_such_column

-- If SQLite found the column, everything would go.
applied_test :
    (run_cleanup meant 0 (args_of true false) 9000000 kept).1
    ≡ ok (record { evidence_runs = 1; handoff_packs = 1; intakes = 1 })
unfolding run_cleanup
applied_test = refl

dry_test : (run_cleanup meant 0 (args_of false false) 9000000 kept).0 ≡ kept
unfolding run_cleanup args_of
dry_test = refl

-- SQLite finds no such column, so the packs and the intakes stay.
refused_test :
    run_cleanup refused 0 (args_of true false) 9000000 kept
    ≡ (record kept { runs = [] }, err no_such_column)
unfolding run_cleanup args_of
refused_test = refl

-- A run that expires half a second after the clock's whole second is deleted.
early_test :
    (run_cleanup refused 0
      (args_of true false)
      5000000
      (record kept { runs = record run { expires_at = 5500000 } ∷ [] })).0.runs
    ≡ []
unfolding run_cleanup args_of
early_test = refl

run_cleanup-deletes_example :
    let k = (run_cleanup refused 0 (args_of true false) 9000000 kept).0 in
    Memᴰ run k.runs
    ⊎ ((i : Intake) × Memᴰ i (intake ∷ [])
        × ((args_of true false).dry_run ≡ false)
        × ((run.expires_at < 9000000)
            ⊎ ((9000000 % 1000000 ≡ 0) × (run.expires_at / 1000000 ≡ 9000000 / 1000000)))
        × (i.intake_id ≡ "i1")
        × ((i.status ≡ "resolved")
            ⊎ ((i.status ≡ "dead_letter") ⊎ ((args_of true false).force ≡ true))))
run_cleanup-deletes_example =
    run_cleanup-deletes refused 0 (args_of true false) 9000000 kept run (Memᴰ.head refl)
