-- ===== src/Worker/AttemptLaws.antt =====
-- What an attempt of `process_once` in tools/triage_worker.py leaves in the tables, and what its draft and
-- its report rest on.
use support_triage_llm.Base.{
  if◌then◌else◌, String, ◌≡◌, refl, sym, ◌∙◌, ap, Bool, true, false, none, List, [], ◌∷◌, ◌++◌,
  str_eq, eq_refl, Result, ok, err, Bool-cases, inl, inr, append_nil,
}
use support_triage_llm.Queue.Rows.{Row}
use support_triage_llm.Evidence.Runs.{EvidenceRun}
use support_triage_llm.Intake.Intakes.{
  Intake, get_intake, change_intake, set_tenant, update_intake_tenant, insert_intake,
}
use support_triage_llm.Intake.Intakes as Intakes
use support_triage_llm.Intake.Handoffs.{HandoffPack, create_handoff_pack}
use support_triage_llm.Triage.Extract.{TriageError, rejected, crashed}
use support_triage_llm.Triage.Finish as Finished
use support_triage_llm.Report.Generate.{FinalReport}
use support_triage_llm.Worker.Retry.{Outcome, triaged, schema_error, failure}
use support_triage_llm.Worker.Analysis.{after_triage}
use support_triage_llm.Worker.GatherLaws.{gather_lem}
use support_triage_llm.Worker.World.{World, Draws, Tables}
use support_triage_llm.Worker.Attempt.{result_of}
use support_triage_llm.Worker.Case.{
  Findings, new_intake, identify, take_in, triage_row, gather_for, findings_of, report_of, frame_of,
  customer_of, case_setting,
}
use support_triage_llm.Worker.Conclude.{pack, after_report, investigate, after_attempt, attempt_row}

unfoldable pub is_triaged : Outcome → Bool
is_triaged (triaged columns) = true
is_triaged (schema_error e) = false
is_triaged (failure e) = false

-- A change of the last intake, whose id no other has, changes it alone.
pub change_intake-last :
    (id : String) (f : Intake → Intake) (i : Intake) (is : List Intake)
    → i.intake_id ≡ id
    → get_intake id is ≡ none
    → change_intake id f (is ++ (i ∷ [])) ≡ is ++ (f i ∷ [])
unfolding change_intake get_intake
change_intake-last id f i [] e h = rw (e, eq_refl id) refl
change_intake-last id f i (j ∷ is) e h = elim (Bool-cases (str_eq j.intake_id id)) [
  | inl k ↦ absurd (cc (rw k at h))
  | inr k ↦ rw k (ap (λ r. j ∷ r) (change_intake-last id f i is e (rw k at h)))
]

module _ (w : World) (d : Draws) (row : Row) where
  -- the intake that an attempt files
  abbrev pub filed : Intake
  filed =
      set_tenant d.now (identify w d row).resolved.tenant_id (identify w d row).resolved.confidence
        (Intakes.new_intake d.intake_id d.now (new_intake w d row))

  -- The runs are extended; a pack for the intake is added exactly where the outcome is `triaged`.
  abbrev Left : Tables → Tables × Outcome → Type 0
  Left s (s', o) =
      (s'.intakes ≡ s.intakes)
      × ((extra : List EvidenceRun) × (s'.runs ≡ s.runs ++ extra))
      × ((p : HandoffPack) × (s'.packs ≡ s.packs ++ (if is_triaged o then p ∷ [] else []))
          × (p.intake_id ≡ d.intake_id))

  abbrev no_pack : HandoffPack
  no_pack = record {
    handoff_id = "";
    intake_id = d.intake_id;
    created_at = 0;
    expires_at = none;
    tier = 0;
    payload_json = "";
    sent_to = none;
    status = "";
  }

  after_report-Kept :
      (processor_id : String) (o : Finished.Outcome) (x : Findings) (s : Tables)
      (runs extra : List EvidenceRun) (r : Result String FinalReport)
      → runs ≡ s.runs ++ extra
      → Left s (after_report w d row processor_id o x (record s { runs = runs }) r)
  unfolding after_report pack create_handoff_pack is_triaged
  after_report-Kept processor_id o x s runs extra (ok r) e = (refl, (extra, e), (_, refl, refl))
  after_report-Kept processor_id o x s runs extra (err r) e =
      (refl, (extra, e), (no_pack, sym (append_nil s.packs), refl))

  after_attempt-Kept :
      (processor_id : String) (s : Tables) (r : Result TriageError Finished.Outcome)
      → Left s (after_attempt w d row processor_id s r)
  unfolding after_attempt after_triage investigate gather_for is_triaged
  after_attempt-Kept processor_id s (ok o) =
      let ((extra, e), _, _) =
        gather_lem w.dumps w.sha256 w.evidence_ttl_days w.loads_params w.describe w.run_tool
          d.run_id d.run_clock (case_setting w d row (frame_of w d row o) (customer_of w d row o))
          w.registry (result_of o.payload) s.runs in
      after_report-Kept processor_id o (findings_of w d row o (gather_for w d row o s)) s
        (gather_for w d row o s).runs extra
        (report_of w d row o (findings_of w d row o (gather_for w d row o s))) e
  after_attempt-Kept processor_id s (err (rejected e)) =
      (refl, ([], sym (append_nil s.runs)), (no_pack, sym (append_nil s.packs), refl))
  after_attempt-Kept processor_id s (err (crashed e)) =
      (refl, ([], sym (append_nil s.runs)), (no_pack, sym (append_nil s.packs), refl))

  -- An attempt files one intake, with the tenant and the confidence of the sender's domain, however it
  -- ends: a message that is tried again is filed again. It only adds evidence runs, and it writes one
  -- handoff pack, for that intake, exactly where it ends with the columns of a triage. The intake's
  -- id is new.
  pub attempt_lem :
      (processor_id : String) (s : Tables)
      → get_intake d.intake_id s.intakes ≡ none
      → let (s', o) = attempt_row w d row processor_id s in
        (s'.intakes ≡ s.intakes ++ (filed ∷ []))
        × ((extra : List EvidenceRun) × (s'.runs ≡ s.runs ++ extra))
        × ((p : HandoffPack) × (s'.packs ≡ s.packs ++ (if is_triaged o then p ∷ [] else []))
            × (p.intake_id ≡ d.intake_id))
  unfolding attempt_row take_in update_intake_tenant insert_intake
  attempt_lem processor_id s h =
      let (intakes, runs, packs) =
        after_attempt-Kept processor_id (take_in w d row s) (triage_row w d row) in
      (
        intakes
            ∙ change_intake-last d.intake_id
                (set_tenant d.now (identify w d row).resolved.tenant_id
                  (identify w d row).resolved.confidence)
                (Intakes.new_intake d.intake_id d.now (new_intake w d row)) s.intakes
                (unfold Intakes.new_intake in refl) h,
        runs,
        packs,
      )
