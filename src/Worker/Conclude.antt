-- ===== src/Worker/Conclude.antt =====
-- The end of an attempt in `process_once` of tools/triage_worker.py: the handoff pack, the columns of the
-- row, and the attempt as a whole. What the meta data of the triage say of the model follows from the mode;
-- both modes set `schema_valid`.
use support_triage_llm.Base.{
  str_eq, String, none, List, [], ◌∷◌, keep, length, if◌then◌else◌, Result, ok, err,
}
use support_triage_llm.Base.Text.{or_text}
use support_triage_llm.Values.{
  Value, time, num, text, array, object, no_members, named, Dict, get, or_value,
}
use support_triage_llm.Values.Objects.{elements_of}
use support_triage_llm.Queue.Schema.{member}
use support_triage_llm.Queue.Rows.{Row}
use support_triage_llm.Intake.Handoffs.{create_handoff_pack}
use support_triage_llm.Triage.Extract.{TriageError}
use support_triage_llm.Triage.Payload.{list_or}
use support_triage_llm.Triage.Finish.{triage}
use support_triage_llm.Triage.Finish as Finished
use support_triage_llm.Report.Generate.{FinalReport}
use support_triage_llm.Worker.Retry.{Outcome, triaged, schema_error}
use support_triage_llm.Worker.Analysis.{after_triage}
use support_triage_llm.Worker.Select.{allowed_tools}
use support_triage_llm.Worker.Gather.{EvidenceRef}
use support_triage_llm.Worker.Reading.{column, extract_text}
use support_triage_llm.Worker.Documents.{
  texts, or_null, span_json, frame_json, triage_json, meta_json, final_json, report_meta,
  report_meta_json, confidence_json,
}
use support_triage_llm.Worker.World.{World, Draws, Tables}
use support_triage_llm.Worker.Attempt.{result_of, annotate_all, values_of, customer_json}
use support_triage_llm.Worker.Case.{
  Findings, identify, take_in, triage_row, gather_for, findings_of, report_of,
}

unfoldable pub ref_json : EvidenceRef → Value
ref_json r =
    object (named "evidence_id" (text r.evidence_id) (named "tool" (text r.tool) no_members))

unfoldable pub refs_json : List EvidenceRef → List Value
unfolding ref_json
refs_json [] = []
refs_json (r ∷ rs) = ref_json r ∷ refs_json rs

module _ (w : World) (d : Draws) (row : Row) where
  unfoldable pub handoff_payload : Finished.Outcome → Findings → Value
  unfolding identify or_null texts confidence_json list_or frame_json elements_of refs_json
      allowed_tools result_of member
  handoff_payload o x = object (
      named "export_version" (num 1) (
        named "intake_id" (text d.intake_id) (
          named "tenant_id" (or_null (λ s. text s) (identify w d row).tenant_id) (
            named "identity_confidence" (confidence_json (identify w d row).resolved.confidence) (
              named "symptoms" (texts (list_or o.payload.symptoms [])) (
                named "service_ids" (texts (identify w d row).service_ids) (
                  named "time_window" (frame_json x.frame) (
                    named "evidence_refs"
                      (array (
                        elements_of (
                          refs_json (
                            keep (λ r. member r.tool (allowed_tools (result_of o.payload)))
                              x.gathered.refs))))
                      (named "recommended_next_steps"
                        (texts (
                          "Replay log_evidence with same params"
                          ∷ "Replay service_status checks for entitled services" ∷ []))
                        no_members)))))))))

  unfoldable pub pack : Finished.Outcome → Findings → Tables → Tables
  unfolding create_handoff_pack handoff_payload
  pack o x s = record s {
    packs =
        create_handoff_pack w.dumps w.handoff_ttl_days d.handoff_id d.now d.now d.intake_id 3
          (handoff_payload o x) none "created" s.packs;
  }

  unfoldable pub response_json : Finished.Outcome → Findings → FinalReport → Value
  unfolding meta_json report_meta report_meta_json texts
  response_json o x r = object (
      named "triage_meta" (meta_json o.meta) (
        named "report_meta" (report_meta_json (report_meta r)) (
          named "draft_warnings" (texts x.guarded.warnings) (
            named "handoff_id" (text d.handoff_id) (
              named "evidence_partition"
                (object (
                  named "relevant_count" (num (length x.partition.relevant))
                    (named "other_count" (num (length x.partition.other)) no_members)))
                no_members)))))

  -- the columns of a row that has been triaged
  unfoldable pub triaged_columns : String → Finished.Outcome → Findings → FinalReport → Dict
  unfolding column extract_text triage_json span_json texts list_or elements_of values_of
      customer_json annotate_all final_json response_json or_value get
  triaged_columns processor_id o x r =
      let sent = column "conversation_id" row in
      let is_llm = str_eq o.meta.triage_mode "llm" in
      ("conversation_id", text (or_text sent d.conversation_id))
      ∷ ("payload", text (extract_text row))
      ∷ ("redacted_payload", text (or_text o.meta.redacted_text (extract_text row)))
      ∷ ("processor_id", text processor_id)
      ∷ ("started_at", or_value (get "started_at" row.cells) (time d.now))
      ∷ ("finished_at", time d.now)
      ∷ ("latency_seconds", num d.elapsed)
      ∷ (
        "triage_json",
        triage_json o.payload x.draft (customer_json x.customer)
            (span_json x.frame.start x.frame.end),
      )
      ∷ ("draft_customer_reply_subject", text x.draft.subject)
      ∷ ("draft_customer_reply_body", text x.draft.body)
      ∷ ("triage_draft_subject", text x.draft.subject)
      ∷ ("triage_draft_body", text x.draft.body)
      ∷ ("missing_info_questions", texts (list_or o.payload.missing_info_questions []))
      ∷ ("llm_model", text (if is_llm then w.llm_model else "heuristic"))
      ∷ ("prompt_version", text (if is_llm then "triage-llm-v1" else "triage-heuristic-v1"))
      ∷ ("redaction_applied", num (if o.meta.redaction_applied then 1 else 0))
      ∷ ("triage_mode", text o.meta.triage_mode)
      ∷ ("llm_latency_ms", num (if is_llm then d.llm_latency_ms else 0))
      ∷ ("llm_attempts", num o.meta.llm_attempts)
      ∷ ("schema_valid", num 1)
      ∷ (
        "evidence_json",
        array (elements_of (values_of (annotate_all x.frame x.customer x.gathered.bundles))),
      )
      ∷ ("evidence_sources_run", texts x.gathered.sources_run)
      ∷ ("evidence_created_at", time d.now)
      ∷ ("final_report_json", final_json r)
      ∷ ("response_metadata", response_json o x r)
      ∷ ("case_id", text (or_text o.meta.case_id (or_text (column "case_id" row) sent)))
      ∷ []

  -- after the report, or the schema error that it raised
  unfoldable pub after_report :
      String → Finished.Outcome → Findings → Tables → Result String FinalReport → Tables × Outcome
  unfolding pack triaged_columns
  after_report processor_id o x s (err e) = (s, schema_error e)
  after_report processor_id o x s (ok r) =
      (pack o x s, triaged (triaged_columns processor_id o x r))

  unfoldable pub investigate : String → Finished.Outcome → Tables → Tables × Outcome
  unfolding gather_for findings_of report_of after_report
  investigate processor_id o s =
      let g = gather_for w d row o s in
      let x = findings_of w d row o g in
      after_report processor_id o x (record s { runs = g.runs }) (report_of w d row o x)

  -- after the triage, or the exception that it raised
  unfoldable pub after_attempt :
      String → Tables → Result TriageError Finished.Outcome → Tables × Outcome
  unfolding investigate after_triage
  after_attempt processor_id s (ok o) = investigate processor_id o s
  after_attempt processor_id s (err e) = (s, after_triage (λ o. schema_error "") (err e))

  -- the body of the `try`
  unfoldable pub attempt_row : String → Tables → Tables × Outcome
  unfolding take_in after_attempt triage_row
  attempt_row processor_id s = after_attempt processor_id (take_in w d row s) (triage_row w d row)
