-- ===== src/Worker/Case.antt =====
-- One attempt at a row in `process_once` of tools/triage_worker.py: the intake of the message, its triage,
-- the evidence, the draft and the report.
use support_triage_llm.Base.{ℕ, String, map, Result}
use support_triage_llm.Base.Text.{or_text, join}
use support_triage_llm.Values.{Value, text}
use support_triage_llm.Queue.Rows.{Row}
use support_triage_llm.Intake.Tenants.{domain_from_email, resolve_tenant}
use support_triage_llm.Intake.Intakes.{NewIntake, insert_intake, update_intake_tenant}
use support_triage_llm.Triage.Extract.{TriageError}
use support_triage_llm.Triage.Finish.{triage}
use support_triage_llm.Triage.Finish as Finished
use support_triage_llm.Report.Generate.{FinalReport, generate_report}
use support_triage_llm.Worker.Select.{EvidenceBundle, Partition, partition_evidence, allowed_tools}
use support_triage_llm.Worker.Draft.{Draft, Guarded}
use support_triage_llm.Worker.TimeFrame.{TimeFrame, derive_query_time_window, anchor_or}
use support_triage_llm.Worker.Gather.{Setting, Gathered, gather}
use support_triage_llm.Worker.Reading.{
  column, extract_text, handle_of, received_at, extract_request_ids, read_bundle,
}
use support_triage_llm.Worker.Documents.{texts, text_or_null, or_null}
use support_triage_llm.Worker.World.{World, Draws, Tables}
use support_triage_llm.Worker.Attempt.{
  Identity, CustomerWindow, identity_of, log_service_of, customer_time_window, asked_of, result_of,
  annotate_all, values_of, guarded_draft, stated_draft, facts_of,
}

-- what an attempt has found by the time it writes the report
pub record Findings : Type 0 where
  pub frame : TimeFrame
  pub customer : CustomerWindow
  pub gathered : Gathered
  pub partition : Partition (EvidenceBundle × Value)
  pub guarded : Guarded
  pub draft : Draft

module _ (w : World) (d : Draws) (row : Row) where
  unfoldable pub new_intake : NewIntake
  unfolding received_at column extract_text extract_request_ids texts
  new_intake =
      let ids = extract_request_ids (w.matches (extract_text row)) in
      record {
        received_at = or_text (received_at w.loads w.iso row) (w.iso d.now);
        channel = or_text (column "channel" row) "email";
        from_address = column "end_user_handle" row;
        claimed_domain = "";
        subject_raw = column "payload_subject" row;
        body_raw = extract_text row;
        attachments_json = "[]";
        customer_request_id = w.dumps (texts ids.customer_request_ids);
        error_code = join "," ids.error_codes;
      }

  unfoldable pub identify : Identity
  unfolding identity_of handle_of column
  identify =
      identity_of (handle_of row)
        (resolve_tenant w.tenants (domain_from_email (column "end_user_handle" row)) "")

  -- the intake of the message, with its tenant
  unfoldable pub take_in : Tables → Tables
  unfolding new_intake identify
  take_in s = record s {
    intakes =
        update_intake_tenant d.now d.intake_id identify.resolved.tenant_id
          identify.resolved.confidence (insert_intake d.intake_id d.now new_intake s.intakes);
  }

  unfoldable pub row_anchor : ℕ
  unfolding anchor_or received_at
  row_anchor = anchor_or w.parse_iso w.iso d.now (received_at w.loads w.iso row)

  unfoldable pub triage_row : Result TriageError Finished.Outcome
  unfolding identify row_anchor extract_text column
  triage_row =
      triage w.libraries (w.subject_of (extract_text row) identify.tenant)
        (w.redacts (extract_text row)) row_anchor (column "case_id" row) w.triage_is_llm
        w.triage_call w.triage_prompt

  unfoldable pub case_setting : TimeFrame → CustomerWindow → Setting
  unfolding identify log_service_of text_or_null or_null
  case_setting f c = record {
    intake_id = d.intake_id;
    query_start = text_or_null f.start;
    query_end = text_or_null f.end;
    customer_start = text_or_null c.start;
    customer_end = text_or_null c.end;
    tenant = text identify.tenant;
    log_service = text (log_service_of identify);
    tenant_id = or_null (λ s. text s) identify.tenant_id;
    region = or_null (λ s. text s) identify.resolved.default_region;
    service_ids = identify.service_ids;
  }

  unfoldable pub frame_of : Finished.Outcome → TimeFrame
  unfolding derive_query_time_window asked_of row_anchor
  frame_of o = derive_query_time_window w.parse_iso w.iso d.now (asked_of (w.iso row_anchor) o)

  unfoldable pub customer_of : Finished.Outcome → CustomerWindow
  unfolding customer_time_window row_anchor
  customer_of o = customer_time_window (w.iso row_anchor) o

  unfoldable pub gather_for : Finished.Outcome → Tables → Gathered
  unfolding gather case_setting frame_of customer_of result_of
  gather_for o s =
      gather w.dumps w.sha256 w.evidence_ttl_days w.loads_params w.describe w.run_tool d.run_id
        d.run_clock (case_setting (frame_of o) (customer_of o)) w.registry (result_of o.payload)
        s.runs

  -- the draft and the evidence that it may use
  unfoldable pub findings_of : Finished.Outcome → Gathered → Findings
  unfolding frame_of customer_of partition_evidence annotate_all allowed_tools result_of values_of
      guarded_draft stated_draft identify
  findings_of o g =
      let f = frame_of o in
      let c = customer_of o in
      let p =
        partition_evidence (λ b. b.0) (annotate_all f c g.bundles)
          (allowed_tools (result_of o.payload)) in
      let guarded = guarded_draft w o.payload (values_of p.relevant) in
      record {
        frame = f;
        customer = c;
        gathered = g;
        partition = p;
        guarded = guarded;
        draft = stated_draft identify.is_high c (values_of p.relevant) guarded.draft;
      }

  unfoldable pub report_of : Finished.Outcome → Findings → Result String FinalReport
  unfolding generate_report facts_of values_of read_bundle
  report_of o x =
      generate_report w.reporting w.report_call w.report_prompt w.report_is_llm
        (facts_of o.payload x.customer) (map read_bundle (values_of x.partition.relevant))
