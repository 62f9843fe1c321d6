-- ===== src/Worker/Documents.antt =====
-- The JSON documents of records that `process_once` of tools/triage_worker.py writes to the row: the
-- triage, its meta data, and the final report. An absent member is left out of the triage; confidences
-- are in hundredths.
use support_triage_llm.Base.{String, Option, none, some, List, map, str_eq, if◌then◌else◌}
use support_triage_llm.Values.{
  Value, null, flag, num, text, array, object, Members, no_members, named,
}
use support_triage_llm.Values.Objects.{elements_of, members_in, pop_member}
use support_triage_llm.Intake.Tenants.{Confidence, high, low, unknown}
use support_triage_llm.Triage.Payload.{Window, Reported, Scope, Payload}
use support_triage_llm.Triage.Finish.{TriageMeta}
use support_triage_llm.Worker.Draft.{Draft}
use support_triage_llm.Worker.TimeFrame.{TimeFrame}
use support_triage_llm.Report.Template.{Report}
use support_triage_llm.Report.Generate.{Meta, FinalReport, templated, generated}

unfoldable pub texts : List String → Value
unfolding elements_of
texts ss = array (elements_of (map (λ s. text s) ss))

-- null for an absent text, which is empty
unfoldable pub text_or_null : String → Value
text_or_null s = if str_eq s "" then null else text s

-- a member that may be absent, before the others
unfoldable pub maybe_member {ℓ} : {A : Type ℓ} → String → (A → Value) → Option A → Members → Members
maybe_member k f none ms = ms
maybe_member k f (some a) ms = named k (f a) ms

unfoldable pub or_null {ℓ} : {A : Type ℓ} → (A → Value) → Option A → Value
or_null f none = null
or_null f (some a) = f a

unfoldable pub window_json : Window → Value
unfolding or_null
window_json w = object (
    named "start" (or_null (λ s. text s) w.start) (
      named "end" (or_null (λ s. text s) w.end)
        (maybe_member "confidence" (λ n. num n) w.confidence no_members)))

unfoldable pub reported_json : Reported → Value
unfolding or_null
reported_json r = object (
    named "raw_text" (or_null (λ s. text s) r.raw_text) (
      named "timezone" (or_null (λ s. text s) r.timezone) (
        named "has_date" (flag r.has_date) (
          named "has_only_clock_time" (flag r.has_only_clock_time)
            (named "confidence" (num r.confidence) no_members)))))

unfoldable pub scope_json : Scope → Value
unfolding maybe_member texts
scope_json s = object (
    maybe_member "affected_tenants" texts s.affected_tenants (
      maybe_member "affected_users" texts s.affected_users (
        maybe_member "affected_recipients" texts s.affected_recipients (
          maybe_member "recipient_domains" texts s.recipient_domains (
            maybe_member "is_all_users" (λ b. flag b) s.is_all_users
              (maybe_member "notes" (λ t. text t) s.notes no_members))))))

unfoldable pub draft_json : Draft → Value
draft_json d = object (named "subject" (text d.subject) (named "body" (text d.body) no_members))

unfoldable pub span_json : String → String → Value
unfolding text_or_null
span_json start end =
    object (named "start" (text_or_null start) (named "end" (text_or_null end) no_members))

unfoldable pub frame_json : TimeFrame → Value
unfolding text_or_null
frame_json f = object (
    named "start" (text_or_null f.start) (
      named "end" (text_or_null f.end) (
        named "reason" (text f.reason)
          (named "source" (text f.source) (named "anchor" (text_or_null f.anchor) no_members)))))

-- the triage with its draft, and the windows that the worker adds
unfoldable pub triage_json : Payload → Draft → Value → Value → Value
triage_json p draft customer investigation = object (
    maybe_member "case_type" (λ s. text s) p.case_type
      (maybe_member "severity" (λ s. text s) p.severity
        (maybe_member "time_window" window_json p.time_window (
          maybe_member "reported_time_window" reported_json p.reported_time_window (
            maybe_member "time_ambiguity" (λ s. text s) p.time_ambiguity
              (maybe_member "scope" scope_json p.scope (
                maybe_member "symptoms" texts p.symptoms (
                  maybe_member "examples" (λ vs. array (elements_of vs)) p.examples
                    (maybe_member "missing_info_questions" texts p.missing_info_questions (
                      maybe_member "suggested_tools" (λ vs. array (elements_of vs))
                        p.suggested_tools
                        (maybe_member "time_window_reason" (λ s. text s) p.time_window_reason
                          (named "draft_customer_reply" (draft_json draft) (
                            named "customer_time_window" customer (
                              named "investigation_time_window" investigation
                                no_members))))))))))))))

unfoldable pub meta_json : TriageMeta → Value
unfolding text_or_null
meta_json m = object (
    named "triage_mode" (text m.triage_mode) (
      named "llm_attempts" (num m.llm_attempts) (
        named "redaction_applied" (flag m.redaction_applied) (
          named "redacted_text" (text m.redacted_text) (
            named "case_id" (text_or_null m.case_id) (
              named "time_window_source" (text m.time_window_source) (
                named "time_window_sanity_overridden" (flag m.time_window_sanity_overridden)
                  (named "time_window_reason" (text m.time_window_reason) no_members))))))))

unfoldable pub report_json : Report → Value
unfolding texts
report_json r =
    let c = r.classification in
    let u = r.customer_update in
    let e = r.engineering_escalation in
    object (
      named "classification"
        (object (
          named "failure_stage" (text c.failure_stage) (
            named "confidence" (num c.confidence)
              (named "top_reasons" (texts c.top_reasons) no_members))))
        (named "timeline_summary" (text r.timeline_summary) (
          named "customer_update"
            (object (
              named "subject" (text u.subject) (
                named "body" (text u.body)
                  (named "requested_info" (texts u.requested_info) no_members))))
            (named "engineering_escalation"
              (object (
                named "title" (text e.title) (
                  named "body" (text e.body) (
                    named "evidence_refs" (texts e.evidence_refs) (
                      named "severity" (text e.severity)
                        (named "repro_steps" (texts e.repro_steps) no_members))))))
              (named "kb_suggestions" (texts r.kb_suggestions) no_members)))))

-- the report without its `_meta`
unfoldable pub final_json : FinalReport → Value
unfolding report_json pop_member members_in
final_json (templated r m) = report_json r
final_json (generated v m) = object (pop_member "_meta" (members_in v))

unfoldable pub report_meta : FinalReport → Meta
report_meta (templated r m) = m
report_meta (generated v m) = m

-- the case id of a report is null, as the triage it is made from has no `_meta`
unfoldable pub report_meta_json : Meta → Value
unfolding texts text_or_null
report_meta_json m = object (
    named "report_mode" (text m.report_mode) (
      named "claim_warnings" (texts m.claim_warnings) (
        named "llm_attempts" (num m.llm_attempts)
          (named "case_id" (text_or_null m.case_id) no_members))))

unfoldable pub confidence_json : Confidence → Value
confidence_json high = text "high"
confidence_json low = text "low"
confidence_json unknown = text "unknown"
