-- ===== src/Worker/Attempt.antt =====
-- The body of the `try` in `process_once` of tools/triage_worker.py, part by part: the intake and the
-- identity of its sender, the triage, the evidence, and the draft. A reference to evidence leaves out the
-- parameters, and the meta data of the triage in a document the model's name, prompt version and latency.
-- An absent text is empty, and so is an absent subject or body of a draft.
use support_triage_llm.Base.{
  ℕ, String, Bool, true, false, Option, none, some, List, [], ◌∷◌, map, if◌then◌else◌,
}
use support_triage_llm.Base.Text.{lower, or_text}
use support_triage_llm.Values.{Value, num, text, array, object, no_members, named}
use support_triage_llm.Values.Objects.{set_member, members_in, get_in, elements_of}
use support_triage_llm.Intake.Tenants.{Resolved, Confidence, high, low, unknown}
use support_triage_llm.Triage.Payload.{Scope, Reply, Payload, text_or, list_or}
use support_triage_llm.Triage.Finish.{TriageMeta, window_or, triage}
use support_triage_llm.Triage.Finish as Finished
use support_triage_llm.Report.Template.{Facts}
use support_triage_llm.Worker.Select.{TriageResult, EvidenceBundle}
use support_triage_llm.Worker.Draft.{
  Draft, Guarded, guard_draft_claims, append_log_statement, append_service_status_statement,
}
use support_triage_llm.Worker.TimeFrame.{Asked, TimeFrame}
use support_triage_llm.Worker.Reading.{read_bundle, count_summary, find_log, find_status}
use support_triage_llm.Worker.Documents.{text_or_null, or_null, span_json}
use support_triage_llm.Worker.World.{World}

-- the sender of a message, as the worker takes it
pub record Identity : Type 0 where
  pub resolved : Resolved
  pub is_high : Bool
  pub tenant_id : Option String
  pub tenant : String
  pub service_ids : List String

unfoldable pub is_high_confidence : Confidence → Bool
is_high_confidence high = true
is_high_confidence low = false
is_high_confidence unknown = false

unfoldable pub identity_of : String → Resolved → Identity
unfolding is_high_confidence text_or
identity_of handle r =
    let sure = is_high_confidence r.confidence in
    let tenant_id = if sure then r.tenant_id else none in
    record {
      resolved = r;
      is_high = sure;
      tenant_id = tenant_id;
      tenant = text_or tenant_id handle;
      service_ids = if sure then r.entitled_services else "api" ∷ [];
    }

-- the service that a log query is given where it has none
unfoldable pub log_service_of : Identity → String
log_service_of c = elim c.resolved.entitled_services [ [] ↦ or_text c.tenant "api" | s ∷ ss ↦ s ]

-- what the customer says of the time
pub record CustomerWindow : Type 0 where
  pub start : String
  pub end : String
  pub confidence : Option ℕ
  pub reason : String
  pub anchor : String

unfoldable pub customer_time_window : String → Finished.Outcome → CustomerWindow
unfolding window_or text_or
customer_time_window anchor o =
    let w = window_or o.payload.time_window in
    record {
      start = text_or w.start "";
      end = text_or w.end "";
      confidence = w.confidence;
      reason = text_or o.payload.time_window_reason (or_text o.meta.time_window_reason "none");
      anchor = anchor;
    }

unfoldable pub asked_of : String → Finished.Outcome → Asked
unfolding window_or text_or
asked_of anchor o =
    let w = window_or o.payload.time_window in
    record {
      start = text_or w.start "";
      end = text_or w.end "";
      anchor = anchor;
      reason = o.meta.time_window_reason;
      sanity_overridden = o.meta.time_window_sanity_overridden;
      source = o.meta.time_window_source;
    }

unfoldable pub domains_of : Option Scope → List String
unfolding list_or
domains_of none = []
domains_of (some s) = list_or s.recipient_domains []

unfoldable pub draft_of : Option Reply → Draft
unfolding text_or
draft_of none = record { subject = ""; body = "" }
draft_of (some r) = record { subject = text_or r.subject ""; body = text_or r.body "" }

-- what the choice of the tools reads of the triage
unfoldable pub result_of : Payload → TriageResult
unfolding text_or list_or domains_of draft_of
result_of p = record {
  case_type = text_or p.case_type "";
  symptoms = list_or p.symptoms [];
  recipient_domains = domains_of p.scope;
  draft_body = (draft_of p.draft_customer_reply).body;
}

unfoldable pub customer_json : CustomerWindow → Value
unfolding text_or_null or_null
customer_json c = object (
    named "start" (text_or_null c.start) (
      named "end" (text_or_null c.end) (
        named "confidence" (or_null (λ n. num n) c.confidence)
          (named "reason" (text c.reason) (named "anchor" (text_or_null c.anchor) no_members)))))

-- the windows in the metadata of a bundle
unfoldable pub annotate : TimeFrame → CustomerWindow → String → Value → Value
unfolding set_member members_in get_in text_or_null or_null span_json
annotate f c tool bundle = object (
    set_member "metadata"
      (object (
        set_member "tool_name" (text tool) (
          set_member "customer_time_window_confidence" (or_null (λ n. num n) c.confidence) (
            set_member "customer_time_window_anchor" (text_or_null c.anchor) (
              set_member "customer_time_window_reason" (text c.reason) (
                set_member "customer_time_window" (span_json c.start c.end) (
                  set_member "investigation_time_window" (span_json f.start f.end) (
                    set_member "time_window_source" (text f.source) (
                      set_member "time_window_anchor" (text_or_null f.anchor) (
                        set_member "query_time_window_reason" (text f.reason)
                          (members_in (get_in "metadata" bundle))))))))))))
      (members_in bundle))

unfoldable pub annotate_all :
    TimeFrame → CustomerWindow → List (EvidenceBundle × Value) → List (EvidenceBundle × Value)
unfolding annotate
annotate_all f c [] = []
annotate_all f c ((b, v) ∷ bs) = (b, annotate f c b.tool_name v) ∷ annotate_all f c bs

unfoldable pub values_of : List (EvidenceBundle × Value) → List Value
values_of bs = map (λ p. p.1) bs

-- the draft after the guard, and its warnings; `bundles` are the relevant ones
unfoldable pub guarded_draft : World → Payload → List Value → Guarded
unfolding guard_draft_claims draft_of lower count_summary read_bundle list_or elements_of
guarded_draft w p bundles =
    guard_draft_claims
      (record {
        evidence_text = lower (w.dumps (array (elements_of bundles)));
        bounced = count_summary (map read_bundle bundles);
        truth_text = w.truth_text;
        questions = list_or p.missing_info_questions [];
      })
      (draft_of p.draft_customer_reply)

-- the draft with its statements
unfoldable pub stated_draft : Bool → CustomerWindow → List Value → Draft → Draft
unfolding append_log_statement append_service_status_statement find_log find_status
stated_draft is_high c bundles d =
    append_service_status_statement (find_status bundles) is_high
      (append_log_statement (find_log bundles) is_high c.start c.end d)

unfoldable pub facts_of : Payload → CustomerWindow → Facts
unfolding text_or
facts_of p c = record {
  case_type = text_or p.case_type "";
  start = c.start;
  end = c.end;
  case_id = "";
}
