-- ===== src/Queue/Schema.antt =====
-- The constants of app/queue_db.py: updatable columns, status transitions, JSON columns.
use support_triage_llm.Base.{String, Bool, List, [], ◌∷◌, str_eq, any, if◌then◌else◌}

-- name in names
unfoldable pub member : String → List String → Bool
member s names = any (λ n. str_eq n s) names

unfoldable pub allowed_update_fields : List String
allowed_update_fields =
    "case_id" ∷ "message_id" ∷ "idempotency_key" ∷ "retry_count" ∷ "available_at"
    ∷ "conversation_id" ∷ "end_user_handle" ∷ "channel" ∷ "message_direction" ∷ "message_type"
    ∷ "payload" ∷ "raw_payload" ∷ "status" ∷ "processor_id" ∷ "started_at" ∷ "finished_at"
    ∷ "delivery_status" ∷ "delivery_route" ∷ "response_payload" ∷ "response_metadata"
    ∷ "latency_seconds" ∷ "quality_score" ∷ "matched" ∷ "missing" ∷ "triage_json"
    ∷ "draft_customer_reply_subject" ∷ "draft_customer_reply_body" ∷ "triage_draft_subject"
    ∷ "triage_draft_body" ∷ "review_final_subject" ∷ "review_final_body" ∷ "missing_info_questions"
    ∷ "llm_model" ∷ "prompt_version" ∷ "redaction_applied" ∷ "triage_mode" ∷ "llm_latency_ms"
    ∷ "llm_attempts" ∷ "schema_valid" ∷ "redacted_payload" ∷ "evidence_json"
    ∷ "evidence_sources_run" ∷ "evidence_created_at" ∷ "final_report_json" ∷ "ingest_signature"
    ∷ "review_action" ∷ "reviewed_at" ∷ "reviewer" ∷ "review_notes" ∷ "error_tags"
    ∷ "diff_subject_ratio" ∷ "diff_body_ratio" ∷ "sent_body" ∷ "edit_distance" ∷ "feedback_source"
    ∷ "closed_loop_at" ∷ "learning_eligible" ∷ "draft_synced_at" ∷ "draft_message_id" ∷ "created_at"
    ∷ []

-- ALLOWED_STATUS_TRANSITIONS.get(status, set())
unfoldable pub allowed_from : String → List String
allowed_from s =
    if str_eq s "queued"
    then "processing" ∷ "queued" ∷ "dead_letter" ∷ []
    else if str_eq s "processing"
    then "triaged" ∷ "queued" ∷ "dead_letter" ∷ "responded" ∷ "handoff" ∷ []
    else if str_eq s "triaged"
    then "awaiting_human" ∷ "approved" ∷ "rewrite" ∷ "escalate_pending" ∷ "triaged" ∷ "responded"
      ∷ []
    else if str_eq s "awaiting_human"
    then "approved" ∷ "rewrite" ∷ "escalate_pending" ∷ "awaiting_human" ∷ "responded" ∷ []
    else if str_eq s "approved"
    then "responded" ∷ "approved" ∷ []
    else if str_eq s "rewrite"
    then "triaged" ∷ "rewrite" ∷ []
    else if str_eq s "escalate_pending"
    then "triaged" ∷ "escalate_pending" ∷ []
    else if str_eq s "responded"
    then "delivered" ∷ "responded" ∷ []
    else if str_eq s "delivered"
    then "delivered" ∷ []
    else if str_eq s "handoff"
    then "delivered" ∷ "responded" ∷ "handoff" ∷ []
    else if str_eq s "dead_letter"
    then "dead_letter" ∷ []
    else []

unfoldable pub triage_complete_states : List String
triage_complete_states =
    "triaged" ∷ "awaiting_human" ∷ "approved" ∷ "rewrite" ∷ "escalate_pending" ∷ "responded"
    ∷ "delivered" ∷ []

-- the columns that `_maybe_json_dump` serialises
unfoldable pub json_fields : List String
json_fields =
    "matched" ∷ "missing" ∷ "response_payload" ∷ "response_metadata" ∷ "triage_json"
    ∷ "missing_info_questions" ∷ "redacted_payload" ∷ "evidence_json" ∷ "evidence_sources_run"
    ∷ "final_report_json" ∷ "error_tags" ∷ []
