-- ===== src/Worker/ProcessExamples.antt =====
-- A call of the worker on one message, which is triaged by rules.
use support_triage_llm.Worker.Linked.{IsLinked, process_once-IsLinked}
use support_triage_llm.Intake.Intakes.{get_intake}
use support_triage_llm.Worker.Documents.{maybe_member}
use support_triage_llm.TimeWindow.Parse.{mentions_yesterday, parse_time_window, mentions_today}
use support_triage_llm.Worker.Draft.{
  draft_text, join_lines, log_summary, hold_back, customer_line, append_to, unsupported,
  confirm_identity, claim_keywords,
}
use support_triage_llm.Queue.Schema.{
  allowed_update_fields, triage_complete_states, allowed_from, member,
}
use support_triage_llm.Base.{
  inr, ◌+◌, ◌≤◌, String, ◌≡◌, refl, Bool, true, some, List, [], ◌∷◌, ◌++◌, map, Result, ok, err,
  if◌then◌else◌, ◌⊎◌, arith,
}
use support_triage_llm.Worker.Retry.{retry_count_of, int_or_zero}
use mathlib.Core.List.{Memᴰ}
use support_triage_llm.Base.Text.{lower, contains}
use support_triage_llm.Values.{text, has, put}
use support_triage_llm.Values.Objects.{get_in}
use support_triage_llm.Queue.Rows.{Row, Table, find_row, change_row, is_ready, older, oldest}
use support_triage_llm.Queue.WellFormed.{WellFormed}
use support_triage_llm.Queue.Ops.{
  claim_row, claim_found, claim_with, collect, update_row_status, updates_of, write_columns,
  draft_of,
}
use support_triage_llm.Evidence.Runs.{EvidenceRun}
use support_triage_llm.Intake.Tenants.{
  Tenant, has_domain, unresolved, domain_from_email, after_at, resolve_tenant, resolve_claimed,
  resolve_from, resolved_as,
}
use support_triage_llm.Intake.Handoffs.{HandoffPack}
use support_triage_llm.Triage.Finish as Finished
use support_triage_llm.Worker.Select.{
  TriageResult, Tool, log_tool, tool_map, select_tools, dedupe, outage_keywords, join_words,
  contains_any, should_run_log_tool, has_outage_language, allowed_tools, query_type_of,
}
use support_triage_llm.Worker.Case.{identify, case_setting}
use support_triage_llm.Worker.Conclude.{attempt_row}
use support_triage_llm.Worker.Process.{WorkerError, process_once}
use support_triage_llm.Worker.ProcessLaws.{process_once_lem}
use support_triage_llm.Worker.AttemptLaws.{is_triaged, filed, attempt_lem}
use support_triage_llm.Worker.IdentityLaws.{identify-resolved, log_tool-unresolved}
use support_triage_llm.Worker.Reading.{worker_key, column, handle_of}
use support_triage_llm.Worker.Gather.{complete_params}
use support_triage_llm.Worker.ExampleWorld.{
  acme, world, draws, table, empty, describe, config, fin, claimed, asked_frame, window,
}

abbrev statuses : Result WorkerError (Table × Bool) → List String
statuses (err e) = []
statuses (ok (t, b)) = map (λ r. r.status) t.rows

process_test :
    statuses (process_once world describe config "w1" draws 9 10 fin empty table).1 ≡ "triaged" ∷ []
unfolding Finished.triage after_at allowed_from allowed_update_fields append_to change_row
    claim_found claim_keywords claim_with collect confirm_identity contains_any customer_line dedupe
    domain_from_email draft_of draft_text find_row has has_domain has_outage_language hold_back
    is_ready join_lines join_words log_summary log_tool maybe_member mentions_today
    mentions_yesterday older oldest outage_keywords parse_time_window process_once put
    resolve_claimed resolve_from resolve_tenant select_tools should_run_log_tool tool_map
    triage_complete_states unresolved unsupported update_row_status updates_of write_columns
process_test = refl

table-WellFormed : WellFormed table
table-WellFormed = record { distinct = (tt, tt); below = (omega arith, tt) }

process_once_lem_example :
    let (s', o) = attempt_row world draws claimed "w1" empty in
    (t' : Table) × (r : Row) × (process_once world describe config "w1" draws 9 10 fin empty table
      ≡ (s', ok (t', true)))
    × (find_row 1 t'.rows ≡ some r)
    × (((r.status ≡ "triaged") × (is_triaged o ≡ true))
        ⊎ (((r.status ≡ "queued")
              × (retry_count_of r ≡ retry_count_of claimed + 1)
              × (retry_count_of r ≤ config.max_retries))
            ⊎ (r.status ≡ "dead_letter")))
unfolding claim_row claim_found oldest is_ready older claim_with put int_or_zero worker_key
process_once_lem_example =
    process_once_lem world describe config "w1" draws fin 9 10 empty table claimed table-WellFormed
      refl (record { count = (0, refl); key = inr ("digest", refl) })

attempt_lem_example :
    let (s', o) = attempt_row world draws claimed "w1" empty in
    (s'.intakes ≡ [] ++ (filed world draws claimed ∷ []))
    × ((extra : List EvidenceRun) × (s'.runs ≡ [] ++ extra))
    × ((p : HandoffPack) × (s'.packs ≡ [] ++ (if is_triaged o then p ∷ [] else []))
        × (p.intake_id ≡ "i1"))
unfolding get_intake
attempt_lem_example = attempt_lem world draws claimed "w1" empty refl

-- a message from an address of the tenant
abbrev mailed : Row
mailed = record claimed { cells = ("end_user_handle", text "Ann@Acme.com") ∷ [] }

identify-resolved_example :
    let c = identify world draws mailed in
    (t : Tenant) × Memᴰ t (acme ∷ [])
    × (t.tenant_id ≡ "acme")
    × (has_domain (lower (domain_from_email (column "end_user_handle" mailed))) t ≡ true)
    × (c.is_high ≡ true)
    × (c.tenant_id ≡ some "acme")
    × (c.service_ids ≡ t.entitled_services)
unfolding identify resolve_tenant resolve_from has_domain lower domain_from_email after_at member
    resolved_as
identify-resolved_example = identify-resolved world draws mailed "acme" refl

abbrev asked : TriageResult
asked = record {
  case_type = "incident";
  symptoms = "site down" ∷ [];
  recipient_domains = [];
  draft_body = "";
}

abbrev log_asked : Tool
log_asked = record {
  name = "log_evidence";
  params = ("service", "api") ∷ ("query_type", "availability") ∷ [];
}

log_tool-unresolved_example :
    let p = complete_params (case_setting world draws claimed asked_frame window) log_asked in
    (log_asked.name ≡ "log_evidence")
    × (get_in "service" p ≡ text "api")
    × (get_in "tenant" p ≡ text (handle_of claimed))
unfolding identify resolve_tenant resolve_from has_domain lower domain_from_email after_at
    resolve_claimed unresolved log_tool should_run_log_tool member allowed_tools query_type_of
    contains join_words
log_tool-unresolved_example =
    log_tool-unresolved world draws claimed asked_frame window asked log_asked refl refl

process_once-IsLinked_example :
    IsLinked (process_once world describe config "w1" draws 9 10 fin empty table).0
unfolding get_intake
process_once-IsLinked_example =
    process_once-IsLinked world describe config "w1" draws fin 9 10 empty table refl (tt, tt)
