-- ===== src/Server/AccessExamples.antt =====
-- A key, its role, and a first replay.
use support_triage_llm.Queue.Schema.{member}
use support_triage_llm.Base.{none, ◌<◌, String, ◌≡◌, refl, true, [], ◌∷◌, ok}
use support_triage_llm.Server.Access.{
  ServerConfig, is_admin, count_replays_for_evidence, respond, api_role, count_replays_for_key,
  handle_replay,
}
use support_triage_llm.Intake.Tenants.{unknown}
use support_triage_llm.Intake.Intakes.{Intake}
use support_triage_llm.Server.AccessLaws.{handle_replay-allowed}

abbrev config : ServerConfig
config = record {
  require_api_key = true;
  ingest_api_key = "k";
  admin_hashes = "k" ∷ [];
  t3_hashes = [];
}

abbrev digest : String → String
digest s = s

handle_replay-allowed_example :
    (count_replays_for_key digest config "k" 60 100 [] < 30)
    × (count_replays_for_evidence "e1" 3600 100 [] < 10)
    × (true ≡ true → is_admin (api_role digest config "k") ≡ true)
    × (respond (ok "e2") ≡ ok "e2")
unfolding handle_replay is_admin api_role member count_replays_for_key count_replays_for_evidence
    respond
handle_replay-allowed_example =
    handle_replay-allowed digest config "k" "e1" "e2" true 100 (ok "e2") [] refl

abbrev escalated : Intake
escalated = record {
  intake_id = "i1";
  received_at = "r";
  channel = "email";
  from_address = "a@acme.com";
  from_domain = "acme.com";
  claimed_domain = "";
  subject_raw = "s";
  body_raw = "b";
  attachments_json = "[]";
  tenant_id = none;
  identity_confidence = unknown;
  status = "escalated";
  resolution_note = "";
  resolved_at = none;
  customer_request_id = "";
  error_code = "";
  created_at = 3;
  updated_at = 3;
  acknowledged_at = none;
  acknowledged_by = none;
  deleted_at = none;
}
