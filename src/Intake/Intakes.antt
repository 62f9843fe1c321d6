-- ===== src/Intake/Intakes.antt =====
-- The table `intakes` of app/queue_db.py, and its operations.
use support_triage_llm.Base.{
  ℕ, String, Option, none, some, List, [], ◌∷◌, ◌++◌, str_eq, first, if◌then◌else◌,
}
use support_triage_llm.Base.Text.{or_text}
use support_triage_llm.Intake.Tenants.{Confidence, unknown, domain_from_email}

pub record Intake : Type 0 where
  pub intake_id : String
  pub received_at : String
  pub channel : String
  pub from_address : String
  pub from_domain : String
  pub claimed_domain : String
  pub subject_raw : String
  pub body_raw : String
  pub attachments_json : String
  pub tenant_id : Option String
  pub identity_confidence : Confidence
  pub status : String
  pub resolution_note : String
  pub resolved_at : Option ℕ
  pub customer_request_id : String
  pub error_code : String
  pub created_at : ℕ
  pub updated_at : ℕ
  pub acknowledged_at : Option ℕ
  pub acknowledged_by : Option String
  pub deleted_at : Option ℕ

-- the arguments of `insert_intake`; an absent text is empty
pub record NewIntake : Type 0 where
  pub received_at : String
  pub channel : String
  pub from_address : String
  pub claimed_domain : String
  pub subject_raw : String
  pub body_raw : String
  pub attachments_json : String
  pub customer_request_id : String
  pub error_code : String

unfoldable pub new_intake : String → ℕ → NewIntake → Intake
new_intake uuid now q = record {
  intake_id = uuid;
  received_at = q.received_at;
  channel = q.channel;
  from_address = q.from_address;
  from_domain = domain_from_email q.from_address;
  claimed_domain = q.claimed_domain;
  subject_raw = q.subject_raw;
  body_raw = q.body_raw;
  attachments_json = or_text q.attachments_json "[]";
  tenant_id = none;
  identity_confidence = unknown;
  status = "new";
  resolution_note = "";
  resolved_at = none;
  customer_request_id = q.customer_request_id;
  error_code = q.error_code;
  created_at = now;
  updated_at = now;
  acknowledged_at = none;
  acknowledged_by = none;
  deleted_at = none;
}

unfoldable pub insert_intake : String → ℕ → NewIntake → List Intake → List Intake
insert_intake uuid now q intakes = intakes ++ (new_intake uuid now q ∷ [])

unfoldable pub get_intake : String → List Intake → Option Intake
get_intake id intakes = first (λ i. str_eq i.intake_id id) intakes

-- UPDATE intakes SET … WHERE intake_id = id
unfoldable pub change_intake : String → (Intake → Intake) → List Intake → List Intake
change_intake id f [] = []
change_intake id f (i ∷ is) =
    let rest = change_intake id f is in if str_eq i.intake_id id then f i ∷ rest else i ∷ rest

unfoldable pub set_tenant : ℕ → Option String → Confidence → Intake → Intake
set_tenant now tenant confidence i = record i {
  tenant_id = tenant;
  identity_confidence = confidence;
  updated_at = now;
}

unfoldable pub update_intake_tenant :
    ℕ → String → Option String → Confidence → List Intake → List Intake
update_intake_tenant now id tenant confidence intakes =
    change_intake id (set_tenant now tenant confidence) intakes

-- COALESCE(?, column)
abbrev pub coalesce {ℓ} : {A : Type ℓ} → Option A → A → A
coalesce none old = old
coalesce (some new) old = new

unfoldable pub coalesce_time : Option ℕ → Option ℕ → Option ℕ
coalesce_time none old = old
coalesce_time (some t) old = some t

unfoldable pub set_status : ℕ → ℕ → String → Option String → Intake → Intake
set_status resolved now status note i = record i {
  status = status;
  resolution_note = coalesce note i.resolution_note;
  resolved_at =
      coalesce_time (if str_eq status "resolved" then some resolved else none) i.resolved_at;
  updated_at = now;
}

-- update_intake_status, which reads the clock twice
unfoldable pub update_intake_status :
    ℕ → ℕ → String → String → Option String → List Intake → List Intake
update_intake_status resolved now id status note intakes =
    change_intake id (set_status resolved now status note) intakes

unfoldable pub set_request_info : ℕ → Option String → Option String → Intake → Intake
set_request_info now request_id error_code i = record i {
  customer_request_id = coalesce request_id i.customer_request_id;
  error_code = coalesce error_code i.error_code;
  updated_at = now;
}

unfoldable pub update_intake_request_info :
    ℕ → String → Option String → Option String → List Intake → List Intake
update_intake_request_info now id request_id error_code intakes =
    change_intake id (set_request_info now request_id error_code) intakes

unfoldable pub set_acknowledged : ℕ → ℕ → String → Intake → Intake
set_acknowledged at now by i = record i {
  acknowledged_at = some at;
  acknowledged_by = some by;
  updated_at = now;
}

unfoldable pub acknowledge_intake : ℕ → ℕ → String → String → List Intake → List Intake
acknowledge_intake at now id by intakes = change_intake id (set_acknowledged at now by) intakes
