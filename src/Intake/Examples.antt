-- ===== src/Intake/Examples.antt =====
-- A tenant, an intake, and what happens to them.
use support_triage_llm.Queue.Schema.{member}
use support_triage_llm.Base.Text.{lower}
use support_triage_llm.Base.{◌≡◌, refl, none, [], ◌∷◌}
use support_triage_llm.Intake.Tenants.{
  Tenant, unknown, low, domain_from_email, resolve_tenant, after_at, has_domain, resolve_claimed,
  resolve_from, resolved_as,
}
use support_triage_llm.Intake.Laws.{resolve_tenant-claimed}
use support_triage_llm.Intake.Intakes.{Intake, NewIntake, insert_intake, new_intake}

abbrev acme : Tenant
acme = record {
  tenant_id = "t1";
  domains = "Acme.com" ∷ [];
  entitled_services = "api" ∷ [];
  default_region = none;
}

abbrev other : Tenant
other = record {
  tenant_id = "t2";
  domains = "other.org" ∷ [];
  entitled_services = [];
  default_region = none;
}

domain_test : domain_from_email "Ann@ACME.com" ≡ "acme.com"
unfolding domain_from_email lower after_at
domain_test = refl

claimed_test : (resolve_tenant (acme ∷ other ∷ []) "mail.net" "Other.org").confidence ≡ low
unfolding resolve_tenant resolve_from has_domain lower member resolve_claimed resolved_as
claimed_test = refl

resolve_tenant-claimed_example :
    resolve_tenant (acme ∷ other ∷ []) "acme.com" "other.org"
    ≡ resolve_tenant (acme ∷ other ∷ []) "acme.com" ""
unfolding resolve_tenant resolve_from has_domain lower member resolved_as
resolve_tenant-claimed_example =
    resolve_tenant-claimed (acme ∷ other ∷ []) "acme.com" "" "other.org" refl

abbrev asked : NewIntake
asked = record {
  received_at = "r";
  channel = "email";
  from_address = "a@acme.com";
  claimed_domain = "";
  subject_raw = "s";
  body_raw = "b";
  attachments_json = "";
  customer_request_id = "";
  error_code = "";
}

abbrev stored : Intake
stored = record {
  intake_id = "i1";
  received_at = "r";
  channel = "email";
  from_address = "a@acme.com";
  from_domain = "acme.com";
  claimed_domain = "";
  subject_raw = "s";
  body_raw = "b";
  attachments_json = "[]";
  tenant_id = none;
  identity_confidence = unknown;
  status = "new";
  resolution_note = "";
  resolved_at = none;
  customer_request_id = "";
  error_code = "";
  created_at = 3;
  updated_at = 3;
  acknowledged_at = none;
  acknowledged_by = none;
  deleted_at = none;
}

insert_test : insert_intake "i1" 3 asked [] ≡ stored ∷ []
unfolding insert_intake new_intake domain_from_email lower after_at
insert_test = refl
