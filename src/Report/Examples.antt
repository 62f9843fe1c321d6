-- ===== src/Report/Examples.antt =====
-- Reports on some bundles, with a toy JSON.
use mathlib.Core.List.{Memᴰ}
use support_triage_llm.Base.{
  ℕ, zero, suc, String, ◌≡◌, refl, none, some, [], ◌∷◌, All, Result, ok, err, true, false,
  if◌then◌else◌,
}
use support_triage_llm.Base.Text.{lower, contains, begins_with}
use support_triage_llm.Values.{Value, text, object, no_members, named}
use support_triage_llm.Report.Template.{
  Event, Bundle, Facts, compose, timeline, allowed_tools_for_case,
}
use support_triage_llm.Report.Claims.{claim_keywords, is_backed}
use support_triage_llm.Report.Generate.{
  Outside, Meta, FinalReport, templated, generated, evidence_text, is_allowed, template_meta,
  generate_report_llm, generate_report,
}
use support_triage_llm.Report.Answers.{generate_report_llm-generated}
use support_triage_llm.Report.Sources.{IsCited, generate_report-IsCited}
use support_triage_llm.Triage.Extract.{extract_json_block, Failure}

abbrev body_of : Value → String
body_of (object (named k (text s) ms)) = s
body_of _ = ""

abbrev toy : Outside
toy = record {
  dumps_report = λ r. r.customer_update.body;
  dumps_answer = body_of;
  dumps_bundles = λ bundles. timeline bundles;
  loads = λ s. if begins_with "{" s then some (object (named "body" (text s) no_members)) else none;
  decode_error = λ s. "Expecting value";
  check_report = λ r. none;
  check_answer = λ v. none;
}

abbrev bounce : Event
bounce = record {
  id = "evt-1";
  ts = "2024-05-01T10:00:00Z";
  event_type = "Bounced";
  detail = "550 bounce";
}

abbrev mail : Bundle
mail = record {
  tool_name = "";
  source = some "email_events";
  events = bounce ∷ [];
  bounced = some 1;
}

abbrev outside : Bundle
outside = record { tool_name = "notes"; source = none; events = bounce ∷ []; bounced = none }

abbrev facts : Facts
facts = record { case_type = "email_delivery"; start = "10:00"; end = ""; case_id = "c1" }

abbrev first_good : ℕ → String → Result Failure String
first_good n prompt = ok "{bounce}"

-- The first answer claims spf; the second is faultless.
abbrev second_good : ℕ → String → Result Failure String
second_good zero prompt = ok "{spf}"
second_good (suc n) prompt = ok "{bounce}"

abbrev llm_meta : Meta
llm_meta = record { report_mode = "llm"; claim_warnings = []; llm_attempts = 1; case_id = "c1" }

first_test :
    generate_report_llm toy first_good (λ bundles. "") facts (mail ∷ [])
    ≡ ok (generated (object (named "body" (text "{bounce}") no_members)) llm_meta)
unfolding generate_report_llm
first_test = refl

abbrev mode_of : Result String FinalReport → String
mode_of (ok (templated r m)) = m.report_mode
mode_of (ok (generated v m)) = m.report_mode
mode_of (err e) = e

second_test :
    mode_of (generate_report_llm toy second_good (λ bundles. "") facts (mail ∷ []))
    ≡ "template_fallback"
unfolding generate_report_llm
second_test = refl

generate_report_llm-generated_example :
    (llm_meta.llm_attempts ≡ 1)
    × (llm_meta.claim_warnings ≡ [])
    × ((raw : String) × (first_good 0 "" ≡ ok raw)
        × ((extract_json_block toy.loads raw
              ≡ some (object (named "body" (text "{bounce}") no_members)))
            × (toy.check_answer (object (named "body" (text "{bounce}") no_members)) ≡ none)
            × All
                (λ k.
                  contains k (lower (body_of (object (named "body" (text "{bounce}") no_members))))
                    ≡ true
                  → is_backed (evidence_text toy (mail ∷ [])) (mail ∷ []) k ≡ true)
                claim_keywords))
unfolding generate_report_llm
generate_report_llm-generated_example =
    generate_report_llm-generated toy first_good (λ bundles. "") facts (mail ∷ [])
      (object (named "body" (text "{bounce}") no_members)) llm_meta refl

generate_report-IsCited_example :
    All
      (IsCited (λ b.
        Memᴰ b (mail ∷ outside ∷ [])
        × (is_allowed (allowed_tools_for_case "email_delivery") b ≡ true)))
      ("evt-1" ∷ [])
unfolding generate_report
generate_report-IsCited_example =
    generate_report-IsCited toy first_good (λ bundles. "") false facts (mail ∷ outside ∷ [])
      (compose facts (mail ∷ [])) (template_meta facts []) refl (λ h. cc)
