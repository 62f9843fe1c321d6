-- ===== src/Worker/DraftExamples.antt =====
-- A draft whose subject makes a claim.
use support_triage_llm.LogEvidence.Entries.{insert_sorted}
use support_triage_llm.Base.Text.{contains, lower, strip}
use support_triage_llm.Base.{◌≡◌, refl, [], ◌∷◌}
use support_triage_llm.Worker.Draft.{
  Draft, Grounds, unsupported, guard_draft_claims, claim_keywords, draft_text, hold_back,
  join_commas, sorted_set, supported,
}

abbrev grounds : Grounds
grounds = record { evidence_text = "spf pass"; bounced = 0; truth_text = ""; questions = [] }

abbrev claiming : Draft
claiming = record { subject = "DMARC fails"; body = "SPF is fine." }

unsupported_test : unsupported grounds claiming ≡ "dmarc" ∷ []
unfolding unsupported claim_keywords contains draft_text lower supported
unsupported_test = refl

warnings_test : (guard_draft_claims grounds claiming).warnings ≡ "unsupported_claims:dmarc" ∷ []
unfolding guard_draft_claims strip draft_text lower hold_back unsupported claim_keywords contains
    supported join_commas sorted_set insert_sorted
warnings_test = refl

-- the same subject over another text, on other evidence
abbrev other : Draft
other = record { subject = "DMARC fails"; body = "The mail bounced." }

abbrev other_grounds : Grounds
other_grounds = record { evidence_text = ""; bounced = 0; truth_text = ""; questions = [] }
