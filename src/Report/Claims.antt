-- ===== src/Report/Claims.antt =====
-- `_claim_checker` of app/report_service.py: the claims of a report that its evidence does not back.
use support_triage_llm.Base.{
  ℕ, ◌+◌, String, Bool, not, ◌&&◌, ◌||◌, Option, none, some, List, [], ◌∷◌, ltb, map, keep, str_eq,
  if◌then◌else◌,
}
use support_triage_llm.Base.Text.{contains, concat}
use support_triage_llm.Report.Template.{Bundle}

unfoldable pub bounced_of : Option ℕ → ℕ
bounced_of none = 0
bounced_of (some n) = n

-- _count("bounced", bundles)
unfoldable pub count_bounced : List Bundle → ℕ
unfolding bounced_of
count_bounced [] = 0
count_bounced (b ∷ bs) = bounced_of b.bounced + count_bounced bs

unfoldable pub claim_keywords : List String
claim_keywords =
    "bounce" ∷ "quarantine" ∷ "dmarc" ∷ "spf" ∷ "rate limit" ∷ "auth failed" ∷ "workflow disabled"
    ∷ []

-- predicate(), for a keyword, over the evidence in lower case
unfoldable pub is_backed : String → List Bundle → String → Bool
unfolding count_bounced contains
is_backed evidence bundles keyword =
    if str_eq keyword "bounce"
    then contains "bounce" evidence || ltb 0 (count_bounced bundles)
    else if str_eq keyword "rate limit"
    then contains "rate limit" evidence || contains "429" evidence
    else if str_eq keyword "auth failed"
    then contains "auth_failed" evidence || contains "token expired" evidence
    else if str_eq keyword "workflow disabled"
    then contains "workflow_disabled" evidence
    else contains keyword evidence

unfoldable pub unbacked : String → String → List Bundle → List String
unfolding is_backed contains claim_keywords
unbacked text evidence bundles =
    keep (λ k. contains k text && not (is_backed evidence bundles k)) claim_keywords

unfoldable pub claim_checker : String → String → List Bundle → List String
unfolding unbacked
claim_checker text evidence bundles =
    map (λ k. concat ("Claim '" ∷ k ∷ "' lacks evidence" ∷ [])) (unbacked text evidence bundles)
