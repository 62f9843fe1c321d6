-- ===== src/Worker/SelectLaws.antt =====
-- What the selection of tools guarantees, and what it does not.
use support_triage_llm.Base.{
  String, ◌≡◌, refl, Bool, true, false, ◌&&◌, List, [], ◌∷◌, ◌++◌, keep, if◌then◌else◌, arith, All,
  All-map, All-append, All-if_else, if-holds, ◌⊎◌, All-keep_test, inl, inr, eq_iff,
}
use support_triage_llm.Queue.Schema.{member}
use support_triage_llm.Worker.Select.{
  TriageResult, Tool, has_outage_language, should_run_log_tool, allowed_tools, tool_map, may_run,
  log_tool, dedupe, select_tools, primary_domain,
}

-- No two of the texts are equal.
unfoldable pub Distinct : List String → Type 0
Distinct [] = Unit
Distinct (s ∷ ss) = (member s ss ≡ false) × Distinct ss

unfoldable pub names : List Tool → List String
names [] = []
names (t ∷ ts) = t.name ∷ names ts

module _ (P : Tool → Type 0) where
  dedupe-All : (seen : List String) (tools : List Tool) → All P tools → All P (dedupe seen tools)
  unfolding dedupe
  dedupe-All seen [] h = tt
  dedupe-All seen (t ∷ ts) h =
      All-if_else P (member t.name seen) (dedupe seen ts) (t ∷ dedupe (t.name ∷ seen) ts)
        (dedupe-All seen ts h.1) (h.0, dedupe-All (t.name ∷ seen) ts h.1)

member_tail :
    (s : String) (seen : List String) (u : String)
    → member u (s ∷ seen) ≡ false
    → member u seen ≡ false
unfolding member
member_tail s seen u h = ground arith

-- what is left has not been seen
dedupe-unseen :
    (seen : List String) (tools : List Tool)
    → All (λ t. member t.name seen ≡ false) (dedupe seen tools)
unfolding dedupe
dedupe-unseen seen [] = tt
dedupe-unseen seen (t ∷ ts) = split (member t.name seen) refl (dedupe-unseen seen ts) (
    All-map (dedupe (t.name ∷ seen) ts) (λ u h. member_tail t.name seen u.name h)
      (dedupe-unseen (t.name ∷ seen) ts))
  where
    split :
        (b : Bool)
        → member t.name seen ≡ b
        → All (λ u. member u.name seen ≡ false) (dedupe seen ts)
        → All (λ u. member u.name seen ≡ false) (dedupe (t.name ∷ seen) ts)
        → All
            (λ u. member u.name seen ≡ false)
            (if b then dedupe seen ts else t ∷ dedupe (t.name ∷ seen) ts)
    split true e h k = h
    split false e h k = (e, k)

-- A name that no tool has is none of their names.
names-unseen :
    (s : String) (seen : List String) (ts : List Tool)
    → All (λ t. member t.name (s ∷ seen) ≡ false) ts
    → member s (names ts) ≡ false
unfolding member names
names-unseen s seen [] h = refl
names-unseen s seen (t ∷ ts) h =
    ground (arith, names-unseen s seen ts h.1, h.0, eq_iff t.name s, eq_iff s t.name)

dedupe-Distinct : (seen : List String) (tools : List Tool) → Distinct (names (dedupe seen tools))
unfolding dedupe Distinct names
dedupe-Distinct seen [] = tt
dedupe-Distinct seen (t ∷ ts) =
    if-holds (λ us. Distinct (names us)) (member t.name seen) (dedupe seen ts)
      (t ∷ dedupe (t.name ∷ seen) ts) (dedupe-Distinct seen ts)
      (
        names-unseen t.name seen (dedupe (t.name ∷ seen) ts) (dedupe-unseen (t.name ∷ seen) ts),
        dedupe-Distinct (t.name ∷ seen) ts,
      )

-- allowed, or nothing at all is
abbrev Granted : List String → Tool → Type 0
Granted allowed t = (allowed ≡ []) ⊎ (member t.name allowed ≡ true)

may_run-Granted :
    (registry allowed : List String) (t : Tool)
    → may_run registry allowed t ≡ true
    → Granted allowed t
unfolding may_run
may_run-Granted registry [] t h = inl refl
may_run-Granted registry (a ∷ allowed) t h = inr (ground arith)

All-single :
    (P : Tool → Type 0) (b c : Bool) (tool : Tool)
    → (c ≡ true → P tool)
    → All P (if b && c then tool ∷ [] else [])
All-single P true true tool h = (h refl, tt)
All-single P true false tool h = tt
All-single P false c tool h = tt

log_tool-Granted : (t : TriageResult) → All (Granted (allowed_tools t)) (log_tool t)
unfolding log_tool
log_tool-Granted t =
    All-single (Granted (allowed_tools t)) (should_run_log_tool t)
      (member "log_evidence" (allowed_tools t)) _ (λ h. inr h)

-- Every tool that is selected is one that the case allows, unless the case allows none, and no tool
-- is selected twice.
pub select_tools_lem :
    (registry : List String) (t : TriageResult)
    → All
        (λ tool. (allowed_tools t ≡ []) ⊎ (member tool.name (allowed_tools t) ≡ true))
        (select_tools registry t)
      × Distinct (names (select_tools registry t))
unfolding select_tools
select_tools_lem registry t =
    let mapped = tool_map t.case_type (primary_domain t.recipient_domains) in
    let granted =
      All-map (keep (may_run registry (allowed_tools t)) mapped)
        (λ u h. may_run-Granted registry (allowed_tools t) u h)
        (All-keep_test (may_run registry (allowed_tools t)) mapped) in
    (
      dedupe-All (Granted (allowed_tools t)) [] _ (
          All-append (Granted (allowed_tools t)) (keep (may_run registry (allowed_tools t)) mapped)
            (log_tool t) granted (log_tool-Granted t)),
      dedupe-Distinct [] (keep (may_run registry (allowed_tools t)) mapped ++ log_tool t),
    )

-- For an `integration` case without outage language no tool is allowed, and so the integration tool is
-- run; with outage language it is not, since `log_evidence` alone is allowed then.
pub select_tools-integration :
    (registry : List String) (t : TriageResult)
    → t.case_type ≡ "integration"
    → member "fetch_integration_events_sample" registry ≡ true
    → (has_outage_language t ≡ false
        → (allowed_tools t ≡ [])
          × (names (select_tools registry t) ≡ "fetch_integration_events_sample" ∷ []))
      × (has_outage_language t ≡ true → names (select_tools registry t) ≡ "log_evidence" ∷ [])
unfolding select_tools allowed_tools tool_map may_run log_tool should_run_log_tool dedupe names
    has_outage_language
select_tools-integration registry t e m = (λ h. rw (e, h, m) (refl, refl), λ h. rw (e, h, m) refl)
