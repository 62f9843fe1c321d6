-- ===== src/Worker/IdentityLaws.antt =====
-- For whom `process_once` of tools/triage_worker.py takes the sender of a message.
use support_triage_llm.Base.{
  String, ◌≡◌, ◌&&◌, refl, ◌∙◌, ap, Bool, true, none, some, List, [], ◌∷◌, first, Bool-cases,
  Option-cases, inl, inr,
}
use mathlib.Core.List.{Memᴰ}
use support_triage_llm.Base.Text.{lower, concat}
use support_triage_llm.Values.{text}
use support_triage_llm.Values.Objects.{
  get_in, member_of, members_in, set_member, default_member, has_member, pop_member,
}
use support_triage_llm.Queue.Schema.{member}
use support_triage_llm.Queue.Rows.{Row}
use support_triage_llm.Intake.Tenants.{
  Tenant, has_domain, domain_from_email, resolved_as, unresolved, resolve_claimed, resolve_from,
  resolve_tenant,
}
use support_triage_llm.Triage.Payload.{text_or}
use support_triage_llm.Worker.Select.{
  Tool, TriageResult, log_tool, should_run_log_tool, allowed_tools, query_type_of, join_words,
}
use support_triage_llm.Worker.TimeFrame.{TimeFrame}
use support_triage_llm.Worker.Gather.{complete_params, members_of}
use support_triage_llm.Worker.Reading.{handle_of, column}
use support_triage_llm.Worker.World.{World, Draws}
use support_triage_llm.Worker.Attempt.{CustomerWindow, is_high_confidence, identity_of}
use support_triage_llm.Worker.Case.{identify, case_setting}

first-Memᴰ :
    (test : Tenant → Bool) (ts : List Tenant) (t : Tenant)
    → first test ts ≡ some t
    → Memᴰ t ts × (test t ≡ true)
first-Memᴰ test [] t h = absurd (cc h)
first-Memᴰ test (u ∷ ts) t h = elim (Bool-cases (test u)) [
  | inl e ↦ let same : t ≡ u = cc (rw e at h) in (Memᴰ.head same, rw same e)
  | inr e ↦ let (m, p) = first-Memᴰ test ts t (rw e at h) in (Memᴰ.tail m, p)
]

-- No tenant has the empty domain.
first-empty : (ts : List Tenant) → first (has_domain (lower "")) ts ≡ none
unfolding lower has_domain
first-empty [] = refl
first-empty (t ∷ ts) = first-empty ts

module _ (w : World) (d : Draws) (row : Row) where
  -- Where the message is resolved to a tenant id, a tenant of that id in the table has the domain of the
  -- sender's address, and the identity that the worker goes on with is of high confidence and has that
  -- id and that tenant's services. (A sender who is resolved to none is another case.)
  pub identify-resolved :
      (id : String)
      → (identify w d row).resolved.tenant_id ≡ some id
      → let c = identify w d row in
        (t : Tenant) × Memᴰ t w.tenants
        × (t.tenant_id ≡ id)
        × (has_domain (lower (domain_from_email (column "end_user_handle" row))) t ≡ true)
        × (c.is_high ≡ true)
        × (c.tenant_id ≡ some id)
        × (c.service_ids ≡ t.entitled_services)
  unfolding identify identity_of resolve_tenant is_high_confidence resolved_as unresolved
      resolve_from resolve_claimed
  identify-resolved id h =
      let domain = lower (domain_from_email (column "end_user_handle" row)) in
      elim (Option-cases (first (has_domain domain) w.tenants)) [
        | inl e ↦ absurd (cc (rw (resolve_tenant, e, first-empty w.tenants) at h))
        | inr (t, e) ↦
            let (mem, has) = first-Memᴰ (has_domain domain) w.tenants t e in
            let same = rw (resolve_tenant, e) at h in
            rw (resolve_tenant, e) (t, mem, cc same, has, refl, same, refl)
      ]

  -- An unresolved sender is taken for the tenant that its own handle names.
  identify-unresolved :
      (identify w d row).resolved.tenant_id ≡ none → (identify w d row).tenant ≡ handle_of row
  unfolding identify identity_of resolve_tenant is_high_confidence resolved_as unresolved
      resolve_from resolve_claimed text_or
  identify-unresolved h =
      let domain = lower (domain_from_email (column "end_user_handle" row)) in
      elim (Option-cases (first (has_domain domain) w.tenants)) [
        | inl e ↦ rw (resolve_tenant, e, first-empty w.tenants) refl
        | inr (t, e) ↦ absurd (cc (rw (resolve_tenant, e) at h))
      ]

  abbrev log_query : String → Tool
  log_query q = record {
    name = "log_evidence";
    params = ("service", "api") ∷ ("query_type", q) ∷ [];
  }

  log_tool-log_query :
      (t : TriageResult) (tool : Tool)
      → log_tool t ≡ tool ∷ []
      → (q : String) × (tool ≡ log_query q)
  unfolding log_tool
  log_tool-log_query t tool h =
      elim (Bool-cases (should_run_log_tool t && member "log_evidence" (allowed_tools t))) [
        | inl e ↦ (
          query_type_of (concat (lower (join_words t.symptoms) ∷ " " ∷ lower t.draft_body ∷ [])),
          cc (rw e at h),
        )
        | inr e ↦ absurd (cc (rw e at h))
      ]

  log_query-params :
      (f : TimeFrame) (c : CustomerWindow) (q : String)
      → let p = complete_params (case_setting w d row f c) (log_query q) in
        (get_in "service" p ≡ text "api") × (get_in "tenant" p ≡ text (identify w d row).tenant)
  unfolding complete_params case_setting get_in member_of members_in members_of set_member
      default_member has_member pop_member
  log_query-params f c q = (refl, refl)

  -- The log query that is chosen for the message of a sender who is resolved to no tenant is about the
  -- tenant that the sender's own handle names, and about the service `api`.
  pub log_tool-unresolved :
      (f : TimeFrame) (c : CustomerWindow) (t : TriageResult) (tool : Tool)
      → (identify w d row).resolved.tenant_id ≡ none
      → log_tool t ≡ tool ∷ []
      → let p = complete_params (case_setting w d row f c) tool in
        (tool.name ≡ "log_evidence")
        × (get_in "service" p ≡ text "api")
        × (get_in "tenant" p ≡ text (handle_of row))
  log_tool-unresolved f c t tool n h =
      let (q, e) = log_tool-log_query t tool h in
      let (service, tenant) = log_query-params f c q in
      rw e (refl, service, tenant ∙ ap (λ s. text s) (identify-unresolved n))
