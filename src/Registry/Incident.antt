-- ===== src/Registry/Incident.antt =====
-- What runs through the registry, and what never does.
use mathlib.Core.List.{Memᴰ}
use support_triage_llm.Base.{
  String, ◌≡◌, refl, sym, ◌∙◌, ap, ◌≢◌, inl, inr, true, false, Option, none, some, List, [], ◌∷◌,
  keep, Result, ok, >>=-eq-ok, Option-cases,
}
use support_triage_llm.Values.{Value, object, Members, no_members}
use support_triage_llm.Queue.Schema.{member}
use support_triage_llm.Worker.Select.{
  Tool, TriageResult, allowed_tools, tool_map, may_run, dedupe, primary_domain, select_tools,
}
use support_triage_llm.Values.Objects.{has_member}
use support_triage_llm.Worker.Gather.{Setting, complete_params, members_of}
use support_triage_llm.Registry.Tools.{Schema, registered, service_status_params, checked, run_tool}

checked-ok : (v w : Value) (o : Option String) → checked v o ≡ ok w → (o ≡ none) × (v ≡ w)
unfolding checked
checked-ok v w none h = (refl, cc)
checked-ok v w (some e) h = cc

status_tool : Tool
status_tool = record { name = "service_status"; params = [] }

status_kept :
    (registry : List String) (t : TriageResult) (domain : Option String)
    → member "service_status" registry ≡ true
    → t.case_type ≡ "incident"
    → keep (may_run registry (allowed_tools t)) (tool_map t.case_type domain) ≡ status_tool ∷ []
unfolding status_tool allowed_tools tool_map may_run member
status_kept registry t domain known incident = rw (incident, known) refl

some-injective : (a b : Schema) → some a ≡ some b → a ≡ b
some-injective a b h = cc

module _ (validate : Schema → Value → Option String) (validate_result : Value → Option String)
    (fn : String → Value → Result String Value) where
  -- A result that `run_tool` returns is that of a registered tool, on parameters that pass its schema,
  -- and passes the schema of evidence bundles.
  pub run_tool-ok :
      (name : String) (params result : Value)
      → run_tool validate validate_result fn name params ≡ ok result
      → (schema : Schema) × (registered name ≡ some schema)
        × (validate schema params ≡ none)
        × (fn name params ≡ ok result)
        × (validate_result result ≡ none)
  unfolding run_tool
  run_tool-ok name params result h = elim (Option-cases (registered name)) [
    | inl e ↦ absurd (cc (rw (run_tool, e) at h))
    | inr (schema, e) ↦
        let (p, checks, rest) =
          >>=-eq-ok (checked params (validate schema params)) _ result (rw (run_tool, e) at h) in
        let (valid, same) = checked-ok params p (validate schema params) checks in
        let (r, ran, last) = >>=-eq-ok (fn name p) _ result rest in
        let (passed, kept) = checked-ok r result (validate_result r) last in
        (
          schema,
          e,
          valid,
          ap (fn name) same ∙ ran ∙ ap ok kept,
          ap validate_result (sym kept) ∙ passed,
        )
  ]

  -- Where the validator refuses an object without a required member: an incident selects the service
  -- status without parameters, and that tool can never be run so.
  pub select_tools-incident :
      (registry : List String) (t : TriageResult) (s : Setting)
      → ((schema : Schema) (ms : Members) (k : String)
          → Memᴰ k schema.required
          → has_member k ms ≡ false
          → validate schema (object ms) ≢ none)
      → member "service_status" registry ≡ true
      → t.case_type ≡ "incident"
      → (tool : Tool) × Memᴰ tool (select_tools registry t)
        × (tool.name ≡ "service_status")
        × ((result : Value)
            → run_tool validate validate_result fn tool.name (complete_params s tool) ≢ ok result)
  unfolding complete_params registered service_status_params members_of has_member status_tool
      select_tools dedupe member
  select_tools-incident registry t s strict known incident = (
    status_tool,
    rw (select_tools, status_kept registry t (primary_domain t.recipient_domains) known incident)
        (Memᴰ.head refl),
    refl,
    λ result h.
        let (schema, e, valid, _, _) = run_tool-ok "service_status" (object no_members) result h in
        strict service_status_params no_members "service_id" (Memᴰ.head refl) refl (
          ap (λ u. validate u (object no_members)) (some-injective service_status_params schema e)
          ∙ valid),
  )
