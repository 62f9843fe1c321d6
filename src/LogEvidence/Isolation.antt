-- ===== src/LogEvidence/Isolation.antt =====
-- What the answer to one tenant does not depend on.
use support_triage_llm.Base.{
  ℕ, String, ◌≡◌, refl, ◌≢◌, Bool, true, false, Option, some, List, [], ◌∷◌, str_eq, keep, arith,
  ap, subst, str_eq-ne, ◌∙◌,
}
use support_triage_llm.LogEvidence.Entries.{LogEntry, query, answers_query, other_tenant}
use support_triage_llm.LogEvidence.Run.{
  Params, run_log_evidence, assess, query_tenant, query_service, service_hint,
}

keep-keep :
    (p q : LogEntry → Bool) (xs : List LogEntry)
    → ((e : LogEntry) → p e ≡ true → q e ≡ true)
    → keep p (keep q xs) ≡ keep p xs
keep-keep p q [] h = refl
keep-keep p q (x ∷ xs) h = ground (arith, keep-keep p q xs h, h x)

answers_query-tenant :
    (tenant service : String) (start end : ℕ)
    → tenant ≢ ""
    → (e : LogEntry) → answers_query (some tenant) service start end e ≡ true
    → str_eq e.tenant tenant ≡ true
unfolding answers_query other_tenant
answers_query-tenant tenant service start end ne e h = ground (arith, str_eq-ne tenant "" ne)

query_tenant-plain :
    (p : Params) → service_hint p.service p.tenant ≡ false → query_tenant p ≡ p.tenant
unfolding query_tenant
query_tenant-plain p plain = rw plain refl

-- A query for a tenant reads that tenant's entries only.
query-isolated :
    (t : Option String) (tenant service : String) (start end : ℕ) (log : List LogEntry)
    → t ≡ some tenant
    → tenant ≢ ""
    → query t service start end (keep (λ e. str_eq e.tenant tenant) log)
      ≡ query t service start end log
unfolding query
query-isolated t tenant service start end log e ne =
    keep-keep (answers_query t service start end) (λ r. str_eq r.tenant tenant) log
      (λ r h.
        answers_query-tenant tenant service start end ne r
          (subst (λ u. answers_query u service start end r ≡ true) e h))

module _ (redact : String → String) where
  -- The answer to a tenant depends on that tenant's log entries alone: dropping every other
  -- tenant's entries from the log changes nothing. The tenant is not empty, and not the name of a
  -- service taken as a hint.
  pub run_log_evidence-isolated :
      (p : Params) (tenant : String) (log : List LogEntry)
      → p.tenant ≡ some tenant
      → tenant ≢ ""
      → service_hint p.service p.tenant ≡ false
      → run_log_evidence redact p (keep (λ e. str_eq e.tenant tenant) log)
        ≡ run_log_evidence redact p log
  unfolding run_log_evidence
  run_log_evidence-isolated p tenant log e ne plain = ap (assess redact p) (
      query-isolated (query_tenant p) tenant (query_service p) p.start p.end log
        (query_tenant-plain p plain ∙ e) ne)
