-- ===== src/Report/Sources.antt =====
-- Where the references of a report come from.
use mathlib.Core.List.{Memᴰ}
use support_triage_llm.Base.{
  ℕ, String, Bool, true, false, ◌≡◌, refl, ◌≢◌, ◌⊎◌, inl, inr, List, [], ◌∷◌, All, All-map,
  All-append, All-Memᴰ, All-keep_test, All-keep, All-pair, not, str_eq, Result, ok, Option-cases,
  if◌then◌else◌,
}
use support_triage_llm.Base.Text.{or_text}
use support_triage_llm.Report.Template.{
  Event, Bundle, Facts, Report, event_ref, event_refs, evidence_refs, allowed_tools_for_case,
  compose,
}
use support_triage_llm.Triage.Extract.{Failure}
use support_triage_llm.Report.Generate.{
  Outside, Meta, templated, Loop, answered, gave_up, is_allowed, filter_bundles, finish_loop,
  mark_fallback, generate_report_template, generate_report_llm, generate_report,
}
use support_triage_llm.Report.Answers.{generate_report_template_lem}

-- A reference is the id or the time of an event of one of these bundles.
abbrev pub IsCited : (Bundle → Type 0) → String → Type 0
IsCited P r = (b : Bundle) × P b × ((e : Event) × Memᴰ e b.events × ((r ≡ e.id) ⊎ (r ≡ e.ts)))

event_ref-All : (P : String → Type 0) (e : Event) → P e.id → P e.ts → All P (event_ref e)
unfolding event_ref
event_ref-All P e p q = split (not (str_eq e.id "")) (not (str_eq e.ts ""))
  where
    split : (b c : Bool) → All P (if b then e.id ∷ [] else if c then e.ts ∷ [] else [])
    split true c = (p, tt)
    split false true = (q, tt)
    split false false = tt

event_refs-All :
    (P : String → Type 0) (es : List Event) → All (λ e. P e.id × P e.ts) es → All P (event_refs es)
unfolding event_refs
event_refs-All P [] h = tt
event_refs-All P (e ∷ es) ((p, q), h) =
    All-append P (event_ref e) (event_refs es) (event_ref-All P e p q) (event_refs-All P es h)

evidence_refs-IsCited :
    (P : Bundle → Type 0) (bundles : List Bundle)
    → All P bundles
    → All (IsCited P) (evidence_refs bundles)
unfolding evidence_refs
evidence_refs-IsCited P [] h = tt
evidence_refs-IsCited P (b ∷ bs) (p, h) =
    All-append (IsCited P) (event_refs b.events) (evidence_refs bs)
      (event_refs-All (IsCited P) b.events (
        All-map b.events (λ e m. ((b, p, (e, m, inl refl)), (b, p, (e, m, inr refl))))
          (All-Memᴰ b.events)))
      (evidence_refs-IsCited P bs h)

module _ (o : Outside) where
  generate_report_template-templated :
      (f : Facts) (bundles : List Bundle) (r : Report) (m : Meta)
      → generate_report_template o f bundles ≡ ok (templated r m)
      → r ≡ compose f bundles
  generate_report_template-templated f bundles r m h =
      elim (Option-cases (o.check_report (compose f bundles))) [
        | inl e ↦ cc (rw (generate_report_template_lem o f bundles, e) at h)
        | inr (s, e) ↦ absurd (cc (rw (generate_report_template_lem o f bundles, e) at h))
      ]

  finish_loop-templated :
      (f : Facts) (bundles : List Bundle) (l : Loop) (r : Report) (m : Meta)
      → finish_loop o f bundles l ≡ ok (templated r m)
      → r ≡ compose f bundles
  unfolding finish_loop mark_fallback
  finish_loop-templated f bundles (answered v n ws) r m h = cc
  finish_loop-templated f bundles (gave_up s ws) r m h =
      elim (Option-cases (o.check_report (compose f bundles))) [
        | inl e ↦ cc (rw (finish_loop, generate_report_template_lem o f bundles, e) at h)
        | inr (t, e) ↦
            absurd (cc (rw (finish_loop, generate_report_template_lem o f bundles, e) at h))
      ]

  generate_report-templated :
      (call : ℕ → String → Result Failure String) (prompt_of : List Bundle → String) (is_llm : Bool)
      (f : Facts) (bundles : List Bundle) (r : Report) (m : Meta)
      → generate_report o call prompt_of is_llm f bundles ≡ ok (templated r m)
      → r
        ≡ compose f
            (filter_bundles (allowed_tools_for_case (or_text f.case_type "unknown")) bundles)
  unfolding generate_report generate_report_llm
  generate_report-templated call prompt_of true f bundles r m h =
      finish_loop-templated f
        (filter_bundles (allowed_tools_for_case (or_text f.case_type "unknown")) bundles) _ r m h
  generate_report-templated call prompt_of false f bundles r m h =
      generate_report_template-templated f
        (filter_bundles (allowed_tools_for_case (or_text f.case_type "unknown")) bundles) r m h

  filter_bundles-All :
      (allowed : List String) (bundles : List Bundle)
      → allowed ≢ []
      → All (λ b. Memᴰ b bundles × (is_allowed allowed b ≡ true)) (filter_bundles allowed bundles)
  unfolding filter_bundles
  filter_bundles-All [] bundles ne = absurd (ne refl)
  filter_bundles-All (t ∷ ts) bundles ne =
      All-pair (λ b. Memᴰ b bundles) (λ b. is_allowed (t ∷ ts) b ≡ true) _
        (All-keep (λ b. Memᴰ b bundles) (is_allowed (t ∷ ts)) bundles (All-Memᴰ bundles))
        (All-keep_test (is_allowed (t ∷ ts)) bundles)

  -- Where the case type lists its tools, every reference of a template report, the fallback included, is
  -- the id or the time of an event in a bundle that was given and that comes from one of these tools.
  pub generate_report-IsCited :
      (call : ℕ → String → Result Failure String) (prompt_of : List Bundle → String) (is_llm : Bool)
      (f : Facts) (bundles : List Bundle) (r : Report) (m : Meta)
      → generate_report o call prompt_of is_llm f bundles ≡ ok (templated r m)
      → allowed_tools_for_case (or_text f.case_type "unknown") ≢ []
      → All
          (IsCited (λ b.
            Memᴰ b bundles
            × (is_allowed (allowed_tools_for_case (or_text f.case_type "unknown")) b ≡ true)))
          r.engineering_escalation.evidence_refs
  unfolding compose
  generate_report-IsCited call prompt_of is_llm f bundles r m h ne =
      rw (generate_report-templated call prompt_of is_llm f bundles r m h)
        (evidence_refs-IsCited _ _ (filter_bundles-All _ bundles ne))
