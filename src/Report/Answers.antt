-- ===== src/Report/Answers.antt =====
-- Which answers of the language model become reports, and when the template reports.
use support_triage_llm.Base.{
  ℕ, zero, suc, String, Bool, true, false, ◌≡◌, refl, sym, ◌∙◌, ap, ◌≢◌, ◌⊎◌, inl, inr, none, some,
  List, [], ◌∷◌, ◌++◌, All, keep, map, not, ◌&&◌, Result, ok, err, Option-cases, if◌then◌else◌,
  arith,
}
use support_triage_llm.Base.Text.{lower, contains}
use support_triage_llm.Values.{Value}
use support_triage_llm.Report.Template.{Bundle, Facts, compose}
use support_triage_llm.Report.Claims.{claim_checker, unbacked, claim_keywords, is_backed}
use support_triage_llm.Report.Generate.{
  Outside, Meta, templated, generated, Loop, answered, gave_up, takes_meta, mark_fallback,
  evidence_text, settle_answer, judge_answer, prompt_after, resume, run_attempts, finish_loop,
  generate_report_template, generate_report_llm, template_meta,
}
use support_triage_llm.Triage.Extract.{extract_json_block, Failure, retryable, fatal}

map-nil : {A B : Type 0} (f : A → B) (xs : List A) → map f xs ≡ [] → xs ≡ []
map-nil f [] h = refl
map-nil f (x ∷ xs) h = cc

append-nil : {A : Type 0} (xs ys : List A) → xs ++ ys ≡ [] → (xs ≡ []) × (ys ≡ [])
append-nil [] ys h = (refl, h)
append-nil (x ∷ xs) ys h = cc

append-cons-ne : {A : Type 0} (xs : List A) (y : A) → (xs ++ (y ∷ [])) ≢ []
append-cons-ne [] y h = cc
append-cons-ne (x ∷ xs) y h = cc

keep-nil-All :
    (f g : String → Bool) (ks : List String)
    → keep (λ k. f k && not (g k)) ks ≡ []
    → All (λ k. f k ≡ true → g k ≡ true) ks
keep-nil-All f g [] h = tt
keep-nil-All f g (k ∷ ks) h = (λ e. ground arith, keep-nil-All f g ks (ground arith))

-- Without a warning, the evidence backs every claim.
pub claim_checker-nil :
    (text evidence : String) (bundles : List Bundle)
    → claim_checker text evidence bundles ≡ []
    → All (λ k. contains k text ≡ true → is_backed evidence bundles k ≡ true) claim_keywords
unfolding claim_checker unbacked
claim_checker-nil text evidence bundles h =
    keep-nil-All (λ k. contains k text) (is_backed evidence bundles) claim_keywords (map-nil _ _ h)

if-ok :
    (b : Bool) (v w : Value) (e : Failure)
    → (if b then ok v else err e) ≡ ok w
    → (b ≡ true) × (v ≡ w)
if-ok true v w e h = (refl, cc)
if-ok false v w e h = cc

module _ (o : Outside) where
  settle_answer-ok :
      (v : Value) (ws seen : List String) (w : Value)
      → settle_answer o v ws ≡ (seen, ok w)
      → (ws ≡ []) × (seen ≡ []) × (v ≡ w)
  unfolding settle_answer
  settle_answer-ok v [] seen w h =
      (refl, sym (ap (λ p. p.0) h), (if-ok (takes_meta v) v w _ (ap (λ p. p.1) h)).1)
  settle_answer-ok v (x ∷ ws) seen w h = cc

  -- An answer that passes: there was no warning before, it passes the schema, and all it claims is backed.
  IsSound : List Bundle → String → Value → Type 0
  IsSound bundles raw v =
      (extract_json_block o.loads raw ≡ some v)
      × (o.check_answer v ≡ none)
      × All
          (λ k.
            contains k (lower (o.dumps_answer v)) ≡ true
            → is_backed (evidence_text o bundles) bundles k ≡ true)
          claim_keywords

  claims_of : List Bundle → Value → List String
  claims_of bundles v = claim_checker (lower (o.dumps_answer v)) (evidence_text o bundles) bundles

  judge_answer-ok :
      (bundles : List Bundle) (ws seen : List String) (r : Result Failure String) (v : Value)
      → judge_answer o bundles ws r ≡ (seen, ok v)
      → (ws ≡ []) × (seen ≡ []) × ((raw : String) × (r ≡ ok raw) × IsSound bundles raw v)
  unfolding judge_answer IsSound claims_of
  judge_answer-ok bundles ws seen (err e) v h = cc
  judge_answer-ok bundles ws seen (ok raw) v h =
      elim (Option-cases (extract_json_block o.loads raw)) [
        | inl e ↦ absurd (cc (rw (judge_answer, e) at h))
        | inr (u, e) ↦ elim (Option-cases (o.check_answer u)) [
          | inr (s, c) ↦ absurd (cc (rw (judge_answer, e, c) at h))
          | inl c ↦
              let (old, new, same) =
                settle_answer-ok u (ws ++ claims_of bundles u) seen v
                  (rw (judge_answer, e, c) at h) in
              let (first, claims) = append-nil ws (claims_of bundles u) old in
              (
                first,
                new,
                (
                  raw,
                  refl,
                  (
                    e ∙ ap some same,
                    ap o.check_answer (sym same) ∙ c,
                    claim_checker-nil (lower (o.dumps_answer v)) (evidence_text o bundles) bundles
                        (rw (← same) claims),
                  ),
                ),
              )
        ]
      ]

  -- An attempt that is followed by an answer is answered itself, or fails and leaves a warning.
  resume-answered :
      (again : String → List String → Loop) (n : ℕ) (j : List String × Result Failure Value)
      (v : Value) (m : ℕ) (seen : List String)
      → resume o again n j ≡ answered v m seen
      → ((j ≡ (seen, ok v)) × (m ≡ n))
        ⊎ ((e : String) × (ws : List String) × (ws ≢ []) × (again e ws ≡ answered v m seen))
  unfolding resume
  resume-answered again n (ws, ok u) v m seen h = inl (cc, cc)
  resume-answered again n (ws, err (fatal e)) v m seen h = cc
  resume-answered again n (ws, err (retryable e)) v m seen h = inr (e, _, append-cons-ne ws _, h)

  module _ (call : ℕ → String → Result Failure String) (bundles : List Bundle) (base : String) where
    -- Once there is a warning, no attempt is answered.
    run_attempts-warned :
        (n attempt : ℕ) (last : String) (ws : List String) (v : Value) (m : ℕ) (seen : List String)
        → ws ≢ []
        → run_attempts o call bundles base n attempt last ws ≢ answered v m seen
    unfolding run_attempts
    run_attempts-warned zero attempt last ws v m seen ne h = cc
    run_attempts-warned (suc n) attempt last ws v m seen ne h =
        elim (resume-answered (run_attempts o call bundles base n (suc attempt)) (suc attempt)
          (judge_answer o bundles ws (call attempt (prompt_after o base last))) v m seen h) [
            | inl (e, _) ↦ ne (judge_answer-ok bundles ws seen _ v e).0
            | inr (e, us, ne', k) ↦ run_attempts-warned n (suc attempt) e us v m seen ne' k
          ]

    -- The loop is answered by its first attempt or not at all.
    run_attempts-first :
        (n : ℕ) (v : Value) (m : ℕ) (seen : List String)
        → run_attempts o call bundles base n 0 "" [] ≡ answered v m seen
        → (m ≡ 1) × (seen ≡ []) × ((raw : String) × (call 0 base ≡ ok raw) × IsSound bundles raw v)
    unfolding run_attempts
    run_attempts-first zero v m seen h = cc
    run_attempts-first (suc n) v m seen h =
        elim (resume-answered (run_attempts o call bundles base n 1) 1
          (judge_answer o bundles [] (call 0 base)) v m seen h) [
            | inl (e, once) ↦
                let (_, none_seen, sound) = judge_answer-ok bundles [] seen _ v e in
                (once, none_seen, sound)
            | inr (e, us, ne, k) ↦ absurd (run_attempts-warned n 1 e us v m seen ne k)
          ]

  -- The template reports exactly when its report passes the schema, and then warns of the claims that the
  -- evidence does not back, and of nothing else; a report that fails the schema is an exception.
  pub generate_report_template_lem :
      (f : Facts) (bundles : List Bundle)
      → generate_report_template o f bundles ≡ elim (o.check_report (compose f bundles)) [
        | none ↦ ok (
            templated (compose f bundles) (
              template_meta f (
                claim_checker
                  (lower (o.dumps_report (compose f bundles)))
                  (evidence_text o bundles)
                  bundles)))
        | some e ↦ err e
      ]
  unfolding generate_report_template
  generate_report_template_lem f bundles =
      elim (Option-cases (o.check_report (compose f bundles))) [
        | inl e ↦ rw (generate_report_template, e) refl
        | inr (s, e) ↦ rw (e, generate_report_template, e) refl
      ]

  finish_loop-generated :
      (f : Facts) (bundles : List Bundle) (l : Loop) (v : Value) (m : Meta)
      → finish_loop o f bundles l ≡ ok (generated v m)
      → (l ≡ answered v m.llm_attempts m.claim_warnings)
  unfolding finish_loop mark_fallback
  finish_loop-generated f bundles (answered u n ws) v m h = cc
  finish_loop-generated f bundles (gave_up e ws) v m h =
      elim (Option-cases (o.check_report (compose f bundles))) [
        | inl e ↦ absurd (cc (rw (finish_loop, generate_report_template_lem f bundles, e) at h))
        | inr (s, e) ↦
            absurd (cc (rw (finish_loop, generate_report_template_lem f bundles, e) at h))
      ]

  -- A report that the language model wrote was its first answer: it passed the schema, every claim in it
  -- is backed by the evidence, and it has no warning.
  pub generate_report_llm-generated :
      (call : ℕ → String → Result Failure String) (prompt_of : List Bundle → String) (f : Facts)
      (bundles : List Bundle) (v : Value) (m : Meta)
      → generate_report_llm o call prompt_of f bundles ≡ ok (generated v m)
      → (m.llm_attempts ≡ 1)
        × (m.claim_warnings ≡ [])
        × ((raw : String) × (call 0 (prompt_of bundles) ≡ ok raw)
            × ((extract_json_block o.loads raw ≡ some v)
                × (o.check_answer v ≡ none)
                × All
                    (λ k.
                      contains k (lower (o.dumps_answer v)) ≡ true
                      → is_backed (evidence_text o bundles) bundles k ≡ true)
                    claim_keywords))
  unfolding generate_report_llm IsSound
  generate_report_llm-generated call prompt_of f bundles v m h =
      run_attempts-first call bundles (prompt_of bundles) 2 v m.llm_attempts m.claim_warnings
        (finish_loop-generated f bundles _ v m h)
