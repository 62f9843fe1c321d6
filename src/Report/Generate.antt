-- ===== src/Report/Generate.antt =====
-- `generate_report` of app/report_service.py, with its template and its loop around the language model.
-- The latency that the code writes to `_meta` is left out.
use support_triage_llm.Base.{
  ℕ, zero, suc, String, Bool, true, false, Option, none, some, List, [], ◌∷◌, ◌++◌, any, keep,
  str_eq, if◌then◌else◌, Result, ok, err,
}
use support_triage_llm.Base.Text.{lower, or_text, concat, join}
use support_triage_llm.Values.{
  Value, null, flag, time, num, text, array, object, Members, no_members, named,
}
use support_triage_llm.Report.Template.{Bundle, Facts, Report, allowed_tools_for_case, compose}
use support_triage_llm.Report.Claims.{claim_checker}
use support_triage_llm.Triage.Extract.{extract_json_block, Failure, retryable, fatal}

-- The libraries: `json.dumps` of a report, an answer and the bundles, `json.loads` and the text of its
-- error, `jsonschema.validate` against final_report.schema.json, with the text of its error.
pub record Outside : Type 0 where
  pub dumps_report : Report → String
  pub dumps_answer : Value → String
  pub dumps_bundles : List Bundle → String
  pub loads : String → Option Value
  pub decode_error : String → String
  pub check_report : Report → Option String
  pub check_answer : Value → Option String

pub record Meta : Type 0 where
  pub report_mode : String
  pub claim_warnings : List String
  pub llm_attempts : ℕ
  pub case_id : String

-- the report of the template, or the answer of the model, with its `_meta`
pub data FinalReport : Type 0 where
  templated : Report → Meta → FinalReport
  generated : Value → Meta → FinalReport

-- `answered` has the number of attempts and the warnings, `gave_up` the last error and the warnings
pub data Loop : Type 0 where
  answered : Value → ℕ → List String → Loop
  gave_up : String → List String → Loop

-- the tools whose bundles the report may use
unfoldable pub is_allowed : List String → Bundle → Bool
is_allowed allowed b = elim b.source [
  | none ↦ any (str_eq b.tool_name) allowed
  | some s ↦ any (str_eq (or_text b.tool_name s)) allowed
]

unfoldable pub filter_bundles : List String → List Bundle → List Bundle
unfolding is_allowed
filter_bundles [] bundles = bundles
filter_bundles (t ∷ ts) bundles = keep (is_allowed (t ∷ ts)) bundles

is_object : Value → Bool
is_object (object ms) = true
is_object null = false
is_object (flag b) = false
is_object (time n) = false
is_object (num n) = false
is_object (text s) = false
is_object (array vs) = false

meta_is_object : Members → Bool
unfolding is_object
meta_is_object no_members = true
meta_is_object (named k v ms) =
    let rest = meta_is_object ms in if str_eq k "_meta" then is_object v else rest

-- parsed.setdefault("_meta", {}).update(…) does not raise
unfoldable pub takes_meta : Value → Bool
unfolding meta_is_object
takes_meta (object ms) = meta_is_object ms
takes_meta null = false
takes_meta (flag b) = false
takes_meta (time n) = false
takes_meta (num n) = false
takes_meta (text s) = false
takes_meta (array vs) = false

unfoldable pub template_meta : Facts → List String → Meta
template_meta f warnings = record {
  report_mode = "template";
  claim_warnings = warnings;
  llm_attempts = 0;
  case_id = f.case_id;
}

module _ (o : Outside) where
  unfoldable pub evidence_text : List Bundle → String
  unfolding lower
  evidence_text bundles = lower (o.dumps_bundles bundles)

  -- Setting defaults changes nothing, as the report has every member; so a report that fails the
  -- schema fails it again.
  unfoldable pub generate_report_template : Facts → List Bundle → Result String FinalReport
  unfolding compose claim_checker evidence_text lower template_meta
  generate_report_template f bundles =
      let report = compose f bundles in
      let claims = claim_checker (lower (o.dumps_report report)) (evidence_text bundles) bundles in
      elim (o.check_report report) [
        | none ↦ ok (templated report (template_meta f claims))
        | some e ↦ elim (o.check_report report) [
          | none ↦
              ok (
                templated report (template_meta f (concat ("Schema repaired: " ∷ e ∷ []) ∷ claims)))
          | some e' ↦ err e'
        ]
      ]

  -- after the claims have been added to the warnings
  unfoldable pub settle_answer : Value → List String → List String × Result Failure Value
  unfolding takes_meta join
  settle_answer v [] = ([], if takes_meta v then ok v else err (fatal "AttributeError"))
  settle_answer v (w ∷ ws) = (w ∷ ws, err (retryable (join "; " (w ∷ ws))))

  -- the body of the `try`: the warnings, and the answer or the exception
  unfoldable pub judge_answer :
      List Bundle → List String → Result Failure String → List String × Result Failure Value
  unfolding extract_json_block claim_checker settle_answer evidence_text lower
  judge_answer bundles warnings (err e) = (warnings, err e)
  judge_answer bundles warnings (ok raw) = elim (extract_json_block o.loads raw) [
    | none ↦ (warnings, err (retryable (o.decode_error raw)))
    | some v ↦ elim (o.check_answer v) [
      | some e ↦ (warnings, err (retryable e))
      | none ↦
          settle_answer v
            (warnings ++ claim_checker (lower (o.dumps_answer v)) (evidence_text bundles) bundles)
    ]
  ]

  -- the prompt after an error
  unfoldable pub prompt_after : String → String → String
  prompt_after base last_error =
      if str_eq last_error ""
      then base
      else concat (
          base ∷ "Previous attempt failed validation: " ∷ last_error
          ∷ ". Fix and return ONLY valid JSON." ∷ [])

  -- what follows an attempt: `again` is the loop from the next one
  unfoldable pub resume :
      (String → List String → Loop) → ℕ → List String × Result Failure Value → Loop
  resume again n (seen, ok v) = answered v n seen
  resume again n (seen, err (fatal s)) = gave_up s seen
  resume again n (seen, err (retryable s)) =
      again s (seen ++ (concat ("repair_attempt:" ∷ s ∷ []) ∷ []))

  -- `call` is `_call_ollama`, which may answer each attempt differently.
  module _ (call : ℕ → String → Result Failure String) (bundles : List Bundle) (base : String) where
    unfoldable pub run_attempts : ℕ → ℕ → String → List String → Loop
    unfolding judge_answer prompt_after resume
    run_attempts zero attempt last_error warnings = gave_up last_error warnings
    run_attempts (suc n) attempt last_error warnings =
        resume (run_attempts n (suc attempt)) (suc attempt)
          (judge_answer bundles warnings (call attempt (prompt_after base last_error)))

  -- the template report, marked as a fallback
  unfoldable pub mark_fallback : String → List String → FinalReport → FinalReport
  mark_fallback last_error warnings (templated r m) = templated r (record m {
    report_mode = "template_fallback";
    claim_warnings = warnings ++ (concat ("llm_fallback:" ∷ last_error ∷ []) ∷ []);
  })
  mark_fallback last_error warnings (generated v m) = generated v m

  unfoldable pub finish_loop : Facts → List Bundle → Loop → Result String FinalReport
  unfolding generate_report_template mark_fallback
  finish_loop f bundles (answered v n warnings) = ok (
      generated v (record {
        report_mode = "llm";
        claim_warnings = warnings;
        llm_attempts = n;
        case_id = f.case_id;
      }))
  finish_loop f bundles (gave_up last_error warnings) = elim (generate_report_template f bundles) [
    | err e ↦ err e
    | ok r ↦ ok (mark_fallback last_error warnings r)
  ]

  -- `prompt_of` is the prompt of the bundles.
  module _ (call : ℕ → String → Result Failure String) (prompt_of : List Bundle → String) where
    unfoldable pub generate_report_llm : Facts → List Bundle → Result String FinalReport
    unfolding finish_loop run_attempts
    generate_report_llm f bundles =
        finish_loop f bundles (run_attempts call bundles (prompt_of bundles) 2 0 "" [])

    -- `is_llm` is REPORT_MODE == "llm".
    unfoldable pub generate_report : Bool → Facts → List Bundle → Result String FinalReport
    unfolding generate_report_llm generate_report_template filter_bundles allowed_tools_for_case
    generate_report is_llm f bundles =
        let kept =
          filter_bundles (allowed_tools_for_case (or_text f.case_type "unknown")) bundles in
        if is_llm then generate_report_llm f kept else generate_report_template f kept
