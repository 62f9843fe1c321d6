-- ===== src/Worker/ColumnLaws.antt =====
-- The columns of a row that has been triaged (tools/triage_worker.py), as the update of app/queue_db.py
-- takes them.
use support_triage_llm.Base.{
  ℕ, String, ◌≡◌, ◌≢◌, refl, true, false, Option, none, some, ok, str_eq-ne,
}
use support_triage_llm.Base.Text.{lower}
use support_triage_llm.Values.{
  Value, text, object, Members, named, truthy, or_value, get, has, put, merge, get-put, Dict,
}
use support_triage_llm.Queue.Schema.{
  member, allowed_from, triage_complete_states, allowed_update_fields, json_fields,
}
use support_triage_llm.Queue.Rows.{Row}
use support_triage_llm.Queue.Ops.{
  draft_of, check_transition, check_complete, updates_of, write_columns, collect, maybe_json_dump,
}
use support_triage_llm.Triage.Payload.{Payload}
use support_triage_llm.Triage.Finish as Finished
use support_triage_llm.Report.Generate.{FinalReport}
use support_triage_llm.Worker.Draft.{Draft}
use support_triage_llm.Worker.Documents.{span_json, triage_json, maybe_member}
use support_triage_llm.Worker.World.{World, Draws}
use support_triage_llm.Worker.Attempt.{customer_json}
use support_triage_llm.Worker.Case.{Findings}
use support_triage_llm.Worker.Conclude.{triaged_columns}

truthy-maybe_member {ℓ} :
    {A : Type ℓ} (k : String) (f : A → Value) (o : Option A) (ms : Members)
    → truthy (object ms) ≡ true
    → truthy (object (maybe_member k f o ms)) ≡ true
unfolding maybe_member truthy
truthy-maybe_member k f none ms h = h
truthy-maybe_member k f (some a) ms h = refl

truthy-named : (k : String) (v : Value) (ms : Members) → truthy (object (named k v ms)) ≡ true
unfolding truthy
truthy-named k v ms = refl

triage_json-truthy :
    (p : Payload) (draft : Draft) (customer investigation : Value)
    → truthy (triage_json p draft customer investigation) ≡ true
unfolding triage_json
triage_json-truthy p draft customer investigation = truthy-maybe_member _ _ _ _ (
    truthy-maybe_member _ _ _ _ (
      truthy-maybe_member _ _ _ _ (
        truthy-maybe_member _ _ _ _ (
          truthy-maybe_member _ _ _ _ (
            truthy-maybe_member _ _ _ _ (
              truthy-maybe_member _ _ _ _ (
                truthy-maybe_member _ _ _ _ (
                  truthy-maybe_member _ _ _ _ (
                    truthy-maybe_member _ _ _ _
                      (truthy-maybe_member _ _ _ _ (truthy-named _ _ _)))))))))))

or_first : (v w : Value) → truthy v ≡ true → truthy (or_value v w) ≡ true
unfolding or_value
or_first v w h = rw h h

truthy-text : (s : String) → s ≢ "" → truthy (text s) ≡ true
unfolding truthy
truthy-text s ne = rw (str_eq-ne s "" ne) refl

pub check_transition-triaged :
    (current : String) → lower current ≡ "processing" → check_transition "triaged" current ≡ ok tt
unfolding check_transition lower member allowed_from
check_transition-triaged current e = rw e refl

module _ (w : World) (d : Draws) (row : Row) (processor_id : String) (o : Finished.Outcome)
    (x : Findings) (rep : FinalReport) where
  abbrev pub columns : Dict
  columns = triaged_columns w d row processor_id o x rep

  has_triage : truthy (get "triage_json" columns) ≡ true
  unfolding triaged_columns get
  has_triage =
      triage_json-truthy o.payload x.draft (customer_json x.customer)
        (span_json x.frame.start x.frame.end)

  pub full_lem :
      (cells : Dict)
      → x.draft.subject ≢ ""
      → x.draft.body ≢ ""
      → check_complete "triaged" columns cells ≡ ok tt
  unfolding check_complete draft_of triaged_columns get lower member triage_complete_states
  full_lem cells ns nb =
      rw
        (
          or_first _ _ has_triage,
          or_first _ _ (truthy-text x.draft.subject ns),
          or_first _ _ (truthy-text x.draft.body nb),
        )
        refl

  -- the columns leave the id of the message alone, and hold the draft
  pub columns-free : (now : ℕ) → has "message_id" (updates_of w.dumps "triaged" columns now) ≡ false
  unfolding has updates_of collect triaged_columns member allowed_update_fields put maybe_json_dump
      json_fields
  columns-free now = refl

  pub columns-draft :
      (now : ℕ) (r : Row)
      → (get "triage_draft_subject"
            (write_columns "triaged" (updates_of w.dumps "triaged" columns now) r).cells
          ≡ text x.draft.subject)
        × (get "triage_draft_body"
              (write_columns "triaged" (updates_of w.dumps "triaged" columns now) r).cells
            ≡ text x.draft.body)
  unfolding has updates_of collect triaged_columns member allowed_update_fields put maybe_json_dump
      json_fields write_columns merge
  columns-draft now r = (simp get-put refl, simp get-put refl)
