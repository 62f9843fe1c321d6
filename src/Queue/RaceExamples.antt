-- ===== src/Queue/RaceExamples.antt =====
-- The weak points of `update_row_status` at concrete inputs.
use support_triage_llm.Queue.Schema.{allowed_from, member, triage_complete_states}
use support_triage_llm.Base.Text.{lower}
use support_triage_llm.Base.{String, ◌≡◌, refl, some, [], ◌∷◌, ok}
use support_triage_llm.Values.{Value, text, get, has, or_value, truthy}
use support_triage_llm.Queue.Rows.{Row, Table, find_row, change_row}
use support_triage_llm.Queue.Ops.{check_update, commit_update, write_columns, draft_of}
use support_triage_llm.Queue.Update.{Legal, HasTriage}
use support_triage_llm.Queue.Steps.{status_of}
use support_triage_llm.Queue.Race.{update_race}

abbrev render : Value → String
render v = "{}"

abbrev waiting : Row
waiting = record {
  id = 7;
  status = "awaiting_human";
  cells =
      ("triage_json", text "{}")
      ∷ ("triage_draft_subject", text "Update")
      ∷ ("triage_draft_body", text "We are on it.")
      ∷ [];
}

abbrev waiting_table : Table
waiting_table = record { rows = waiting ∷ []; next_id = 8 }

abbrev answered : Table
answered = record { rows = write_columns "responded" [] waiting ∷ []; next_id = 8 }

abbrev approved_after : Table
approved_after = record {
  rows = write_columns "approved" [] (write_columns "responded" [] waiting) ∷ [];
  next_id = 8;
}

sent_checks : check_update 7 "responded" [] waiting_table ≡ ok tt
unfolding check_update find_row lower member allowed_from triage_complete_states truthy or_value get
    draft_of
sent_checks = refl

approval_checks : check_update 7 "approved" [] waiting_table ≡ ok tt
unfolding check_update find_row lower member allowed_from triage_complete_states truthy or_value get
    draft_of
approval_checks = refl

sent_commits : commit_update 7 "responded" [] waiting_table ≡ ok answered
unfolding commit_update has change_row
sent_commits = refl

approval_commits : commit_update 7 "approved" [] answered ≡ ok approved_after
unfolding commit_update has change_row write_columns
approval_commits = refl

update_race_example :
    (status_of 7 answered ≡ some "responded")
    × (status_of 7 approved_after ≡ some "approved")
    × ¬ Legal "responded" "approved"
unfolding status_of find_row lower
update_race_example =
    update_race 7 [] [] [] [] waiting_table answered approved_after refl sent_checks approval_checks
      sent_commits approval_commits

waiting-HasTriage : HasTriage [] waiting.cells
unfolding truthy or_value get draft_of
waiting-HasTriage = record { triage_json = refl; subject = refl; body = refl }
