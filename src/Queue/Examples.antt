-- ===== src/Queue/Examples.antt =====
-- Tests of app/queue_db.py's queue, and the theorems at concrete inputs.
use support_triage_llm.Base.{
  String, ℕ, ◌≡◌, ◌≢◌, refl, true, false, some, [], ◌∷◌, arith, eq_iff, ok, err,
}
use support_triage_llm.Base.Text.{lower, prefix, strip, strip_end, strip_start}
use support_triage_llm.Values.{Value, Dict, text, get, put, merge, truthy, or_value, is_text, has}
use support_triage_llm.Queue.Schema.{
  member, allowed_from, allowed_update_fields, json_fields, triage_complete_states,
}
use support_triage_llm.Queue.Rows.{
  Row, Table, find_row, change_row, is_ready, created, oldest, is_taken, newest, newer, older,
}
use support_triage_llm.Queue.Ops.{
  Payload, insert_message, new_row, claim_row, claim_with, update_row_status, write_columns,
  updates_of, key_of, get_by_idempotency, invalid_transition, commit_update, check_update, draft_of,
  set_learning_eligible, mark_eligible, answer, append_row, compute_idempotency_key, claim_found,
  check_complete, check_found, check_transition, collect, is_blank, maybe_json_dump, part,
}
use support_triage_llm.Queue.Insert.{insert_message-dedup}
use support_triage_llm.Queue.Claim.{IsFirst, claim_row-IsFirst, claim_row_exclusive}
use support_triage_llm.Queue.Update.{Legal, Updated, update_row_status-Updated}
use support_triage_llm.Queue.WellFormed.{WellFormed}
use support_triage_llm.Queue.Steps.{Step, Step-Legal, status_of}
use support_triage_llm.Queue.Settled.{Reach, Reach-settled, settled}

abbrev digest : String → String
digest s = s

abbrev iso_day : ℕ → String
iso_day n = "2026-01-05T00:00:00Z"

abbrev dump : Value → String
dump v = "{}"

abbrev report : Payload
report = ("text", " mail bounces ") ∷ ("end_user_handle", "acme") ∷ ("message_id", "m-1") ∷ []

abbrev no_rows : Table
no_rows = record { rows = []; next_id = 1 }

abbrev first_row : Row
first_row = new_row digest iso_day 1 "u-1" report 10

abbrev one_row : Table
one_row = record { rows = first_row ∷ []; next_id = 2 }

key_of-report : key_of digest iso_day report 10 ≡ "acme|mail bounces|2026-01-05"
unfolding key_of compute_idempotency_key prefix strip
key_of-report = refl

insert_report : insert_message digest iso_day "u-1" 10 report no_rows ≡ ok (one_row, 1, true)
unfolding insert_message answer get_by_idempotency key_of compute_idempotency_key prefix strip
    newest append_row is_taken get new_row
insert_report = refl

insert_message-dedup_example :
    insert_message digest iso_day "u-2" 20 report one_row ≡ ok (one_row, 1, false)
unfolding key_of compute_idempotency_key prefix strip
insert_message-dedup_example =
    insert_message-dedup digest iso_day "u-1" "u-2" 10 20 report report no_rows one_row 1 tt
      (λ e. cc ((eq_iff "acme|mail bounces|2026-01-05" "").1 e)) refl insert_report

abbrev dead_row : Row
dead_row = record first_row { status = "dead_letter" }

abbrev dead_letters : Table
dead_letters = record { rows = dead_row ∷ []; next_id = 2 }

dead_row_found : get_by_idempotency (key_of digest iso_day report 30) dead_letters ≡ some dead_row
unfolding get_by_idempotency key_of compute_idempotency_key prefix strip newest is_text get new_row
    newer
dead_row_found = refl

abbrev other_report : Payload
other_report = ("text", "webhook fails") ∷ []

abbrev second_row : Row
second_row = new_row digest iso_day 2 "u-2" other_report 12

abbrev two_rows : Table
two_rows = record { rows = first_row ∷ second_row ∷ []; next_id = 3 }

abbrev one_claimed : Table
one_claimed = record two_rows { rows = claim_with "w1" 16 first_row ∷ second_row ∷ [] }

abbrev both_claimed : Table
both_claimed = record two_rows {
  rows = claim_with "w1" 16 first_row ∷ claim_with "w2" 18 second_row ∷ [];
}

first_claim : claim_row 15 16 "w1" two_rows ≡ (one_claimed, some (claim_with "w1" 16 first_row))
unfolding claim_row claim_found oldest is_ready new_row older created change_row
first_claim = refl

second_claim :
    claim_row 17 18 "w2" one_claimed ≡ (both_claimed, some (claim_with "w2" 18 second_row))
unfolding claim_row claim_found oldest is_ready claim_with new_row older change_row
second_claim = refl

claim_row-IsFirst_example :
    (r : Row) × IsFirst 15 r two_rows
    × (claim_with "w1" 16 first_row ≡ claim_with "w1" 16 r)
    × (one_claimed.rows ≡ change_row r.id (claim_with "w1" 16) two_rows.rows)
    × (one_claimed.next_id ≡ two_rows.next_id)
claim_row-IsFirst_example =
    claim_row-IsFirst 15 16 "w1" two_rows one_claimed (claim_with "w1" 16 first_row) first_claim

claim_row_exclusive_example : (claim_with "w1" 16 first_row).id ≢ (claim_with "w2" 18 second_row).id
claim_row_exclusive_example =
    claim_row_exclusive 15 17 16 18 "w1" "w2" two_rows one_claimed both_claimed
      (claim_with "w1" 16 first_row) (claim_with "w2" 18 second_row) first_claim second_claim

abbrev finished : Dict
finished =
    ("triage_json", text "{}")
    ∷ ("triage_draft_subject", text "Update")
    ∷ ("triage_draft_body", text "We are on it.")
    ∷ []

abbrev triaged_row : Row
triaged_row =
    write_columns "triaged" (updates_of dump "triaged" finished 40) (claim_with "w1" 16 first_row)

abbrev one_triaged : Table
one_triaged = record two_rows { rows = triaged_row ∷ second_row ∷ [] }

triage_update : update_row_status dump 40 1 "triaged" finished one_claimed ≡ ok one_triaged
unfolding update_row_status find_row claim_with new_row lower member allowed_from
    triage_complete_states truthy or_value get draft_of has updates_of collect allowed_update_fields
    put change_row prefix strip strip_end strip_start check_complete check_found check_transition
    check_update commit_update compute_idempotency_key is_blank key_of maybe_json_dump part
    write_columns is_taken json_fields is_text merge
triage_update = refl

-- a row cannot leave the queue without a worker
skip_refused :
    update_row_status dump 40 2 "triaged" finished one_claimed
    ≡ err (invalid_transition "queued" "triaged")
unfolding update_row_status find_row claim_with new_row lower member allowed_from
skip_refused = refl

update_row_status-Updated_example :
    (r : Row) × Updated dump 40 1 "triaged" finished one_claimed one_triaged r
update_row_status-Updated_example =
    update_row_status-Updated dump 40 1 "triaged" finished one_claimed one_triaged triage_update

one_claimed-WellFormed : WellFormed one_claimed
unfolding claim_with new_row
one_claimed-WellFormed = record {
  distinct = ((omega arith, tt), (tt, tt));
  below = (omega arith, (omega arith, tt));
}

one_triaged-WellFormed : WellFormed one_triaged
unfolding claim_with new_row write_columns
one_triaged-WellFormed = record {
  distinct = ((omega arith, tt), (tt, tt));
  below = (omega arith, (omega arith, tt));
}

Step-Legal_example : (b : String) × (status_of 1 one_triaged ≡ some b) × Legal "processing" b
unfolding status_of find_row claim_with new_row lower
Step-Legal_example =
    Step-Legal digest iso_day dump (Step.update 40 1 "triaged" finished triage_update)
      one_claimed-WellFormed 1 "processing" refl

abbrev triaged_and_claimed : Table
triaged_and_claimed = record two_rows { rows = triaged_row ∷ claim_with "w2" 50 second_row ∷ [] }

later_claim :
    claim_row 50 50 "w2" one_triaged ≡ (triaged_and_claimed, some (claim_with "w2" 50 second_row))
unfolding claim_row claim_found oldest is_ready write_columns new_row older change_row claim_with
later_claim = refl

Reach-settled_example :
    (b : String) × (status_of 1 triaged_and_claimed ≡ some b) × (settled b ≡ true)
unfolding status_of find_row write_columns claim_with new_row lower
Reach-settled_example =
    Reach-settled digest iso_day dump one_triaged triaged_and_claimed
      (Reach.next Reach.here
        (Step.claim 50 50 "w2" (some (claim_with "w2" 50 second_row)) later_claim))
      one_triaged-WellFormed 1 "triaged" refl refl

abbrev dead_marked : Table
dead_marked = record dead_letters { rows = mark_eligible true dead_row ∷ [] }

dead_mark : set_learning_eligible 1 true dead_letters ≡ dead_marked
unfolding set_learning_eligible change_row mark_eligible new_row
dead_mark = refl

dead_letters-WellFormed : WellFormed dead_letters
unfolding new_row
dead_letters-WellFormed = record { distinct = (tt, tt); below = (omega arith, tt) }
