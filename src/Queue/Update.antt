-- ===== src/Queue/Update.antt =====
-- What `update_row_status` promises: legal transitions, the columns it writes, its errors.
use support_triage_llm.Base.{
  ℕ, String, ◌≡◌, refl, ◌≢◌, true, Option, none, some, arith, Bool-cases, str_eq, ◌⊎◌, inl, inr,
  eq_iff, ok, >>-eq-ok,
}
use support_triage_llm.Base.Text.{lower}
use support_triage_llm.Values.{Value, get, Dict, truthy, or_value}
use support_triage_llm.Queue.Schema.{member, allowed_from, triage_complete_states}
use support_triage_llm.Queue.Rows.{Row, Table, find_row, change_row}
use support_triage_llm.Queue.Ops.{
  check_transition, check_complete, check_update, commit_update, update_row_status, write_columns,
  updates_of, draft_of, check_found,
}

-- The status graph: a status keeps its place or moves along an edge. Statuses are compared in
-- lower case.
abbrev pub Legal : String → String → Type 0
Legal a b = (b ≡ a) ⊎ (member b (allowed_from a) ≡ true)

check_transition-Legal :
    (status current : String)
    → check_transition status current ≡ ok tt
    → Legal (lower current) (lower status)
unfolding check_transition
check_transition-Legal status current h =
    elim (Bool-cases (str_eq (lower status) (lower current))) [
      | inl e ↦ inl ((eq_iff _ _).0 e)
      | inr e ↦ inr (ground arith)
    ]

-- the data that a finished triage must have, in the arguments or in the row
pub record HasTriage (kwargs existing : Dict) : Type 0 where
  pub triage_json : truthy (or_value (get "triage_json" kwargs) (get "triage_json" existing)) ≡ true
  pub subject :
      truthy (draft_of "triage_draft_subject" "draft_customer_reply_subject" kwargs existing) ≡ true
  pub body :
      truthy (draft_of "triage_draft_body" "draft_customer_reply_body" kwargs existing) ≡ true

check_complete-HasTriage :
    (status : String) (kwargs existing : Dict)
    → check_complete status kwargs existing ≡ ok tt
    → member (lower status) triage_complete_states ≡ true
    → HasTriage kwargs existing
unfolding check_complete
check_complete-HasTriage status kwargs existing h m = ground arith

-- What a successful update has checked, and what it has done to the table.
pub record Updated (dumps : Value → String) (now id : ℕ) (status : String) (kwargs : Dict)
    (t t' : Table) (r : Row) : Type 0 where
  pub found : find_row id t.rows ≡ some r
  pub legal : Legal (lower r.status) (lower status)
  pub complete : member (lower status) triage_complete_states ≡ true → HasTriage kwargs r.cells
  pub rows :
      t'.rows ≡ change_row id (write_columns status (updates_of dumps status kwargs now)) t.rows
  pub next_id : t'.next_id ≡ t.next_id

check_found-ok :
    (id : ℕ) (status : String) (kwargs : Dict) (o : Option Row)
    → check_found id status kwargs o ≡ ok tt
    → (r : Row) × (o ≡ some r)
      × Legal (lower r.status) (lower status)
      × (member (lower status) triage_complete_states ≡ true → HasTriage kwargs r.cells)
check_found-ok id status kwargs none h = absurd (not_ok h)
  where
    not_ok : check_found id status kwargs none ≢ ok tt
    not_ok e = unfold check_found in cc
check_found-ok id status kwargs (some r) h =
    let (p, q) =
      >>-eq-ok (check_transition status r.status) (check_complete status kwargs r.cells) {b = tt}
        (unfold check_found in h) in
    (
      r,
      refl,
      check_transition-Legal status r.status p,
      check_complete-HasTriage status kwargs r.cells q,
    )

pub commit_update-ok :
    (id : ℕ) (status : String) (updates : Dict) (t t' : Table)
    → commit_update id status updates t ≡ ok t'
    → (t'.rows ≡ change_row id (write_columns status updates) t.rows) × (t'.next_id ≡ t.next_id)
unfolding commit_update
commit_update-ok id status updates t t' h = ground arith

-- An update that succeeds found its row, made a legal transition, had the data that the new
-- status needs, and changed that row alone.
pub update_row_status-Updated :
    (dumps : Value → String) (now id : ℕ) (status : String) (kwargs : Dict) (t t' : Table)
    → update_row_status dumps now id status kwargs t ≡ ok t'
    → (r : Row) × Updated dumps now id status kwargs t t' r
update_row_status-Updated dumps now id status kwargs t t' h =
    let updates = updates_of dumps status kwargs now in
    let (p, q) =
      >>-eq-ok (check_update id status kwargs t) (commit_update id status updates t) {b = t'}
        (unfold update_row_status in h) in
    let (r, found, legal, complete) =
      check_found-ok id status kwargs (find_row id t.rows) (unfold check_update in p) in
    let (rows, next_id) = commit_update-ok id status updates t t' q in
    (
      r,
      record { found = found; legal = legal; complete = complete; rows = rows; next_id = next_id },
    )
