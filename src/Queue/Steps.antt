-- ===== src/Queue/Steps.antt =====
-- Runs of the queue: the operations of app/queue_db.py that change the table, one after the other, in
-- any order, by any processes. An update_row_status is one step here: no other call falls between its
-- read and its write, which use two connections (Queue/Race.antt has what happens where one does). The status of a row follows the status graph.
use support_triage_llm.Base.{
  ℕ, String, ◌≡◌, refl, Bool, true, false, Option, none, some, List, [], ◌∷◌, ◌++◌, arith, ◌==◌,
  ==-eq, if◌then◌else◌, Bool-cases, Option-cases, inl, inr, ◌∙◌, eq_iff, ok,
}
use mathlib.Core.Option
use mathlib.Core.Path.{subst}
use mathlib.Core.Option.{some-injective, none-ne-some, some-ne-none}
use support_triage_llm.Base.Text.{lower}
use support_triage_llm.Values.{Value, Dict}
use support_triage_llm.Queue.Schema.{member, allowed_from}
use support_triage_llm.Queue.Rows.{Row, Table, find_row, change_row, is_ready}
use support_triage_llm.Queue.RowLaws.{find_row-change_row}
use support_triage_llm.Queue.Ops.{
  Payload, insert_message, claim_row, claim_with, update_row_status, write_columns,
  set_learning_eligible, mark_eligible, updates_of, new_row, answer, append_row,
}
use support_triage_llm.Queue.WellFormed.{
  WellFormed, find_row_member, WellFormed-append, WellFormed-change_row,
}
use support_triage_llm.Queue.Insert.{insert_message-created}
use support_triage_llm.Queue.Claim.{claim_row-IsFirst, claim_row-none}
use support_triage_llm.Queue.Update.{Legal, update_row_status-Updated}

-- the status of a row, in lower case
unfoldable pub status_of : ℕ → Table → Option String
status_of i t = Option.map (λ r. lower r.status) (find_row i t.rows)

find_row-append :
    (i : ℕ) (rows : List Row) (n : Row) {r : Row}
    → find_row i rows ≡ some r
    → find_row i (rows ++ n ∷ []) ≡ some r
unfolding find_row
find_row-append i [] n e = cc
find_row-append i (s ∷ rs) n e = elim (Bool-cases (s.id == i)) [
  | inl b ↦ rw b (rw b at e)
  | inr b ↦ rw b (find_row-append i rs n (rw b at e))
]

status_of-append :
    (i : ℕ) (a : String) (t t' : Table) (n : Row)
    → status_of i t ≡ some a
    → t'.rows ≡ t.rows ++ n ∷ []
    → status_of i t' ≡ some a
unfolding status_of
status_of-append i a t t' n e rows = elim (Option-cases (find_row i t.rows)) [
  | inl missing ↦ absurd (none-ne-some _ (rw missing at e))
  | inr (r, found) ↦ rw (rows, find_row-append i t.rows n found) (rw found at e)
]

module _ (k : ℕ) (f : Row → Row) (same_id : (r : Row) → (f r).id ≡ r.id) where
  -- a change of one row, along an edge of the status graph, as every row sees it
  status_of-change :
      (t t' : Table)
      → t'.rows ≡ change_row k f t.rows
      → (r : Row) → find_row k t.rows ≡ some r
      → Legal (lower r.status) (lower (f r).status)
      → (i : ℕ) (a : String) → status_of i t ≡ some a
      → (b : String) × (status_of i t' ≡ some b) × Legal a b
  unfolding status_of
  status_of-change t t' rows r found legal i a e = elim (Bool-cases (k == i)) [
    | inl b ↦
        let here : find_row i t.rows ≡ some r =
          subst (λ n. find_row n t.rows ≡ some r) (==-eq k i b) found in
        (
          lower (f r).status,
          rw (rows, find_row-change_row k f same_id i t.rows, b, here) refl,
          subst (λ c. Legal c (lower (f r).status)) (some-injective _ _ (rw here at e)) legal,
        )
    | inr b ↦ (a, rw (rows, find_row-change_row k f same_id i t.rows, b) e, inl refl)
  ]

claim_with-Legal :
    (seen now : ℕ) (w : String) (r : Row)
    → is_ready seen r ≡ true
    → Legal (lower r.status) (lower (claim_with w now r).status)
unfolding is_ready claim_with
claim_with-Legal seen now w r h =
    let queued : r.status ≡ "queued" = (eq_iff r.status "queued").0 (ground arith) in
    rw queued (unfold lower member allowed_from in inr refl)

status_of-mark :
    (id : ℕ) (eligible : Bool) (t : Table) (i : ℕ)
    → status_of i (set_learning_eligible id eligible t) ≡ status_of i t
unfolding status_of set_learning_eligible
status_of-mark id eligible t i =
    rw
      (find_row-change_row id (mark_eligible eligible) (λ s. unfold mark_eligible in refl) i t.rows)
      (unfold mark_eligible in same_status (id == i) (find_row i t.rows))
  where
    same_status :
        (b : Bool) (o : Option Row)
        → Option.map (λ r. lower r.status) (if b then Option.map (mark_eligible eligible) o else o)
          ≡ Option.map (λ r. lower r.status) o
    same_status true none = refl
    same_status true (some r) = unfold mark_eligible in refl
    same_status false o = refl

-- One operation of any process. The clock, `uuid4`, SHA-256, `isoformat` and `json.dumps` are open.
module _ (sha256 : String → String) (iso : ℕ → String) (dumps : Value → String) where
  pub data Step (t t' : Table) : Type 0 where
    insert :
        (uuid : String) (now : ℕ) (p : Payload) (id : ℕ) (created : Bool)
        → insert_message sha256 iso uuid now p t ≡ ok (t', id, created)
        → Step t t'
    claim :
        (seen now : ℕ) (w : String) (o : Option Row) → claim_row seen now w t ≡ (t', o) → Step t t'
    update :
        (now id : ℕ) (status : String) (kwargs : Dict)
        → update_row_status dumps now id status kwargs t ≡ ok t'
        → Step t t'
    mark : (id : ℕ) (eligible : Bool) → set_learning_eligible id eligible t ≡ t' → Step t t'

  insert-same :
      (uuid : String) (now : ℕ) (p : Payload) (t t' : Table) (id : ℕ)
      → insert_message sha256 iso uuid now p t ≡ ok (t', id, false)
      → t' ≡ t
  unfolding insert_message answer append_row
  insert-same uuid now p t t' id h = ground arith

  pub Step-WellFormed : {t t' : Table} → Step t t' → WellFormed t → WellFormed t'
  Step-WellFormed {t} {t'} (insert uuid now p id true h) w =
      let (rows, next_id, at) = insert_message-created sha256 iso uuid now p t t' id h in
      WellFormed-append t t' (new_row sha256 iso t.next_id uuid p now) w (unfold new_row in refl)
        rows next_id
  Step-WellFormed {t} {t'} (insert uuid now p id false h) w =
      rw (insert-same uuid now p t t' id h) w
  Step-WellFormed {t} {t'} (claim seen now v none h) w =
      rw ((claim_row-none seen now v t t').0 h).0 w
  Step-WellFormed {t} {t'} (claim seen now v (some d) h) w =
      let (r, _, _, rows, next_id) = claim_row-IsFirst seen now v t t' d h in
      WellFormed-change_row r.id (claim_with v now) (λ s. unfold claim_with in refl) t t' w rows
        next_id
  Step-WellFormed {t} {t'} (update now id status kwargs h) w =
      let (r, u) = update_row_status-Updated dumps now id status kwargs t t' h in
      WellFormed-change_row id (write_columns status (updates_of dumps status kwargs now))
        (λ s. unfold write_columns in refl) t t' w u.rows u.next_id
  Step-WellFormed {t} {t'} (mark id eligible h) w =
      WellFormed-change_row id (mark_eligible eligible) (λ s. unfold mark_eligible in refl) t t' w
        (rw (← h) (unfold set_learning_eligible in refl))
        (rw (← h) (unfold set_learning_eligible in refl))

  -- Every operation refines the status graph: an existing row stays, and its status stays or moves
  -- along one edge of the graph.
  pub Step-Legal :
      {t t' : Table}
      → Step t t'
      → WellFormed t
      → (i : ℕ) (a : String) → status_of i t ≡ some a
      → (b : String) × (status_of i t' ≡ some b) × Legal a b
  Step-Legal {t} {t'} (insert uuid now p id true h) w i a e =
      let (rows, next_id, at) = insert_message-created sha256 iso uuid now p t t' id h in
      (a, status_of-append i a t t' _ e rows, inl refl)
  Step-Legal {t} {t'} (insert uuid now p id false h) w i a e =
      (a, rw (insert-same uuid now p t t' id h) e, inl refl)
  Step-Legal {t} {t'} (claim seen now v none h) w i a e =
      (a, rw ((claim_row-none seen now v t t').0 h).0 e, inl refl)
  Step-Legal {t} {t'} (claim seen now v (some d) h) w i a e =
      let (r, first, _, rows, _) = claim_row-IsFirst seen now v t t' d h in
      status_of-change r.id (claim_with v now) (λ s. unfold claim_with in refl) t t' rows r
        (find_row_member t.rows r w.distinct first.member)
        (claim_with-Legal seen now v r first.ready) i a e
  Step-Legal {t} {t'} (update now id status kwargs h) w i a e =
      let (r, u) = update_row_status-Updated dumps now id status kwargs t t' h in
      status_of-change id (write_columns status (updates_of dumps status kwargs now))
        (λ s. unfold write_columns in refl) t t' u.rows r u.found (unfold write_columns in u.legal)
        i a e
  Step-Legal {t} {t'} (mark id eligible h) w i a e =
      (a, rw (← h) (status_of-mark id eligible t i ∙ e), inl refl)
