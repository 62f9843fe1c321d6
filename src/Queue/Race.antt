-- ===== src/Queue/Race.antt =====
-- Two weak points of `update_row_status`: the check and the write use two connections, and a blank
-- argument passes the check on the strength of the column that it then overwrites.
use support_triage_llm.Base.{
  String, ℕ, ◌≡◌, refl, Bool, true, false, some, [], ◌∷◌, arith, eq_iff, inl, inr, if◌then◌else◌,
  ok, Option-cases, ==-refl,
}
use mathlib.Core.Bool.{false≢true}
use mathlib.Core.Option.{none-ne-some}
use support_triage_llm.Base.Text.{lower}
use support_triage_llm.Values.{
  Value, null, flag, num, array, object, no_elements, element, no_members, named, Dict, text, time,
  get-put, get, put, merge, has, truthy, or_value,
}
use support_triage_llm.Queue.Schema.{member, allowed_from, allowed_update_fields, json_fields}
use support_triage_llm.Queue.Rows.{Row, Table, find_row, change_row}
use support_triage_llm.Queue.RowLaws.{find_row-change_row}
use support_triage_llm.Queue.Ops.{
  check_update, check_found, check_transition, check_complete, commit_update, updates_of,
  write_columns, update_row_status, is_blank, draft_of, collect, maybe_json_dump,
}
use support_triage_llm.Queue.Update.{Legal, HasTriage, commit_update-ok}
use support_triage_llm.Queue.Steps.{status_of}

-- A write sets the status, whatever the row's status is by then.
status_of-commit :
    (id : ℕ) (status : String) (updates : Dict) (t t' : Table) (a : String)
    → status_of id t ≡ some a
    → commit_update id status updates t ≡ ok t'
    → status_of id t' ≡ some (lower status)
unfolding status_of
status_of-commit id status updates t t' a e h = elim (Option-cases (find_row id t.rows)) [
  | inl missing ↦ absurd (none-ne-some _ (rw missing at e))
  | inr (r, found) ↦
      rw
        (
          (commit_update-ok id status updates t t' h).0,
          find_row-change_row id (write_columns status updates) (λ s. unfold write_columns in refl)
              id t.rows,
          ==-refl id,
          found,
        )
        (unfold write_columns in refl)
]

-- Two processes that both read a row `awaiting_human` may both pass the check, one to record the
-- answer that was sent and one to record an approval. If the approval is written last, the
-- row goes from `responded` to `approved`, which the status graph does not allow.
pub update_race :
    (id : ℕ) (sent approval updates updates' : Dict) (t t' t'' : Table)
    → status_of id t ≡ some "awaiting_human"
    → check_update id "responded" sent t ≡ ok tt
    → check_update id "approved" approval t ≡ ok tt
    → commit_update id "responded" updates t ≡ ok t'
    → commit_update id "approved" updates' t' ≡ ok t''
    → (status_of id t' ≡ some "responded")
      × (status_of id t'' ≡ some "approved")
      × ¬ Legal "responded" "approved"
unfolding lower
update_race id sent approval updates updates' t t' t'' e p q h k =
    let first = status_of-commit id "responded" updates t t' "awaiting_human" e h in
    (first, status_of-commit id "approved" updates' t' t'' "responded" first k, not_legal)
  where
    not_legal : ¬ Legal "responded" "approved"
    not_legal (inl s) = absurd (cc ((eq_iff "approved" "responded").1 s))
    not_legal (inr m) = unfold member allowed_from in cc

-- the column after an update with a blank `triage_json`
blank_updates :
    (dumps : Value → String) (status : String) (v : Value) (now : ℕ)
    → is_blank v ≡ true
    → (has "message_id" (updates_of dumps status (("triage_json", v) ∷ []) now) ≡ false)
      × ((cells : Dict)
          → get "triage_json" (merge cells (updates_of dumps status (("triage_json", v) ∷ []) now))
            ≡ text "")
unfolding updates_of collect maybe_json_dump member json_fields allowed_update_fields get put has
    merge
blank_updates dumps status v now blank =
    rw blank (split (member status ("responded" ∷ "delivered" ∷ "handoff" ∷ [])))
  where
    split :
        (b : Bool)
        → let updates =
            if b
            then put "finished_at" (time now) (("triage_json", text "") ∷ [])
            else ("triage_json", text "") ∷ [] in
          (has "message_id" updates ≡ false)
          × ((cells : Dict) → get "triage_json" (merge cells updates) ≡ text "")
    split true = (refl, λ cells. simp get-put refl)
    split false = (refl, λ cells. simp get-put refl)

blank-falsy : (v : Value) → is_blank v ≡ true → truthy v ≡ false
unfolding is_blank truthy
blank-falsy null h = refl
blank-falsy (flag b) h = absurd (false≢true h)
blank-falsy (num n) h = absurd (false≢true h)
blank-falsy (time n) h = absurd (false≢true h)
blank-falsy (text s) h = rw h
blank-falsy (array no_elements) h = refl
blank-falsy (array (element w ws)) h = absurd (false≢true h)
blank-falsy (object no_members) h = refl
blank-falsy (object (named k w fs)) h = absurd (false≢true h)

Legal-check_transition :
    (status current : String)
    → Legal (lower current) (lower status)
    → check_transition status current ≡ ok tt
unfolding check_transition
Legal-check_transition status current (inl e) = rw ((eq_iff _ _).1 e)
Legal-check_transition status current (inr m) = ground arith

blank_complete :
    (status : String) (v : Value) (cells : Dict)
    → HasTriage [] cells
    → is_blank v ≡ true
    → check_complete status (("triage_json", v) ∷ []) cells ≡ ok tt
unfolding check_complete get or_value draft_of truthy
blank_complete status v cells h blank = ground (arith, blank-falsy v blank)

-- A blank `triage_json` argument passes the check, because the row has a triage, and the update
-- then writes the empty text over it: the row ends in a finished state without its triage.
pub update_row_status-blank :
    (dumps : Value → String) (now id : ℕ) (status : String) (v : Value) (t : Table) (r : Row)
    → find_row id t.rows ≡ some r
    → Legal (lower r.status) (lower status)
    → HasTriage [] r.cells
    → is_blank v ≡ true
    → (t' : Table) × (r' : Row) × (update_row_status dumps now id status (("triage_json", v) ∷ []) t
        ≡ ok t')
      × (find_row id t'.rows ≡ some r')
      × (r'.status ≡ status)
      × (get "triage_json" r'.cells ≡ text "")
update_row_status-blank dumps now id status v t r found legal triage blank =
    let updates = updates_of dumps status (("triage_json", v) ∷ []) now in
    let (unkeyed, cleared) = blank_updates dumps status v now blank in
    (
      record t { rows = change_row id (write_columns status updates) t.rows },
      write_columns status updates r,
      unfold update_row_status check_update check_found commit_update in
          rw
            (
              found,
              Legal-check_transition status r.status legal,
              blank_complete status v r.cells triage blank,
              unkeyed,
            )
            refl,
      rw
          (
            find_row-change_row id (write_columns status updates)
                (λ s. unfold write_columns in refl) id t.rows,
            ==-refl id,
            found,
          )
          refl,
      unfold write_columns in refl,
      unfold write_columns in cleared r.cells,
    )
