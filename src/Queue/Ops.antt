-- ===== src/Queue/Ops.antt =====
-- The operations of app/queue_db.py on the table `queue`. The clock, `uuid4`, SHA-256, `isoformat`
-- and `json.dumps` are parameters.
use support_triage_llm.Base.{
  ℕ, suc, String, Bool, true, false, ◌&&◌, ◌||◌, not, Option, none, some, List, [], ◌∷◌, ◌++◌,
  str_eq, keep, Result, ok, err, ◌>>◌, if◌then◌else◌,
}
use support_triage_llm.Base.Text.{lower, prefix, strip, or_text, concat}
use support_triage_llm.Values.{
  Value, null, num, time, text, array, object, no_elements, no_members, Dict, get, has, put, merge,
  truthy, or_value, is_text,
}
use support_triage_llm.Queue.Schema.{
  member, allowed_update_fields, allowed_from, triage_complete_states, json_fields,
}
use support_triage_llm.Queue.Rows.{
  Row, Table, newest, oldest, find_row, change_row, is_ready, is_taken,
}

-- What an operation raises: `ValueError`, told apart by its message, or SQLite's `IntegrityError`.
pub data QueueError : Type 0 where
  not_found : ℕ → QueueError
  invalid_transition : String → String → QueueError
  triage_json_required : String → QueueError
  draft_required : String → QueueError
  integrity_error : QueueError

-- An inbound payload is a dict of texts; an absent key reads as the empty text.
abbrev pub Payload : Type 0
Payload = List (String × String)

unfoldable pub part : String → Payload → String
part k [] = ""
part k ((j, v) ∷ p) = let rest = part k p in if str_eq j k then v else rest

unfoldable pub get_by_idempotency : String → Table → Option Row
get_by_idempotency key t =
    if str_eq key ""
    then none
    else newest (keep (λ r. is_text key (get "idempotency_key" r.cells)) t.rows)

-- the INSERT: the UNIQUE column `message_id` may refuse it
unfoldable pub append_row : Row → Table → Result QueueError (Table × ℕ × Bool)
append_row r t =
    if is_taken r.id (get "message_id" r.cells) t.rows
    then err integrity_error
    else ok (record { rows = t.rows ++ (r ∷ []); next_id = suc r.id }, r.id, true)

-- an existing row answers for the payload unless it is a dead letter
unfoldable pub is_live : Row → Bool
is_live r = not (str_eq r.status "dead_letter")

-- the reply to a payload whose key found this row; `fresh` is the outcome of the INSERT
unfoldable pub answer :
    Table → Result QueueError (Table × ℕ × Bool) → Option Row → Result QueueError (Table × ℕ × Bool)
unfolding is_live
answer t fresh none = fresh
answer t fresh (some r) = if is_live r then ok (t, r.id, false) else fresh

module _ (sha256 : String → String) (iso : ℕ → String) where
  unfoldable pub compute_idempotency_key : Payload → ℕ → String
  unfolding part
  compute_idempotency_key payload created_at =
      let body = strip (or_text (part "text" payload) (part "payload" payload)) in
      let tenant =
        or_text (part "end_user_handle" payload)
          (or_text (part "tenant" payload) (part "customer" payload)) in
      let bucket = prefix 10 (iso created_at) in
      sha256 (concat (tenant ∷ "|" ∷ prefix 200 body ∷ "|" ∷ bucket ∷ []))

  -- the key under which `insert_message` files a payload
  unfoldable pub key_of : Payload → ℕ → String
  unfolding part
  key_of payload now =
      or_text (part "idempotency_key" payload) (compute_idempotency_key payload now)

  -- the row that `insert_message` writes
  unfoldable pub new_row : ℕ → String → Payload → ℕ → Row
  unfolding part key_of
  new_row id uuid payload now =
      let message_id = or_text (part "message_id" payload) uuid in
      record {
        id = id;
        status = "queued";
        cells =
            ("case_id", text (or_text (part "case_id" payload) message_id))
            ∷ ("message_id", text message_id)
            ∷ ("idempotency_key", text (key_of payload now))
            ∷ ("available_at", time now)
            ∷ ("conversation_id", text (part "conversation_id" payload))
            ∷ ("end_user_handle", text (part "end_user_handle" payload))
            ∷ ("channel", text (or_text (part "channel" payload) "web_chat"))
            ∷ ("message_direction", text (or_text (part "message_direction" payload) "inbound"))
            ∷ ("message_type", text (or_text (part "message_type" payload) "text"))
            ∷ ("payload", text (or_text (part "text" payload) (part "payload" payload)))
            ∷ ("raw_payload", text (part "raw_payload" payload))
            ∷ ("processor_id", text (part "processor_id" payload))
            ∷ ("started_at", time now)
            ∷ ("delivery_status", text "pending")
            ∷ ("ingest_signature", text (part "ingest_signature" payload))
            ∷ ("created_at", time now)
            ∷ ("retry_count", num 0)
            ∷ ("learning_eligible", num 0)
            ∷ [];
      }

  -- insert_message: the table, the row's id, and whether it was created
  unfoldable pub insert_message :
      String → ℕ → Payload → Table → Result QueueError (Table × ℕ × Bool)
  insert_message uuid now payload t =
      answer t (append_row (new_row t.next_id uuid payload now) t)
        (get_by_idempotency (key_of payload now) t)

-- the columns that a claim sets
unfoldable pub claim_with : String → ℕ → Row → Row
claim_with processor_id now r = record r {
  status = "processing";
  cells = put "started_at" (time now) (put "processor_id" (text processor_id) r.cells);
}

-- the columns that an update sets
unfoldable pub write_columns : String → Dict → Row → Row
write_columns status updates r = record r { status = status; cells = merge r.cells updates }

unfoldable pub mark_eligible : Bool → Row → Row
mark_eligible eligible r = record r {
  cells = put "learning_eligible" (num (if eligible then 1 else 0)) r.cells;
}

-- the claim of the row that the SELECT found, if it found one
unfoldable pub claim_found : ℕ → String → Table → Option Row → Table × Option Row
claim_found now processor_id t none = (t, none)
claim_found now processor_id t (some r) = (
  record t { rows = change_row r.id (claim_with processor_id now) t.rows },
  some (claim_with processor_id now r),
)

-- claim_row, which reads the clock twice: the table and the claimed row
unfoldable pub claim_row : ℕ → ℕ → String → Table → Table × Option Row
claim_row seen now processor_id t =
    claim_found now processor_id t (oldest (keep (is_ready seen) t.rows))

-- _maybe_json_dump, with `json.dumps` as a parameter
unfoldable pub is_blank : Value → Bool
is_blank null = true
is_blank (text s) = str_eq s ""
is_blank (array no_elements) = true
is_blank (object no_members) = true
is_blank _ = false

module _ (dumps : Value → String) where
  unfoldable pub maybe_json_dump : String → Value → Value
  maybe_json_dump key v =
      if member key json_fields then (if is_blank v then text "" else text (dumps v)) else v

  -- the loop over **kwargs: columns that may not be updated are skipped
  unfoldable pub collect : Dict → Dict → Dict
  collect updates [] = updates
  collect updates ((key, v) ∷ kwargs) =
      collect
        (if member key allowed_update_fields
          then put key (maybe_json_dump key v) updates
          else updates)
        kwargs

  -- the columns that an update writes besides `status`
  unfoldable pub updates_of : String → Dict → ℕ → Dict
  updates_of status kwargs now =
      let updates = collect [] kwargs in
      if not (has "finished_at" updates)
        && member status ("responded" ∷ "delivered" ∷ "handoff" ∷ [])
      then put "finished_at" (time now) updates
      else updates

-- the draft that a status of a finished triage needs: the arguments' own, or the row's
unfoldable pub draft_of : String → String → Dict → Dict → Value
draft_of triage customer kwargs existing =
    or_value (get triage kwargs)
      (or_value (get customer kwargs) (or_value (get triage existing) (get customer existing)))

unfoldable pub check_complete : String → Dict → Dict → Result QueueError (Unit {0})
check_complete status kwargs existing =
    if member (lower status) triage_complete_states
    then (if not (truthy (or_value (get "triage_json" kwargs) (get "triage_json" existing)))
        then err (triage_json_required status)
        else if not (
              truthy
                (draft_of "triage_draft_subject" "draft_customer_reply_subject" kwargs existing))
            || not
                (truthy (draft_of "triage_draft_body" "draft_customer_reply_body" kwargs existing))
        then err (draft_required status)
        else ok tt)
    else ok tt

unfoldable pub check_transition : String → String → Result QueueError (Unit {0})
check_transition status current =
    if str_eq (lower status) (lower current)
    then ok tt
    else if member (lower status) (allowed_from (lower current))
    then ok tt
    else err (invalid_transition (lower current) (lower status))

unfoldable pub check_found : ℕ → String → Dict → Option Row → Result QueueError (Unit {0})
unfolding check_transition check_complete
check_found id status kwargs none = err (not_found id)
check_found id status kwargs (some r) =
    check_transition status r.status >> check_complete status kwargs r.cells

-- the first connection of `update_row_status`: reads the row and checks the request
unfoldable pub check_update : ℕ → String → Dict → Table → Result QueueError (Unit {0})
unfolding check_found
check_update id status kwargs t = check_found id status kwargs (find_row id t.rows)

-- the second connection: writes the columns, whatever the row holds by then
unfoldable pub commit_update : ℕ → String → Dict → Table → Result QueueError Table
commit_update id status updates t =
    if has "message_id" updates && is_taken id (get "message_id" updates) t.rows
    then err integrity_error
    else ok (record t { rows = change_row id (write_columns status updates) t.rows })

-- update_row_status
unfoldable pub update_row_status :
    (Value → String) → ℕ → ℕ → String → Dict → Table → Result QueueError Table
unfolding check_update commit_update
update_row_status dumps now id status kwargs t =
    check_update id status kwargs t
    >> commit_update id status (updates_of dumps status kwargs now) t

unfoldable pub set_learning_eligible : ℕ → Bool → Table → Table
set_learning_eligible id eligible t = record t {
  rows = change_row id (mark_eligible eligible) t.rows;
}
