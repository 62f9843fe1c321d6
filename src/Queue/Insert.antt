-- ===== src/Queue/Insert.antt =====
-- What `insert_message` promises: one live row for an idempotency key.
use support_triage_llm.Base.{
  ℕ, suc, ◌<◌, String, ◌≡◌, refl, ◌≢◌, Bool, true, false, some, [], ◌∷◌, ◌++◌, arith, ◌==◌, All,
  keep, Bool-cases, ok, err, str_eq, eq_refl, str_eq-ne, keep-append, All-keep, All-any-false, ◌&&◌,
  inl, inr, not,
}
use mathlib.Core.Option.{none-ne-some}
use support_triage_llm.Values.{get, is_text, text}
use support_triage_llm.Queue.Rows.{Row, Table, created, order_key, is_taken}
use support_triage_llm.Queue.RowLaws.{newest-append, newest-All}
use support_triage_llm.Queue.Ops.{
  Payload, get_by_idempotency, insert_message, append_row, key_of, new_row, answer, part,
  integrity_error,
}

-- The row found under a key has that key, and is a row of the table.
pub get_by_idempotency-All {ℓ} :
    (P : Row → Type ℓ) (key : String) (t : Table) {r : Row}
    → All P t.rows
    → get_by_idempotency key t ≡ some r
    → P r
unfolding get_by_idempotency
get_by_idempotency-All P key t h e = elim (Bool-cases (str_eq key "")) [
  | inl b ↦ absurd (none-ne-some _ (rw b at e))
  | inr b ↦ newest-All P _ (All-keep P _ t.rows h) (rw b at e)
]

-- A row newer than the others is the one found under its key.
pub get_by_idempotency-append :
    (key : String) (t t' : Table) (r : Row)
    → key ≢ ""
    → get "idempotency_key" r.cells ≡ text key
    → All (λ s. created s < created r) t.rows
    → t'.rows ≡ t.rows ++ r ∷ []
    → get_by_idempotency key t' ≡ some r
unfolding get_by_idempotency is_text
get_by_idempotency-append key t t' r k own old e =
    rw (str_eq-ne key "" k, e, keep-append (has_key key) t.rows (r ∷ []), own, eq_refl key)
      (newest-append (keep (has_key key) t.rows) r
        (All-keep (λ s. created s < created r) (has_key key) t.rows old))
  where
    has_key : String → Row → Bool
    has_key k s = is_text k (get "idempotency_key" s.cells)

module _ (sha256 : String → String) (iso : ℕ → String) where
  -- Creation appends one row, the new one, under the next id.
  pub insert_message-created :
      (uuid : String) (now : ℕ) (p : Payload) (t t' : Table) (id : ℕ)
      → insert_message sha256 iso uuid now p t ≡ ok (t', id, true)
      → (t'.rows ≡ t.rows ++ new_row sha256 iso t.next_id uuid p now ∷ [])
        × (t'.next_id ≡ suc t.next_id)
        × (id ≡ t.next_id)
  unfolding insert_message answer append_row new_row
  insert_message-created uuid now p t t' id h = ground arith

  new_row-key :
      (id : ℕ) (uuid : String) (p : Payload) (now : ℕ)
      → get "idempotency_key" (new_row sha256 iso id uuid p now).cells
        ≡ text (key_of sha256 iso p now)
  unfolding new_row get
  new_row-key id uuid p now = refl

  new_row-created :
      (id : ℕ) (uuid : String) (p : Payload) (now : ℕ)
      → created (new_row sha256 iso id uuid p now) ≡ suc now
  unfolding new_row created get order_key
  new_row-created id uuid p now = refl

  -- After a creation, a later payload with the same key is answered by the created row.
  pub insert_message-dedup :
      (uuid uuid' : String) (now now' : ℕ) (p p' : Payload) (t t' : Table) (id : ℕ)
      → All (λ r. created r < suc now) t.rows
      → key_of sha256 iso p now ≢ ""
      → key_of sha256 iso p' now' ≡ key_of sha256 iso p now
      → insert_message sha256 iso uuid now p t ≡ ok (t', id, true)
      → insert_message sha256 iso uuid' now' p' t' ≡ ok (t', id, false)
  unfolding insert_message answer new_row
  insert_message-dedup uuid uuid' now now' p p' t t' id old k same h =
      let (rows, _, at) = insert_message-created uuid now p t t' id h in
      let found : get_by_idempotency (key_of sha256 iso p' now') t'
          ≡ some (new_row sha256 iso t.next_id uuid p now) =
        rw same (
          get_by_idempotency-append (key_of sha256 iso p now) t t'
            (new_row sha256 iso t.next_id uuid p now) k (new_row-key t.next_id uuid p now)
            (rw (new_row-created t.next_id uuid p now) old) rows) in
      rw found (rw at refl)

  -- The INSERT is refused when the payload's own message_id belongs to a row of the table.
  taken_by :
      (m : String) (t : Table) (key : String) (r : Row)
      → get_by_idempotency key t ≡ some r
      → get "message_id" r.cells ≡ text m
      → All (λ s. s.id < t.next_id) t.rows
      → is_taken t.next_id (text m) t.rows ≡ true
  unfolding is_taken is_text
  taken_by m t key r e own below = elim (Bool-cases (is_taken t.next_id (text m) t.rows)) [
    | inl yes_taken ↦ yes_taken
    | inr free ↦
        let other = get_by_idempotency-All _ key t (All-any-false _ t.rows free) e in
        let small = get_by_idempotency-All (λ s. s.id < t.next_id) key t below e in
        absurd (no_clash small (rw own at other))
  ]
    where
      no_clash : r.id < t.next_id → (not (r.id == t.next_id) && is_text m (text m)) ≡ false → ⊥
      no_clash small other = ground (arith, eq_refl m)

  -- A message whose row is a dead letter is not queued again under its own message id: the key
  -- lets it through, and the UNIQUE column refuses it.
  pub insert_message-dead_letter :
      (uuid : String) (now : ℕ) (p : Payload) (t : Table) (r : Row)
      → get_by_idempotency (key_of sha256 iso p now) t ≡ some r
      → r.status ≡ "dead_letter"
      → get "message_id" r.cells ≡ text (part "message_id" p)
      → part "message_id" p ≢ ""
      → All (λ s. s.id < t.next_id) t.rows
      → insert_message sha256 iso uuid now p t ≡ err integrity_error
  unfolding insert_message answer append_row new_row get
  insert_message-dead_letter uuid now p t r e dead own given below =
      rw
        (
          e,
          dead,
          str_eq-ne (part "message_id" p) "" given,
          taken_by (part "message_id" p) t (key_of sha256 iso p now) r e own below,
        )
        refl
