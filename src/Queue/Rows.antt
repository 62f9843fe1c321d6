-- ===== src/Queue/Rows.antt =====
-- The rows of the table `queue`, and the SQL that app/queue_db.py runs over them. Columns other
-- than `id` and `status` are cells; an absent cell is NULL. Ties in an ORDER BY go to the first row.
use support_triage_llm.Base.{
  ℕ, zero, suc, String, Bool, true, false, ◌&&◌, Option, none, some, List, [], ◌∷◌, ltb, leb, ◌==◌,
  str_eq, any, not, if◌then◌else◌,
}
use support_triage_llm.Values.{Value, null, time, text, Dict, get, is_text}

pub record Row : Type 0 where
  pub id : ℕ
  pub status : String
  pub cells : Dict

-- `next_id` is the AUTOINCREMENT counter.
pub record Table : Type 0 where
  pub rows : List Row
  pub next_id : ℕ

-- a time column in ORDER BY: NULL sorts first
unfoldable pub order_key : Value → ℕ
order_key (time t) = suc t
order_key _ = zero

unfoldable pub created : Row → ℕ
unfolding order_key get
created r = order_key (get "created_at" r.cells)

unfoldable pub older : Row → Option Row → Option Row
older r none = some r
older r (some s) = if ltb (created s) (created r) then some s else some r

-- ORDER BY created_at ASC LIMIT 1
unfoldable pub oldest : List Row → Option Row
oldest [] = none
oldest (r ∷ rs) = older r (oldest rs)

unfoldable pub newer : Row → Option Row → Option Row
newer r none = some r
newer r (some s) = if ltb (created r) (created s) then some s else some r

-- ORDER BY created_at DESC LIMIT 1
unfoldable pub newest : List Row → Option Row
newest [] = none
newest (r ∷ rs) = newer r (newest rs)

-- SELECT * FROM queue WHERE id = ?
unfoldable pub find_row : ℕ → List Row → Option Row
find_row i [] = none
find_row i (r ∷ rs) = let rest = find_row i rs in if r.id == i then some r else rest

abbrev pub change_one : ℕ → (Row → Row) → Row → Row
change_one i f r = if r.id == i then f r else r

-- UPDATE queue SET ... WHERE id = ?
unfoldable pub change_row : ℕ → (Row → Row) → List Row → List Row
change_row i f [] = []
change_row i f (r ∷ rs) = change_one i f r ∷ change_row i f rs

-- available_at IS NULL OR available_at <= now
unfoldable pub is_available : Value → ℕ → Bool
is_available null now = true
is_available (time t) now = leb t now
is_available _ now = false

-- status = 'queued' AND (available_at IS NULL OR available_at <= now)
unfoldable pub is_ready : ℕ → Row → Bool
unfolding is_available get
is_ready now r = str_eq r.status "queued" && is_available (get "available_at" r.cells) now

-- a row other than `i` holds this message_id: the column is UNIQUE
unfoldable pub is_taken : ℕ → Value → List Row → Bool
is_taken i (text m) rows = any (λ r. not (r.id == i) && is_text m (get "message_id" r.cells)) rows
is_taken i _ rows = false
