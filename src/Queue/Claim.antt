-- ===== src/Queue/Claim.antt =====
-- What `claim_row` promises: the oldest ready row, to one worker only.
use support_triage_llm.Base.{
  ℕ, ◌≤◌, String, ◌≡◌, sym, ◌≢◌, true, false, Option, none, some, List, [], ◌∷◌, arith, All, keep,
  Option-cases, All-keep_test, All-keep, inl, inr, ap, All-of_keep, keep-nil, All-Memᴰ, Memᴰ-All,
  keep-none, ◌↔◌,
}
use mathlib.Core.Bool.{false≢true}
use mathlib.Core.List.{Memᴰ}
use mathlib.Core.Option.{none-ne-some}
use support_triage_llm.Queue.Rows.{Row, Table, created, oldest, is_ready, change_row}
use support_triage_llm.Queue.RowLaws.{oldest-All, oldest-least, oldest-none}
use support_triage_llm.Queue.Ops.{claim_row, claim_with, claim_found}

-- `r` is the row that a claim at time `seen` takes: ready, and no ready row is older.
pub record IsFirst (seen : ℕ) (r : Row) (t : Table) : Type 0 where
  pub member : Memᴰ r t.rows
  pub ready : is_ready seen r ≡ true
  pub least : All (λ s. is_ready seen s ≡ true → created r ≤ created s) t.rows

oldest-IsFirst :
    (seen : ℕ) (t : Table) {r : Row}
    → oldest (keep (is_ready seen) t.rows) ≡ some r
    → IsFirst seen r t
oldest-IsFirst seen t {r} e = record {
  member = oldest-All _ _ (All-keep _ (is_ready seen) t.rows (All-Memᴰ t.rows)) e;
  ready = oldest-All _ (keep (is_ready seen) t.rows) (All-keep_test (is_ready seen) t.rows) e;
  least = All-of_keep (λ s. created r ≤ created s) (is_ready seen) t.rows (oldest-least _ e);
}

-- A claim takes the oldest ready row, marks it, and leaves the other rows as they were.
pub claim_row-IsFirst :
    (seen now : ℕ) (w : String) (t t' : Table) (d : Row)
    → claim_row seen now w t ≡ (t', some d)
    → (r : Row) × IsFirst seen r t
      × (d ≡ claim_with w now r)
      × (t'.rows ≡ change_row r.id (claim_with w now) t.rows)
      × (t'.next_id ≡ t.next_id)
unfolding claim_row claim_found
claim_row-IsFirst seen now w t t' d h = elim (Option-cases (oldest (keep (is_ready seen) t.rows))) [
  | inl e ↦ absurd (none-ne-some _ (ap (λ (x : Table × Option Row). x.1) (rw e at h)))
  | inr (r, e) ↦
      let k = rw e at h in (r, oldest-IsFirst seen t e, ground arith, ground arith, ground arith)
]

-- A claim comes back empty exactly when no row is ready, and then the table is unchanged.
pub claim_row-none :
    (seen now : ℕ) (w : String) (t t' : Table)
    → (claim_row seen now w t ≡ (t', none)) ↔ ((t' ≡ t) × All (λ s. is_ready seen s ≡ false) t.rows)
unfolding claim_row claim_found oldest
claim_row-none seen now w t t' = (
  λ h. elim (Option-cases (oldest (keep (is_ready seen) t.rows))) [
    | inl e ↦ (ground arith, keep-nil (is_ready seen) t.rows (oldest-none _ e))
    | inr (r, e) ↦ absurd (none-ne-some _ (sym (ap (λ (x : Table × Option Row). x.1) (rw e at h))))
  ],
  λ h. rw (keep-none (is_ready seen) t.rows h.1) (ground arith),
)

-- Rows with the claimed id are no longer queued.
claimed_is_processing :
    (i now : ℕ) (w : String) (rows : List Row)
    → All (λ s. s.id ≡ i → s.status ≡ "processing") (change_row i (claim_with w now) rows)
unfolding change_row claim_with
claimed_is_processing i now w [] = tt
claimed_is_processing i now w (r ∷ rs) = (ground arith, claimed_is_processing i now w rs)

-- Two claims in a row never hand out the same row.
pub claim_row_exclusive :
    (seen seen' now now' : ℕ) (w w' : String) (t t' t'' : Table) (d e : Row)
    → claim_row seen now w t ≡ (t', some d)
    → claim_row seen' now' w' t' ≡ (t'', some e)
    → d.id ≢ e.id
unfolding claim_with is_ready
claim_row_exclusive seen seen' now now' w w' t t' t'' d e h k same =
    let (r, _, at, rows, _) = claim_row-IsFirst seen now w t t' d h in
    let (s, first, at', _, _) = claim_row-IsFirst seen' now' w' t' t'' e k in
    let busy =
      Memᴰ-All (λ s. s.id ≡ r.id → s.status ≡ "processing") t'.rows first.member
        (rw rows (claimed_is_processing r.id now w t.rows)) in
    no_clash r s at at' first.ready busy
  where
    no_clash :
        (r s : Row)
        → d ≡ claim_with w now r
        → e ≡ claim_with w' now' s
        → is_ready seen' s ≡ true
        → (s.id ≡ r.id → s.status ≡ "processing")
        → ⊥
    no_clash r s at at' ready busy =
        let ids : s.id ≡ r.id = ground arith in false≢true (rw (busy ids) at ready)
