-- ===== src/Queue/WellFormed.antt =====
-- The shape of the table `queue` that its PRIMARY KEY promises: distinct ids below the counter.
use support_triage_llm.Base.{
  ℕ, suc, ◌<◌, ◌≡◌, sym, ◌≢◌, some, List, [], ◌∷◌, ◌++◌, arith, ◌==◌, ==-refl, All, All-map,
  All-append, Bool-cases, inl, inr, Memᴰ-All,
}
use mathlib.Core.Path.{subst, subst₂}
use mathlib.Core.List.{Memᴰ}
use support_triage_llm.Queue.Rows.{Row, Table, find_row, change_row, change_one}

-- Row ids are distinct, and the counter is above them all.
abbrev pub Distinct : List Row → Type 0
Distinct [] = Unit
Distinct (r ∷ rs) = All (λ s. s.id ≢ r.id) rs × Distinct rs

pub record WellFormed (t : Table) : Type 0 where
  pub distinct : Distinct t.rows
  pub below : All (λ r. r.id < t.next_id) t.rows

-- a row whose id no other row has is the one found under it
pub find_row_member :
    (rows : List Row) (r : Row) → Distinct rows → Memᴰ r rows → find_row r.id rows ≡ some r
unfolding find_row
find_row_member [] r d m = elim m [ ]
find_row_member (s ∷ rows) r d (Memᴰ.head p) = rw (p, ==-refl s.id)
find_row_member (s ∷ rows) r d (Memᴰ.tail m) =
    let apart = Memᴰ-All (λ u. u.id ≢ s.id) rows m d.0 in
    ground (arith, find_row_member rows r d.1 m, apart)

module _ (i : ℕ) (f : Row → Row) (same_id : (r : Row) → (f r).id ≡ r.id) where
  id-change_one : (r : Row) → (change_one i f r).id ≡ r.id
  id-change_one r = elim (Bool-cases (r.id == i)) [ inl e ↦ rw e (same_id r) | inr e ↦ rw e ]

  All-id-change_row :
      (P : ℕ → Type 0) (rows : List Row)
      → All (λ s. P s.id) rows
      → All (λ s. P s.id) (change_row i f rows)
  unfolding change_row
  All-id-change_row P [] h = tt
  All-id-change_row P (r ∷ rs) h = (subst P (sym (id-change_one r)) h.0, All-id-change_row P rs h.1)

  Distinct-change_row : (rows : List Row) → Distinct rows → Distinct (change_row i f rows)
  unfolding change_row
  Distinct-change_row [] d = tt
  Distinct-change_row (r ∷ rs) d = (
    subst (λ k. All (λ s. s.id ≢ k) (change_row i f rs)) (sym (id-change_one r))
        (All-id-change_row (λ k. k ≢ r.id) rs d.0),
    Distinct-change_row rs d.1,
  )

  pub WellFormed-change_row :
      (t t' : Table)
      → WellFormed t
      → t'.rows ≡ change_row i f t.rows
      → t'.next_id ≡ t.next_id
      → WellFormed t'
  WellFormed-change_row t t' w e n = record {
    distinct = subst Distinct (sym e) (Distinct-change_row t.rows w.distinct);
    below =
        subst₂ (λ k rows. All (λ s. s.id < k) rows) (sym n) (sym e)
          (All-id-change_row (λ k. k < t.next_id) t.rows w.below);
  }

Distinct-append :
    (rows : List Row) (r : Row)
    → Distinct rows
    → All (λ s. s.id < r.id) rows
    → Distinct (rows ++ r ∷ [])
Distinct-append [] r d h = (tt, tt)
Distinct-append (s ∷ rs) r d h = (
  All-append (λ u. u.id ≢ s.id) rs (r ∷ []) d.0 (omega (arith, h.0), tt),
  Distinct-append rs r d.1 h.1,
)

pub WellFormed-append :
    (t t' : Table) (r : Row)
    → WellFormed t
    → r.id ≡ t.next_id
    → t'.rows ≡ t.rows ++ r ∷ []
    → t'.next_id ≡ suc t.next_id
    → WellFormed t'
WellFormed-append t t' r w i e n = record {
  distinct = subst Distinct (sym e) (Distinct-append t.rows r w.distinct (rw i w.below));
  below =
      subst₂ (λ k rows. All (λ s. s.id < k) rows) (sym n) (sym e)
        (All-append (λ s. s.id < suc t.next_id) t.rows (r ∷ [])
          (All-map t.rows (λ s h. omega arith) w.below) (omega arith, tt));
}
