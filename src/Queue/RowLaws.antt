-- ===== src/Queue/RowLaws.antt =====
-- Laws of the SELECT and UPDATE statements of `Rows`.
use support_triage_llm.Base.{
  ℕ, ◌≤◌, ◌<◌, ◌≡◌, refl, ◌≢◌, Option, none, some, List, [], ◌∷◌, ◌++◌, arith, ltb, ◌==◌, ==-eq,
  All, All-map, if◌then◌else◌, Option-cases, Bool-cases, ◌⊎◌, inl, inr,
}
use mathlib.Core.Option
use mathlib.Core.Option.{some-injective, none-ne-some, some-ne-none}
use mathlib.Core.Path.{subst}
use native.Mathlib.Nat.{le_trans}
use support_triage_llm.Queue.Rows.{Row, created, older, newer, oldest, newest, find_row, change_row}

module _ (i : ℕ) (f : Row → Row) (same_id : (r : Row) → (f r).id ≡ r.id) where
  pub find_row-change_row :
      (j : ℕ) (rows : List Row)
      → find_row j (change_row i f rows)
        ≡ (if i == j then Option.map f (find_row j rows) else find_row j rows)
  unfolding find_row change_row
  find_row-change_row j [] = ground arith
  find_row-change_row j (r ∷ rs) = ground (arith, find_row-change_row j rs, same_id r)

pub find_row-id : (i : ℕ) (rows : List Row) (r : Row) → find_row i rows ≡ some r → r.id ≡ i
unfolding find_row
find_row-id i [] r e = absurd (none-ne-some _ e)
find_row-id i (s ∷ rows) r e = ground (arith, ==-eq s.id i, find_row-id i rows r)

-- A query returns the new row or what it would have returned.
older-cases : (s : Row) (o : Option Row) {r : Row} → older s o ≡ some r → (s ≡ r) ⊎ (o ≡ some r)
unfolding older
older-cases s none e = inl (some-injective _ _ e)
older-cases s (some t) e = elim (Bool-cases (ltb (created t) (created s))) [
  | inl b ↦ inr (rw b at e)
  | inr b ↦ inl (some-injective _ _ (rw b at e))
]

newer-cases : (s : Row) (o : Option Row) {r : Row} → newer s o ≡ some r → (s ≡ r) ⊎ (o ≡ some r)
unfolding newer
newer-cases s none e = inl (some-injective _ _ e)
newer-cases s (some t) e = elim (Bool-cases (ltb (created s) (created t))) [
  | inl b ↦ inr (rw b at e)
  | inr b ↦ inl (some-injective _ _ (rw b at e))
]

-- A predicate of every row holds of the row that a query returns.
module _ {ℓ} (P : Row → Type ℓ) where
  pub oldest-All : (rows : List Row) {r : Row} → All P rows → oldest rows ≡ some r → P r
  unfolding oldest
  oldest-All [] h e = absurd (none-ne-some _ e)
  oldest-All (s ∷ rs) h e = elim (older-cases s (oldest rs) e) [
    | inl p ↦ subst P p h.0
    | inr p ↦ oldest-All rs h.1 p
  ]

  pub newest-All : (rows : List Row) {r : Row} → All P rows → newest rows ≡ some r → P r
  unfolding newest
  newest-All [] h e = absurd (none-ne-some _ e)
  newest-All (s ∷ rs) h e = elim (newer-cases s (newest rs) e) [
    | inl p ↦ subst P p h.0
    | inr p ↦ newest-All rs h.1 p
  ]

-- `oldest` returns none only of no rows.
pub oldest-none : (rows : List Row) → oldest rows ≡ none → rows ≡ []
unfolding oldest older
oldest-none [] e = refl
oldest-none (s ∷ rs) e = absurd (older-ne-none s (oldest rs) e)
  where
    older-ne-none : (s : Row) (o : Option Row) → older s o ≢ none
    older-ne-none s none h = some-ne-none _ h
    older-ne-none s (some t) h = ground arith

older-le :
    (s : Row) (o : Option Row) {r : Row}
    → older s o ≡ some r
    → (created r ≤ created s) × ((t : Row) → o ≡ some t → created r ≤ created t)
unfolding older
older-le s o e = (ground arith, λ t p. ground arith)

-- No row is older than the one that `oldest` returns.
pub oldest-least :
    (rows : List Row) {r : Row} → oldest rows ≡ some r → All (λ s. created r ≤ created s) rows
unfolding oldest
oldest-least [] e = tt
oldest-least (s ∷ rs) e = elim (Option-cases (oldest rs)) [
  | inl p ↦ ((older-le s (oldest rs) e).0, rw (oldest-none rs p) tt)
  | inr (t, p) ↦ (
    (older-le s (oldest rs) e).0,
    All-map rs (λ u h. le_trans ((older-le s (oldest rs) e).1 t p) h) (oldest-least rs p),
  )
]

newer_self : (s r : Row) → created s < created r → newer s (some r) ≡ some r
unfolding newer
newer_self s r h = ground arith

-- A row newer than all the others is the newest.
pub newest-append :
    (rows : List Row) (r : Row)
    → All (λ s. created s < created r) rows
    → newest (rows ++ r ∷ []) ≡ some r
unfolding newest newer
newest-append [] r h = refl
newest-append (s ∷ rs) r h = rw (newest-append rs r h.1) (newer_self s r h.0)
