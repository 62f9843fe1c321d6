-- ===== src/Retention/Laws.antt =====
-- What retention leaves in the table.
use mathlib.Core.Bool.{false≢true}
use mathlib.Core.List.{Memᴰ}
use support_triage_llm.Base.{
  ℕ, ◌<◌, String, ◌≡◌, refl, sym, ◌∙◌, ap, ◌≢◌, subst, inl, inr, Bool, true, false, not, Bool-cases,
  List, [], ◌∷◌, ◌++◌, All, All-map, All-keep, All-keep_test, map, keep, ◌==◌, str_eq, ok,
  if◌then◌else◌, arith,
}
use support_triage_llm.Values.{text, get, put, get-put}
use support_triage_llm.Queue.Rows.{Row, Table}
use support_triage_llm.Queue.Ops.{Payload, part, new_row, insert_message}
use support_triage_llm.Queue.Insert.{insert_message-created}
use support_triage_llm.Queue.WellFormed.{WellFormed, Distinct}
use support_triage_llm.Retention.Scrub.{
  is_before, is_old, is_filled, is_scrubbable, purge, scrub_row, scrub_raw, days_ago, retain,
}

-- An old row that has a redacted text shows that text alone.
IsScrubbed : ℕ → Row → Type 0
IsScrubbed cutoff r =
    is_old cutoff r ≡ true
    → is_filled (get "redacted_payload" r.cells) ≡ true
    → (get "raw_payload" r.cells ≡ text "")
      × (get "payload" r.cells ≡ get "redacted_payload" r.cells)

module _ (cutoff : ℕ) (r : Row) (e : is_scrubbable cutoff r ≡ true) where
  get-scrub_row :
      (k : String)
      → get k (scrub_row cutoff r).cells ≡ (
          if str_eq "payload" k
          then get "redacted_payload" r.cells
          else (if str_eq "raw_payload" k then text "" else get k r.cells))
  unfolding scrub_row
  get-scrub_row k =
      rw
        (
          scrub_row,
          e,
          get-put "payload" k (get "redacted_payload" r.cells)
              (put "raw_payload" (text "") r.cells),
          get-put "raw_payload" k (text "") r.cells,
        )
        refl

scrub_row-same : (cutoff : ℕ) (r : Row) → is_scrubbable cutoff r ≡ false → scrub_row cutoff r ≡ r
unfolding scrub_row
scrub_row-same cutoff r e = rw (scrub_row, e) refl

scrubbable :
    (cutoff : ℕ) (r : Row)
    → is_old cutoff r ≡ true
    → is_filled (get "redacted_payload" r.cells) ≡ true
    → is_scrubbable cutoff r ≡ true
unfolding is_scrubbable
scrubbable cutoff r old filled = rw (old, filled) refl

scrub_row-IsScrubbed : (cutoff : ℕ) (r : Row) → IsScrubbed cutoff (scrub_row cutoff r)
unfolding IsScrubbed
scrub_row-IsScrubbed cutoff r old filled = elim (Bool-cases (is_scrubbable cutoff r)) [
  | inl e ↦ (
    get-scrub_row cutoff r e "raw_payload",
    get-scrub_row cutoff r e "payload" ∙ sym (get-scrub_row cutoff r e "redacted_payload"),
  )
  | inr e ↦
      let same = scrub_row-same cutoff r e in
      absurd (false≢true (sym e ∙ scrubbable cutoff r (rw same at old) (rw same at filled)))
]

-- Scrubbing keeps a row's id, its status and its age.
scrub_row-rest :
    (cutoff : ℕ) (r : Row)
    → ((scrub_row cutoff r).id ≡ r.id)
      × ((later : ℕ) → is_old later (scrub_row cutoff r) ≡ is_old later r)
unfolding is_old scrub_row
scrub_row-rest cutoff r = elim (Bool-cases (is_scrubbable cutoff r)) [
  | inl e ↦ (
    rw (scrub_row, e) refl,
    λ later. ap (is_before later) (get-scrub_row cutoff r e "created_at"),
  )
  | inr e ↦ rw (scrub_row-same cutoff r e) (refl, λ later. refl)
]

not-true : (b : Bool) → not b ≡ true → b ≡ false
not-true true h = cc
not-true false h = refl

ne-test : (n : ℕ) → n ≢ 0 → (n == 0) ≡ false
ne-test n h = ground arith

All-image :
    {A B : Type 0} (P : B → Type 0) (f : A → B) (xs : List A)
    → All (λ x. P (f x)) xs
    → All P (map f xs)
All-image P f [] h = tt
All-image P f (x ∷ xs) (p, h) = (p, All-image P f xs h)

Distinct-if :
    (b : Bool) (r : Row) (rs : List Row)
    → All (λ s. s.id ≢ r.id) rs
    → Distinct rs
    → Distinct (if b then r ∷ rs else rs)
Distinct-if true r rs apart d = (apart, d)
Distinct-if false r rs apart d = d

Distinct-keep : (test : Row → Bool) (rows : List Row) → Distinct rows → Distinct (keep test rows)
Distinct-keep test [] d = tt
Distinct-keep test (r ∷ rs) (apart, d) =
    Distinct-if (test r) r (keep test rs) (All-keep (λ s. s.id ≢ r.id) test rs apart)
      (Distinct-keep test rs d)

Distinct-map :
    (f : Row → Row) (same : (r : Row) → (f r).id ≡ r.id) (rows : List Row)
    → Distinct rows
    → Distinct (map f rows)
Distinct-map f same [] d = tt
Distinct-map f same (r ∷ rs) (apart, d) = (
  All-image (λ s. s.id ≢ (f r).id) f rs (All-map rs (λ s h. rw (same s, same r) h) apart),
  Distinct-map f same rs d,
)

purge-WellFormed : (cutoff : ℕ) (t : Table) → WellFormed t → WellFormed (purge cutoff t).0
unfolding purge
purge-WellFormed cutoff t w = record {
  distinct = Distinct-keep (λ r. not (is_old cutoff r)) t.rows w.distinct;
  below = All-keep (λ r. r.id < t.next_id) (λ r. not (is_old cutoff r)) t.rows w.below;
}

scrub_raw-WellFormed : (cutoff : ℕ) (t : Table) → WellFormed t → WellFormed (scrub_raw cutoff t).0
unfolding scrub_raw
scrub_raw-WellFormed cutoff t w = record {
  distinct = Distinct-map (scrub_row cutoff) (λ r. (scrub_row-rest cutoff r).0) t.rows w.distinct;
  below =
      All-image (λ r. r.id < t.next_id) (scrub_row cutoff) t.rows
        (All-map t.rows (λ r h. rw ((scrub_row-rest cutoff r).0) h) w.below);
}

-- What retention promises of a row, with both actions on.
IsRetained : ℕ → ℕ → Row → Type 0
IsRetained purge_cutoff scrub_cutoff r = (is_old purge_cutoff r ≡ false) × IsScrubbed scrub_cutoff r

retained :
    (purge_cutoff scrub_cutoff : ℕ) (t : Table)
    → All
        (IsRetained purge_cutoff scrub_cutoff)
        (scrub_raw scrub_cutoff (purge purge_cutoff t).0).0.rows
unfolding scrub_raw purge IsRetained
retained purge_cutoff scrub_cutoff t =
    All-image _ (scrub_row scrub_cutoff) (keep (λ r. not (is_old purge_cutoff r)) t.rows) (
      All-map _
        (λ r young. (
          (scrub_row-rest scrub_cutoff r).1 purge_cutoff ∙ not-true (is_old purge_cutoff r) young,
          scrub_row-IsScrubbed scrub_cutoff r,
        ))
        (All-keep_test (λ r. not (is_old purge_cutoff r)) t.rows))

-- With both actions on, no row that is left is older than the days for purging, and every one that is
-- older than the days for scrubbing, and has a redacted text, has an empty raw payload and the redacted
-- text as its payload. Row ids stay distinct and below the counter.
pub retain_lem :
    (purged_at scrubbed_at purge_days scrub_days : ℕ) (t : Table)
    → purge_days ≢ 0
    → scrub_days ≢ 0
    → WellFormed t
    → WellFormed (retain purged_at scrubbed_at purge_days scrub_days t)
      × All
          (λ r.
            (is_old (days_ago purged_at purge_days) r ≡ false)
            × (is_old (days_ago scrubbed_at scrub_days) r ≡ true
                → is_filled (get "redacted_payload" r.cells) ≡ true
                → (get "raw_payload" r.cells ≡ text "")
                  × (get "payload" r.cells ≡ get "redacted_payload" r.cells)))
          (retain purged_at scrubbed_at purge_days scrub_days t).rows
unfolding retain IsRetained IsScrubbed
retain_lem purged_at scrubbed_at purge_days scrub_days t p q w =
    let before = days_ago purged_at purge_days in
    let after = days_ago scrubbed_at scrub_days in
    rw (retain, ne-test purge_days p, ne-test scrub_days q)
      (
        scrub_raw-WellFormed after (purge before t).0 (purge-WellFormed before t w),
        retained before after t,
      )

map-last : {A B : Type 0} (f : A → B) (xs : List A) (x : A) → Memᴰ (f x) (map f (xs ++ (x ∷ [])))
map-last f [] x = Memᴰ.head refl
map-last f (y ∷ xs) x = Memᴰ.tail (map-last f xs x)

module _ (sha256 : String → String) (iso : ℕ → String) where
  new_row-unscrubbed :
      (cutoff id : ℕ) (uuid : String) (p : Payload) (now : ℕ)
      → is_scrubbable cutoff (new_row sha256 iso id uuid p now) ≡ false
  unfolding is_scrubbable new_row is_filled get
  new_row-unscrubbed cutoff id uuid p now =
      elim (Bool-cases (is_old cutoff (new_row sha256 iso id uuid p now))) [
        | inl e ↦ rw e refl
        | inr e ↦ rw e refl
      ]

  -- A message that has been inserted and not yet triaged keeps its raw payload through scrubbing, however
  -- old it is, since the triage alone writes a redacted text.
  pub scrub_raw-untriaged :
      (uuid : String) (now cutoff : ℕ) (p : Payload) (t t' : Table) (id : ℕ)
      → insert_message sha256 iso uuid now p t ≡ ok (t', id, true)
      → (r : Row) × Memᴰ r (scrub_raw cutoff t').0.rows
        × (r.id ≡ id)
        × (get "raw_payload" r.cells ≡ text (part "raw_payload" p))
  unfolding scrub_raw new_row get
  scrub_raw-untriaged uuid now cutoff p t t' id h =
      let (rows, _, same) = insert_message-created sha256 iso uuid now p t t' id h in
      let r = new_row sha256 iso t.next_id uuid p now in
      (
        r,
        subst (λ u. Memᴰ u (scrub_raw cutoff t').0.rows)
            (scrub_row-same cutoff r (new_row-unscrubbed cutoff t.next_id uuid p now))
            (rw rows (map-last (scrub_row cutoff) t.rows r)),
        sym same,
        refl,
      )
