-- ===== src/Retention/CleanupLaws.antt =====
-- What a cleanup deletes.
use support_triage_llm.Base.{
  ℕ, ◌/◌, ◌%◌, ◌<◌, String, ◌≡◌, refl, ◌∙◌, ap, Bool, true, false, not, List, [], ◌∷◌, any, keep,
  if◌then◌else◌, ◌⊎◌, inl, inr, arith, eq_iff, Bool-cases, Result, ok, err,
}
use mathlib.Core.List.{Memᴰ}
use support_triage_llm.Queue.Schema.{member}
use support_triage_llm.Evidence.Runs.{EvidenceRun}
use support_triage_llm.Intake.Intakes.{Intake}
use support_triage_llm.Intake.Handoffs.{HandoffPack}
use support_triage_llm.Retention.Cleanup.{
  Args, Expiring, is_released, run_is_due, delete_due, finish_cleanup, clean_packs, run_cleanup,
  reads_before, PackQuery, SqlError,
}

-- A row that is not kept is due.
keep-not {ℓ} :
    {A : Type ℓ} (due : A → Bool) (rows : List A) (r : A)
    → Memᴰ r rows
    → Memᴰ r (keep (λ s. not (due s)) rows) ⊎ (due r ≡ true)
keep-not due [] r m = elim m [ ]
keep-not due (s ∷ rows) r (Memᴰ.head p) = elim (Bool-cases (due s)) [
  | inl e ↦ inr (ap due p ∙ e)
  | inr e ↦ inl (rw e (Memᴰ.head p))
]
keep-not due (s ∷ rows) r (Memᴰ.tail m) = elim (keep-not due rows r m) [
  | inr e ↦ inr e
  | inl k ↦ inl (tail_if (not (due s)) k)
]
  where
    tail_if :
        (b : Bool)
        → Memᴰ r (keep (λ u. not (due u)) rows)
        → Memᴰ r (if b then s ∷ keep (λ u. not (due u)) rows else keep (λ u. not (due u)) rows)
    tail_if true h = Memᴰ.tail h
    tail_if false h = h

any-Memᴰ :
    (test : Intake → Bool) (is : List Intake)
    → any test is ≡ true
    → (i : Intake) × Memᴰ i is × (test i ≡ true)
any-Memᴰ test [] h = absurd (cc h)
any-Memᴰ test (i ∷ is) h = elim (Bool-cases (test i)) [
  | inl e ↦ (i, Memᴰ.head refl, e)
  | inr e ↦ let (j, m, k) = any-Memᴰ test is (rw e at h) in (j, Memᴰ.tail m, k)
]

-- Whatever follows, the runs are those that are not due.
clean_packs-runs :
    (r : Result SqlError (HandoffPack → Bool)) (grace_days : ℕ) (a : Args) (now n : ℕ)
    (k : Expiring)
    → (clean_packs r grace_days a now n k).0.runs ≡ k.runs
unfolding clean_packs finish_cleanup
clean_packs-runs (ok due) grace_days a now n k = refl
clean_packs-runs (err e) grace_days a now n k = refl

run_cleanup-runs :
    (query : PackQuery) (grace_days : ℕ) (a : Args) (now : ℕ) (k : Expiring)
    → (run_cleanup query grace_days a now k).0.runs
      ≡ delete_due a.dry_run (run_is_due now a.force k.intakes) k.runs
unfolding run_cleanup
run_cleanup-runs query grace_days a now k =
    clean_packs-runs (query now a.force k.intakes k.packs) grace_days a now _ _

-- A time whose text comes first is earlier, or is of the whole second that `b` is.
reads_before-cases :
    (a b : ℕ)
    → reads_before a b ≡ true
    → (a < b) ⊎ ((b % 1000000 ≡ 0) × (a / 1000000 ≡ b / 1000000))
unfolding reads_before
reads_before-cases a b h = ground arith

is_released-cases :
    (force : Bool) (id : String) (i : Intake)
    → is_released force id i ≡ true
    → (i.intake_id ≡ id) × ((i.status ≡ "resolved") ⊎ ((i.status ≡ "dead_letter") ⊎ (force ≡ true)))
unfolding is_released member
is_released-cases force id i h = (
  ground (arith, eq_iff i.intake_id id),
  ground (arith, eq_iff "resolved" i.status, eq_iff "dead_letter" i.status),
)

deleted-cases :
    (dry_run : Bool) (now : ℕ) (force : Bool) (intakes : List Intake) (runs : List EvidenceRun)
    (r : EvidenceRun)
    → Memᴰ r runs
    → Memᴰ r (delete_due dry_run (run_is_due now force intakes) runs)
      ⊎ ((i : Intake) × Memᴰ i intakes
          × (dry_run ≡ false)
          × ((r.expires_at < now)
              ⊎ ((now % 1000000 ≡ 0) × (r.expires_at / 1000000 ≡ now / 1000000)))
          × (i.intake_id ≡ r.intake_id)
          × ((i.status ≡ "resolved") ⊎ ((i.status ≡ "dead_letter") ⊎ (force ≡ true))))
unfolding delete_due run_is_due
deleted-cases true now force intakes runs r m = inl m
deleted-cases false now force intakes runs r m =
    elim (keep-not (run_is_due now force intakes) runs r m) [
      | inl kept ↦ inl kept
      | inr due ↦
          let (i, at, released) = any-Memᴰ (is_released force r.intake_id) intakes (ground arith) in
          let (same, status) = is_released-cases force r.intake_id i released in
          inr (i, at, refl, reads_before-cases r.expires_at now (ground arith), same, status)
    ]

-- An evidence run that a cleanup deletes had expired, or expires within the second of the clock, where
-- that is a whole one; and its intake is in the table and resolved or a dead letter, unless the cleanup
-- was forced. A dry run deletes none.
pub run_cleanup-deletes :
    (query : PackQuery) (grace_days : ℕ) (a : Args) (now : ℕ) (k : Expiring) (r : EvidenceRun)
    → Memᴰ r k.runs
    → let k' = (run_cleanup query grace_days a now k).0 in
      Memᴰ r k'.runs
      ⊎ ((i : Intake) × Memᴰ i k.intakes
          × (a.dry_run ≡ false)
          × ((r.expires_at < now)
              ⊎ ((now % 1000000 ≡ 0) × (r.expires_at / 1000000 ≡ now / 1000000)))
          × (i.intake_id ≡ r.intake_id)
          × ((i.status ≡ "resolved") ⊎ ((i.status ≡ "dead_letter") ⊎ (a.force ≡ true))))
run_cleanup-deletes query grace_days a now k r m =
    rw (run_cleanup-runs query grace_days a now k)
      (deleted-cases a.dry_run now a.force k.intakes k.runs r m)
