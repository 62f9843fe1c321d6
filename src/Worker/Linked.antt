-- ===== src/Worker/Linked.antt =====
-- The tables that `process_once` of tools/triage_worker.py writes refer to each other as they should.
use support_triage_llm.Base.{
  ℕ, String, ◌≡◌, refl, sym, subst, Option, none, some, List, [], ◌∷◌, ◌++◌, All, All-map,
  All-append, Result, ok, err,
}
use mathlib.Core.List.{Memᴰ}
use support_triage_llm.Queue.Rows.{Row, Table}
use support_triage_llm.Queue.Ops.{QueueError, claim_row}
use support_triage_llm.Intake.Intakes.{
  Intake, get_intake, set_tenant, update_intake_tenant, insert_intake,
}
use support_triage_llm.Intake.Intakes as Intakes
use support_triage_llm.Intake.Handoffs.{create_handoff_pack}
use support_triage_llm.Triage.Extract.{TriageError}
use support_triage_llm.Triage.Finish as Finished
use support_triage_llm.Report.Generate.{FinalReport}
use support_triage_llm.Worker.Retry.{RetryConfig, Finish, int_or_zero}
use support_triage_llm.Values.{get}
use support_triage_llm.Worker.World.{World, Draws, Tables}
use support_triage_llm.Worker.Attempt.{result_of}
use support_triage_llm.Worker.Case.{
  Findings, case_setting, frame_of, customer_of, new_intake, identify, take_in, triage_row,
  gather_for, findings_of, report_of,
}
use support_triage_llm.Worker.Conclude.{pack, after_report, investigate, after_attempt, attempt_row}
use support_triage_llm.Worker.Process.{
  WorkerError, start_row, settle_row, after_key, run_claimed, process_once,
}
use support_triage_llm.Worker.AttemptLaws.{filed, change_intake-last}
use support_triage_llm.Worker.LinkLaws.{gather-All}

abbrev pub HasIntake : String → List Intake → Type 0
HasIntake id intakes = (i : Intake) × Memᴰ i intakes × (i.intake_id ≡ id)

-- Every evidence run and every handoff pack is that of an intake in the table.
abbrev pub IsLinked : Tables → Type 0
IsLinked s =
    All (λ r. HasIntake r.intake_id s.intakes) s.runs
    × All (λ p. HasIntake p.intake_id s.intakes) s.packs

Memᴰ-grow {ℓ} : {A : Type ℓ} (x : A) (xs ys : List A) → Memᴰ x xs → Memᴰ x (xs ++ ys)
Memᴰ-grow x [] ys m = elim m [ ]
Memᴰ-grow x (y ∷ xs) ys (Memᴰ.head p) = Memᴰ.head p
Memᴰ-grow x (y ∷ xs) ys (Memᴰ.tail m) = Memᴰ.tail (Memᴰ-grow x xs ys m)

Memᴰ-last {ℓ} : {A : Type ℓ} (x : A) (xs : List A) → Memᴰ x (xs ++ (x ∷ []))
Memᴰ-last x [] = Memᴰ.head refl
Memᴰ-last x (y ∷ xs) = Memᴰ.tail (Memᴰ-last x xs)

HasIntake-grow :
    (id : String) (i : Intake) (is : List Intake) → HasIntake id is → HasIntake id (is ++ (i ∷ []))
HasIntake-grow id i is (j, m, e) = (j, Memᴰ-grow j is (i ∷ []) m, e)

module _ (w : World) (d : Draws) (row : Row) where
  after_report-IsLinked :
      (worker : String) (o : Finished.Outcome) (x : Findings) (s : Tables)
      (r : Result String FinalReport)
      → HasIntake d.intake_id s.intakes
      → IsLinked s
      → IsLinked (after_report w d row worker o x s r).0
  unfolding after_report pack create_handoff_pack
  after_report-IsLinked worker o x s (ok r) here (runs, packs) =
      (runs, All-append (λ p. HasIntake p.intake_id s.intakes) s.packs _ packs (here, tt))
  after_report-IsLinked worker o x s (err e) here linked = linked

  after_attempt-IsLinked :
      (worker : String) (s : Tables) (r : Result TriageError Finished.Outcome)
      → HasIntake d.intake_id s.intakes
      → IsLinked s
      → IsLinked (after_attempt w d row worker s r).0
  unfolding after_attempt investigate gather_for
  after_attempt-IsLinked worker s (err e) here linked = linked
  after_attempt-IsLinked worker s (ok o) here (runs, packs) =
      after_report-IsLinked worker o (findings_of w d row o (gather_for w d row o s))
        (record s { runs = (gather_for w d row o s).runs })
        (report_of w d row o (findings_of w d row o (gather_for w d row o s))) here
        (
          gather-All (λ r. HasIntake r.intake_id s.intakes) w.dumps w.sha256 w.evidence_ttl_days
              w.loads_params w.describe w.run_tool d.run_id d.run_clock
              (case_setting w d row (frame_of w d row o) (customer_of w d row o))
              (λ e same.
                subst (λ id. HasIntake id s.intakes) (sym same) (unfold case_setting in here))
              w.registry (result_of o.payload) s.runs runs,
          packs,
        )

  -- the intakes with the new one
  take_in-intakes :
      (s : Tables)
      → get_intake d.intake_id s.intakes ≡ none
      → (take_in w d row s).intakes ≡ s.intakes ++ (filed w d row ∷ [])
  unfolding take_in update_intake_tenant insert_intake
  take_in-intakes s h =
      change_intake-last d.intake_id
        (set_tenant d.now (identify w d row).resolved.tenant_id
          (identify w d row).resolved.confidence)
        (Intakes.new_intake d.intake_id d.now (new_intake w d row)) s.intakes
        (unfold Intakes.new_intake in refl) h

  attempt_row-IsLinked :
      (worker : String) (s : Tables)
      → get_intake d.intake_id s.intakes ≡ none
      → IsLinked s
      → IsLinked (attempt_row w d row worker s).0
  unfolding attempt_row
  attempt_row-IsLinked worker s h (runs, packs) =
      let same = take_in-intakes s h in
      after_attempt-IsLinked worker (take_in w d row s) (triage_row w d row)
        (rw same (
          filed w d row,
          Memᴰ-last (filed w d row) s.intakes,
          unfold set_tenant Intakes.new_intake in refl,
        ))
        (
          rw same (
              unfold take_in in
              All-map s.runs (λ r. HasIntake-grow r.intake_id (filed w d row) s.intakes) runs),
          rw same (
              unfold take_in in
              All-map s.packs (λ p. HasIntake-grow p.intake_id (filed w d row) s.intakes) packs),
        )

module _ (w : World) (describe : QueueError → String) (config : RetryConfig) (worker : String)
    (d : Draws) (fin : Finish) where
  after_key-IsLinked :
      (row : Row) (s : Tables) (r : Result WorkerError Table)
      → get_intake d.intake_id s.intakes ≡ none
      → IsLinked s
      → IsLinked (after_key w describe config worker d fin row s r).0
  unfolding after_key settle_row
  after_key-IsLinked row s (err e) h linked = linked
  after_key-IsLinked row s (ok t) h linked = attempt_row-IsLinked w d row worker s h linked

  run_claimed-IsLinked :
      (s : Tables) (c : Table × Option Row)
      → get_intake d.intake_id s.intakes ≡ none
      → IsLinked s
      → IsLinked (run_claimed w describe config worker d fin s c).0
  unfolding run_claimed
  run_claimed-IsLinked s (t, none) h linked = linked
  run_claimed-IsLinked s (t, some row) h linked =
      after_key-IsLinked row s
        (start_row w describe config worker (int_or_zero (get "retry_count" row.cells)) fin row t) h
        linked

  -- Where every evidence run and every handoff pack is that of an intake in the table, it is so after every
  -- call of the worker, also one whose triage, report or last update fails. The id of the intake that the
  -- call may file is new.
  pub process_once-IsLinked :
      (seen now : ℕ) (s : Tables) (t : Table)
      → get_intake d.intake_id s.intakes ≡ none
      → IsLinked s
      → IsLinked (process_once w describe config worker d seen now fin s t).0
  unfolding process_once
  process_once-IsLinked seen now s t h linked =
      run_claimed-IsLinked s (claim_row seen now worker t) h linked
