-- ===== src/Worker/DrainExamples.antt =====
-- The loop of the worker on a table with one message.
use support_triage_llm.Base.{◌⊎◌, err, [], ◌∷◌, ℕ, ◌+◌, ◌≤◌, ◌≡◌, refl, false, some, ok, arith, All}
use support_triage_llm.Queue.Rows.{oldest, older, Table, is_ready}
use support_triage_llm.Queue.WellFormed.{WellFormed}
use support_triage_llm.Worker.Retry.{retry_count_of}
use support_triage_llm.Worker.World.{Tables}
use support_triage_llm.Worker.Work.{work, tries}
use support_triage_llm.Worker.Process.{WorkerError, not_a_number, no_creation_time}
use support_triage_llm.Values.{text, put}
use support_triage_llm.Queue.Ops.{claim_row, claim_found, claim_with}
use support_triage_llm.Worker.Drain.{Round, main_loop}
use support_triage_llm.Worker.DrainLaws.{main_loop_lem}
use support_triage_llm.Worker.ExampleWorld.{world, draws, table, empty, describe, config, fin}

abbrev round : ℕ → Round
round n = record { world = world; draws = draws; seen = 9 + n; now = 10 + n; fin = fin }

table-WellFormed : WellFormed table
table-WellFormed = record { distinct = (tt, tt); below = (omega arith, tt) }

-- a message that was never tried has four tries
work_test : work 3 table.rows ≡ 4
unfolding work tries retry_count_of
work_test = refl

main_loop_lem_example :
    ((s' : Tables) × (t' : Table) × (k : ℕ) × (main_loop describe config "w1" round 5 0 empty table
        ≡ ok (some (s', t', k)))
      × (k ≤ 0 + work 3 table.rows)
      × All (λ r. is_ready (round k).seen r ≡ false) t'.rows)
    ⊎ ((e : WorkerError) × (main_loop describe config "w1" round 5 0 empty table ≡ err e)
        × ((e ≡ not_a_number) ⊎ (e ≡ no_creation_time)))
main_loop_lem_example =
    main_loop_lem describe config "w1" round 5 0 empty table table-WellFormed
      (omega (arith, work_test))

-- a message without a creation time and without a key, as an update may leave it
abbrev timeless : Table
timeless = record {
  rows = record { id = 1; status = "queued"; cells = ("payload", text "Hi") ∷ [] } ∷ [];
  next_id = 2;
}

-- It ends the worker.
timeless_test : main_loop describe config "w1" round 5 0 empty timeless ≡ err no_creation_time
unfolding main_loop is_ready claim_row claim_found oldest older claim_with put
timeless_test = refl
