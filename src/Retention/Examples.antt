-- ===== src/Retention/Examples.antt =====
-- Retention of some rows.
use support_triage_llm.Base.{ℕ, String, ◌≡◌, refl, ◌*◌, true, false, [], ◌∷◌, All, arith}
use support_triage_llm.Values.{text, time, get, put}
use support_triage_llm.Queue.Rows.{Row, Table}
use support_triage_llm.Queue.Ops.{Payload, new_row}
use support_triage_llm.Queue.WellFormed.{WellFormed}
use support_triage_llm.Retention.Scrub.{is_old, is_filled, days_ago, retain}
use support_triage_llm.Retention.Laws.{retain_lem}

abbrev day : ℕ
day = 86400000000

abbrev row : ℕ → ℕ → String → Row
row id age redacted = record {
  id = id;
  status = "triaged";
  cells =
      ("created_at", time age)
      ∷ ("raw_payload", text "call 555 0100")
      ∷ ("payload", text "call 555 0100")
      ∷ ("redacted_payload", text redacted)
      ∷ [];
}

abbrev rows : Table
rows = record {
  rows =
      row 1 0 "call [REDACTED_PHONE]"
      ∷ row 2 (50 * day) "call [REDACTED_PHONE]"
      ∷ row 3 (95 * day) ""
      ∷ [];
  next_id = 4;
}

rows-WellFormed : WellFormed rows
rows-WellFormed = record {
  distinct = ((omega arith, (omega arith, tt)), ((omega arith, tt), (tt, tt)));
  below = (omega arith, (omega arith, (omega arith, tt)));
}

retain_test : retain (100 * day) (100 * day) 90 30 rows ≡ record {
  rows =
      record {
        id = 2;
        status = "triaged";
        cells =
            ("created_at", time (50 * day))
            ∷ ("raw_payload", text "")
            ∷ ("payload", text "call [REDACTED_PHONE]")
            ∷ ("redacted_payload", text "call [REDACTED_PHONE]")
            ∷ [];
      }
      ∷ row 3 (95 * day) ""
      ∷ [];
  next_id = 4;
}
unfolding retain get put
retain_test = refl

retain_lem_example :
    WellFormed (retain (100 * day) (100 * day) 90 30 rows)
    × All
        (λ r.
          (is_old (days_ago (100 * day) 90) r ≡ false)
          × (is_old (days_ago (100 * day) 30) r ≡ true
              → is_filled (get "redacted_payload" r.cells) ≡ true
              → (get "raw_payload" r.cells ≡ text "")
                × (get "payload" r.cells ≡ get "redacted_payload" r.cells)))
        (retain (100 * day) (100 * day) 90 30 rows).rows
retain_lem_example =
    retain_lem (100 * day) (100 * day) 90 30 rows (omega arith) (omega arith) rows-WellFormed

abbrev digest : String → String
digest s = s

abbrev iso_day : ℕ → String
iso_day n = "2026-01-05T00:00:00Z"

abbrev message : Payload
message = ("text", "help") ∷ ("message_id", "m-1") ∷ ("raw_payload", "call 555 0100") ∷ []

abbrev no_rows : Table
no_rows = record { rows = []; next_id = 1 }

abbrev inserted : Table
inserted = record { rows = new_row digest iso_day 1 "u-1" message 10 ∷ []; next_id = 2 }
