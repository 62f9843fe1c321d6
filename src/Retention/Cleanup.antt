-- ===== src/Retention/Cleanup.antt =====
-- app/cleanup.py: expired evidence runs and handoff packs are deleted, and intakes that were resolved
-- long ago are marked as deleted. The clock and the evidence runs are in microseconds, the times of the
-- intakes in seconds.
use support_triage_llm.Base.{
  ℕ, ◌-◌, ◌*◌, ◌/◌, ◌%◌, ◌==◌, String, Bool, true, false, ◌&&◌, ◌||◌, not, Option, none, some, List,
  [], ◌∷◌, ltb, str_eq, any, keep, map, length, if◌then◌else◌, Result, ok, err,
}
use support_triage_llm.Queue.Schema.{member}
use support_triage_llm.Evidence.Runs.{EvidenceRun}
use support_triage_llm.Intake.Intakes.{Intake}
use support_triage_llm.Intake.Handoffs.{HandoffPack}

pub record Args : Type 0 where
  pub dry_run : Bool
  pub force : Bool

-- the arguments of the command line: `--dry-run` is the default, `--apply` overrides it
unfoldable pub args_of : Bool → Bool → Args
args_of apply force = record { dry_run = not apply; force = force }

pub record Expiring : Type 0 where
  pub runs : List EvidenceRun
  pub packs : List HandoffPack
  pub intakes : List Intake

-- what it prints
pub record CleanupCounts : Type 0 where
  pub evidence_runs : ℕ
  pub handoff_packs : ℕ
  pub intakes : ℕ

-- what SQLite raises
pub data SqlError : Type 0 where
  no_such_column : SqlError

-- JOIN intakes … AND (i.status IN ('resolved','dead_letter') OR ? = 1)
unfoldable pub is_released : Bool → String → Intake → Bool
unfolding member
is_released force id i =
    str_eq i.intake_id id && (member i.status ("resolved" ∷ "dead_letter" ∷ []) || force)

-- a < b, of the texts that isoformat gives for two times: it leaves out the fraction of a whole second, and
-- "." comes before "Z"
unfoldable pub reads_before : ℕ → ℕ → Bool
reads_before a b =
    ltb (a / 1000000) (b / 1000000)
    || ((a / 1000000) == (b / 1000000)
        && (not (a % 1000000 == 0) && (ltb a b || (b % 1000000 == 0))))

unfoldable pub run_is_due : ℕ → Bool → List Intake → EvidenceRun → Bool
unfolding reads_before is_released
run_is_due now force intakes r =
    reads_before r.expires_at now && any (is_released force r.intake_id) intakes

unfoldable pub is_past : ℕ → Option ℕ → Bool
is_past now none = false
is_past now (some t) = ltb t now

-- a DELETE of the rows that are due, unless it is a dry run
unfoldable pub delete_due {ℓ} : {A : Type ℓ} → Bool → (A → Bool) → List A → List A
delete_due dry_run due rows = if dry_run then rows else keep (λ r. not (due r)) rows

unfoldable pub is_absent : Option ℕ → Bool
is_absent none = true
is_absent (some t) = false

-- resolved before the days of grace, and not yet deleted
unfoldable pub intake_is_due : ℕ → ℕ → Intake → Bool
unfolding is_past is_absent
intake_is_due grace_days now i =
    is_past (now - 86400 * grace_days) i.resolved_at && is_absent i.deleted_at

unfoldable pub soft_delete : ℕ → ℕ → Intake → Intake
unfolding intake_is_due
soft_delete grace_days now i =
    if intake_is_due grace_days now i then record i { deleted_at = some now } else i

-- the part after the handoff packs
unfoldable pub finish_cleanup :
    ℕ → Args → ℕ → ℕ → ℕ → Expiring → Expiring × Result SqlError CleanupCounts
unfolding soft_delete
finish_cleanup grace_days a now runs packs k = (
  record k {
    intakes = if a.dry_run then k.intakes else map (soft_delete grace_days now) k.intakes;
  },
  ok (record {
    evidence_runs = runs;
    handoff_packs = packs;
    intakes = length (keep (intake_is_due grace_days now) k.intakes);
  }),
)

-- SQLite on the query of the packs, whose `rowid` is that of no one table: the packs that it names, or
-- its error
abbrev pub PackQuery : Type 0
PackQuery = ℕ → Bool → List Intake → List HandoffPack → Result SqlError (HandoffPack → Bool)

-- An error of the query ends the cleanup; the evidence runs are committed by then.
unfoldable pub clean_packs :
    Result SqlError (HandoffPack → Bool)
    → ℕ
    → Args
    → ℕ
    → ℕ
    → Expiring
    → Expiring × Result SqlError CleanupCounts
unfolding finish_cleanup delete_due
clean_packs (err e) grace_days a now runs k = (k, err e)
clean_packs (ok due) grace_days a now runs k =
    finish_cleanup grace_days a (now / 1000000) runs (length (keep due k.packs))
      (record k { packs = delete_due a.dry_run due k.packs })

unfoldable pub run_cleanup :
    PackQuery → ℕ → Args → ℕ → Expiring → Expiring × Result SqlError CleanupCounts
unfolding clean_packs delete_due run_is_due
run_cleanup query grace_days a now k =
    clean_packs (query now a.force k.intakes k.packs) grace_days a now
      (length (keep (run_is_due now a.force k.intakes) k.runs))
      (record k { runs = delete_due a.dry_run (run_is_due now a.force k.intakes) k.runs })
