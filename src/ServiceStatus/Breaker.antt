-- ===== src/ServiceStatus/Breaker.antt =====
-- The table `service_breakers` of app/queue_db.py. Its rows are keyed by service and scope; time
-- stamps are in seconds.
use support_triage_llm.Base.{
  ℕ, ◌+◌, String, Bool, ◌&&◌, Option, none, some, List, [], ◌∷◌, leb, str_eq, first, if◌then◌else◌,
}

pub record Breaker : Type 0 where
  pub service_id : String
  pub scope : String
  pub consecutive_failures : ℕ
  pub opened_at : Option ℕ
  pub cooldown_until : Option ℕ
  pub last_error_kind : Option String
  pub updated_at : ℕ

unfoldable pub is_breaker_of : String → String → Breaker → Bool
is_breaker_of service_id scope b = str_eq b.service_id service_id && str_eq b.scope scope

unfoldable pub get_service_breaker : String → String → List Breaker → Option Breaker
get_service_breaker service_id scope breakers = first (is_breaker_of service_id scope) breakers

-- INSERT, or UPDATE of the row with the same key
unfoldable pub write_breaker : Breaker → List Breaker → List Breaker
unfolding is_breaker_of
write_breaker b [] = b ∷ []
write_breaker b (c ∷ cs) =
    let rest = write_breaker b cs in
    if is_breaker_of b.service_id b.scope c then b ∷ cs else c ∷ rest

-- int(row["consecutive_failures"]) + 1 if row else 1
unfoldable pub failures_after : Option Breaker → ℕ
failures_after none = 1
failures_after (some b) = b.consecutive_failures + 1

unfoldable pub opened_before : Option Breaker → Option ℕ
opened_before none = none
opened_before (some b) = b.opened_at

unfoldable pub cooldown_before : Option Breaker → Option ℕ
cooldown_before none = none
cooldown_before (some b) = b.cooldown_until

-- the row that a failure leaves
unfoldable pub failed_breaker : String → String → ℕ → ℕ → ℕ → String → Option Breaker → Breaker
unfolding failures_after opened_before cooldown_before
failed_breaker service_id scope now threshold cooldown_seconds error_kind row =
    let failures = failures_after row in
    record {
      service_id = service_id;
      scope = scope;
      consecutive_failures = failures;
      opened_at = if leb threshold failures then some now else opened_before row;
      cooldown_until =
          if leb threshold failures then some (now + cooldown_seconds) else cooldown_before row;
      last_error_kind = some error_kind;
      updated_at = now;
    }

unfoldable pub bump_service_breaker_failure :
    String → String → ℕ → ℕ → ℕ → String → List Breaker → List Breaker
unfolding get_service_breaker failed_breaker write_breaker
bump_service_breaker_failure service_id scope now threshold cooldown_seconds error_kind breakers =
    write_breaker
      (failed_breaker service_id scope now threshold cooldown_seconds error_kind
        (get_service_breaker service_id scope breakers))
      breakers

-- the row that a reset leaves
unfoldable pub closed_breaker : String → String → ℕ → Breaker
closed_breaker service_id scope now = record {
  service_id = service_id;
  scope = scope;
  consecutive_failures = 0;
  opened_at = none;
  cooldown_until = none;
  last_error_kind = none;
  updated_at = now;
}

unfoldable pub reset_service_breaker : String → String → ℕ → List Breaker → List Breaker
unfolding write_breaker closed_breaker
reset_service_breaker service_id scope now breakers =
    write_breaker (closed_breaker service_id scope now) breakers
