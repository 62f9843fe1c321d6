-- ===== src/ServiceStatus/BreakerLaws.antt =====
-- What a run of failures does to a breaker.
use support_triage_llm.Base.{
  ℕ, suc, ◌+◌, String, ◌≡◌, refl, Option, none, some, List, [], ◌∷◌, leb, eq_refl, if◌then◌else◌,
  arith, length,
}
use support_triage_llm.ServiceStatus.Breaker.{
  Breaker, is_breaker_of, get_service_breaker, write_breaker, failed_breaker, closed_breaker,
  failures_after, cooldown_before, bump_service_breaker_failure, reset_service_breaker,
}

-- The row written is the row read.
pub get_service_breaker-write :
    (b : Breaker) (breakers : List Breaker)
    → get_service_breaker b.service_id b.scope (write_breaker b breakers) ≡ some b
unfolding get_service_breaker write_breaker is_breaker_of
get_service_breaker-write b [] = rw (eq_refl b.service_id, eq_refl b.scope) refl
get_service_breaker-write b (c ∷ cs) =
    ground (arith, eq_refl b.service_id, eq_refl b.scope, get_service_breaker-write b cs)

pub get_service_breaker-reset :
    (service_id scope : String) (now : ℕ) (breakers : List Breaker)
    → get_service_breaker service_id scope (reset_service_breaker service_id scope now breakers)
      ≡ some (closed_breaker service_id scope now)
unfolding reset_service_breaker
get_service_breaker-reset service_id scope now breakers =
    get_service_breaker-write (closed_breaker service_id scope now) breakers

module _ (service_id scope : String) (threshold cooldown_seconds : ℕ)
    (error_kind : ℕ → String) where
  -- the breakers after failures at these times, the newest first
  unfoldable pub bump_all : List ℕ → List Breaker → List Breaker
  bump_all [] breakers = breakers
  bump_all (t ∷ ts) breakers =
      bump_service_breaker_failure service_id scope t threshold cooldown_seconds (error_kind t)
        (bump_all ts breakers)

  get_service_breaker-bump :
      (t : ℕ) (breakers : List Breaker)
      → get_service_breaker service_id scope (
          bump_service_breaker_failure service_id scope t threshold cooldown_seconds
            (error_kind t)
            breakers)
        ≡ some (
            failed_breaker service_id scope t threshold cooldown_seconds
              (error_kind t)
              (get_service_breaker service_id scope breakers))
  unfolding bump_service_breaker_failure
  get_service_breaker-bump t breakers =
      get_service_breaker-write
        (failed_breaker service_id scope t threshold cooldown_seconds (error_kind t)
          (get_service_breaker service_id scope breakers))
        breakers

  Counts : ℕ → ℕ → Breaker → Type 0
  Counts n t b =
      (b.consecutive_failures ≡ n)
      × (b.cooldown_until ≡ (if leb threshold n then some (t + cooldown_seconds) else none))

  failed_breaker-first :
      (t : ℕ) (row : Option Breaker)
      → failures_after row ≡ 1
      → cooldown_before row ≡ none
      → Counts 1 t (failed_breaker service_id scope t threshold cooldown_seconds (error_kind t) row)
  unfolding Counts failed_breaker
  failed_breaker-first t row e f = (e, rw (e, f) refl)

  failed_breaker-next :
      (n t u : ℕ) (b : Breaker)
      → Counts n u b
      → Counts
          (suc n)
          t
          (failed_breaker service_id scope t threshold cooldown_seconds (error_kind t) (some b))
  unfolding Counts failed_breaker failures_after cooldown_before
  failed_breaker-next n t u b (e, f) = (omega (arith, e), rw (e, f) (ground arith))

  bump_all-Counts :
      (t : ℕ) (ts : List ℕ) (breakers : List Breaker)
      → failures_after (get_service_breaker service_id scope breakers) ≡ 1
      → cooldown_before (get_service_breaker service_id scope breakers) ≡ none
      → (b : Breaker) × (get_service_breaker service_id scope (bump_all (t ∷ ts) breakers) ≡ some b)
        × Counts (length (t ∷ ts)) t b
  unfolding bump_all
  bump_all-Counts t [] breakers e f =
      (_, get_service_breaker-bump t breakers, failed_breaker-first t _ e f)
  bump_all-Counts t (u ∷ ts) breakers e f =
      let (b, found, counts) = bump_all-Counts u ts breakers e f in
      (
        _,
        rw found at (get_service_breaker-bump t (bump_all (u ∷ ts) breakers)),
        failed_breaker-next _ t u b counts,
      )

  -- After failures at the times `t ∷ ts`, the newest first, counted from a breaker that is absent
  -- or reset, the breaker has counted each of them. It cools down until `cooldown_seconds` after
  -- the newest, or not at all while there are fewer failures than the threshold.
  pub bump_all-get :
      (t : ℕ) (ts : List ℕ) (breakers : List Breaker)
      → failures_after (get_service_breaker service_id scope breakers) ≡ 1
      → cooldown_before (get_service_breaker service_id scope breakers) ≡ none
      → (b : Breaker) × (get_service_breaker service_id scope (bump_all (t ∷ ts) breakers) ≡ some b)
        × (b.consecutive_failures ≡ length (t ∷ ts))
        × (b.cooldown_until
            ≡ (if leb threshold (length (t ∷ ts)) then some (t + cooldown_seconds) else none))
  unfolding Counts
  bump_all-get t ts breakers e f =
      let (b, found, counts) = bump_all-Counts t ts breakers e f in (b, found, counts.0, counts.1)
