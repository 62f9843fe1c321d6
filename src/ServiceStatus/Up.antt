-- ===== src/ServiceStatus/Up.antt =====
-- What an answer `up` rests on.
use support_triage_llm.Base.{
  ℕ, ◌≤◌, String, ◌≡◌, refl, Bool, true, false, ◌&&◌, not, Option, none, some, List, str_eq, arith,
}
use support_triage_llm.ServiceStatus.Breaker.{
  Breaker, get_service_breaker, closed_breaker, failures_after, cooldown_before,
}
use support_triage_llm.ServiceStatus.BreakerLaws.{get_service_breaker-reset}
use support_triage_llm.ServiceStatus.Cache.{
  State, up, down, unknown, Expected, Service, Params, Store, Response, Network, Clock, cache_get,
  fresh,
}
use support_triage_llm.ServiceStatus.Check.{
  is_open, classify, answer, settle, contact, code_of, snippet_of, conclude, probe, refuse, pursue,
  is_blocked, resolved, resolution, has_host, dns_notes, run_check,
}

-- what an HTTP status and a body must be for a service to count as up
pub AsExpected : Option Expected → Option ℕ → Type 0
AsExpected expected code =
    (e : Expected) × (c : ℕ) × (expected ≡ some e)
    × (code ≡ some c)
    × (e.status_min ≤ c)
    × (c ≤ e.status_max)

classify-up :
    (expected : Option Expected) (code : Option ℕ) (body : String)
    → (classify expected code body).0 ≡ up
    → AsExpected expected code
unfolding classify AsExpected
classify-up expected none body h = absurd (cc h)
classify-up none (some c) body h = absurd (ground (arith, h))
classify-up (some e) (some c) body h = (e, c, refl, refl, ground arith, ground arith)

module _ (clock : Clock) (p : Params) (s : Service) where
  -- the breaker has counted no failure, and does not cool down
  pub Closed : List Breaker → Type 0
  Closed breakers =
      (failures_after (get_service_breaker p.service_id s.scope breakers) ≡ 1)
      × (cooldown_before (get_service_breaker p.service_id s.scope breakers) ≡ none)

  settle-up :
      (status : State) (notes : List String) (breakers : List Breaker)
      → status ≡ up
      → Closed (settle clock p s status notes breakers)
  unfolding Closed settle failures_after cooldown_before closed_breaker
  settle-up up notes breakers h =
      rw (get_service_breaker-reset p.service_id s.scope clock.reset_at breakers)
        (omega arith, refl)
  settle-up down notes breakers h = absurd (cc h)
  settle-up unknown notes breakers h = absurd (cc h)

  conclude-up :
      (dns_ok : Bool) (notes : List String) (response : Option Response) (store : Store)
      → (conclude clock p s dns_ok notes response store).0.status ≡ up
      → AsExpected s.expected (code_of response)
        × Closed (conclude clock p s dns_ok notes response store).1.breakers
  unfolding conclude answer
  conclude-up dns_ok notes response store h = (
    classify-up s.expected (code_of response) (snippet_of response) h,
    settle-up _ _ store.breakers h,
  )

  pursue-up :
      (net : Network) (store : Store)
      → (pursue net clock p s store).0.status ≡ up
      → AsExpected s.expected (code_of (contact net s (resolved net s && not (str_eq s.url ""))))
        × Closed (pursue net clock p s store).1.breakers
  unfolding pursue
  pursue-up net store h =
      conclude-up (resolved net s) (dns_notes (has_host net s) s.url (resolution net s))
        (contact net s (resolved net s && not (str_eq s.url ""))) store h

  probe-up :
      (net : Network) (store : Store) (blocked : Bool)
      → is_blocked net s ≡ blocked
      → (probe net clock p s store).0.status ≡ up
      → (blocked ≡ false)
        × AsExpected s.expected (code_of (contact net s (resolved net s && not (str_eq s.url ""))))
        × Closed (probe net clock p s store).1.breakers
  unfolding probe refuse answer pursue
  probe-up net store true e h = absurd (cc (rw (probe, e) at h))
  probe-up net store false e h =
      let (expected, closed) = pursue-up net store (rw (probe, e) at h) in
      rw (probe, e) (refl, expected, closed)

  -- A run that is answered `up` by a probe, not by the cache, had an HTTP attempt whose status lies in
  -- the range that the registry expects, the service was not refused for its address, and its breaker
  -- is closed afterwards: no failures, no cooldown.
  pub run_check_up :
      (net : Network) (store : Store)
      → fresh clock.now (cache_get p store.cache) ≡ none
      → (run_check net clock p s store).0.status ≡ up
      → (is_blocked net s ≡ false)
        × AsExpected s.expected (code_of (contact net s (resolved net s && not (str_eq s.url ""))))
        × Closed (run_check net clock p s store).1.breakers
  unfolding run_check answer
  run_check_up net store stale h =
      split (is_open clock.now_dt (get_service_breaker p.service_id s.scope store.breakers)) refl
    where
      split :
          (opened : Bool)
          → is_open clock.now_dt (get_service_breaker p.service_id s.scope store.breakers) ≡ opened
          → (is_blocked net s ≡ false)
            × AsExpected s.expected
                (code_of (contact net s (resolved net s && not (str_eq s.url ""))))
            × Closed (run_check net clock p s store).1.breakers
      split true e = absurd (cc (rw (run_check, stale, e) at h))
      split false e =
          rw (run_check, stale, e)
            (probe-up net store (is_blocked net s) refl (rw (run_check, stale, e) at h))
