-- ===== src/ServiceStatus/Answers.antt =====
-- What a run of the service status tool answers and keeps.
use support_triage_llm.Base.{
  ℕ, suc, ◌+◌, ◌≤◌, ◌<◌, String, ◌≡◌, refl, ap, ◌∙◌, ◌≢◌, true, false, none, some, List, [], ◌∷◌,
  leb, le→leb, lt→ltb, str_eq, str_eq-ne, eq_refl, any, if◌then◌else◌, if-holds, arith, length,
}
use support_triage_llm.ServiceStatus.Breaker.{
  Breaker, get_service_breaker, failures_after, cooldown_before,
}
use support_triage_llm.ServiceStatus.BreakerLaws.{bump_all, bump_all-get}
use support_triage_llm.ServiceStatus.Cache.{
  unknown, Service, Params, Answer, Cached, Store, Response, Network, Clock, is_cached_for,
  cache_get, cache_put, fresh,
}
use support_triage_llm.ServiceStatus.Check.{
  is_open, answer, conclude, probe, refuse, pursue, is_blocked, resolved, resolution, has_host,
  run_check,
}

module _ (service_id scope : String) (error_kind : ℕ → String) where
  tripped :
      (now t : ℕ) (ts : List ℕ) (breakers : List Breaker)
      → failures_after (get_service_breaker service_id scope breakers) ≡ 1
      → cooldown_before (get_service_breaker service_id scope breakers) ≡ none
      → 2 ≤ length ts
      → now < t + 300
      → is_open now (
          get_service_breaker service_id scope
            (bump_all service_id scope 3 300 error_kind (t ∷ ts) breakers))
        ≡ true
  unfolding is_open
  tripped now t ts breakers e f many soon =
      let (b, found, _, until) = bump_all-get service_id scope 3 300 error_kind t ts breakers e f in
      let opened : b.cooldown_until ≡ some (t + 300) =
        until ∙ rw (le→leb 3 (suc (length ts)) (omega (arith, many))) refl in
      rw (found, is_open, opened) (lt→ltb now (t + 300) soon)

-- Three or more failures in a row, counted from a breaker that is absent or reset, open it: until
-- 300 seconds after the newest, a run with no fresh answer in the cache answers `unknown` and
-- changes nothing, whatever the network would do.
pub run_check_open :
    (net : Network) (clock : Clock) (p : Params) (s : Service) (store : Store)
    (error_kind : ℕ → String) (t : ℕ) (ts : List ℕ) (breakers : List Breaker)
    → store.breakers ≡ bump_all p.service_id s.scope 3 300 error_kind (t ∷ ts) breakers
    → failures_after (get_service_breaker p.service_id s.scope breakers) ≡ 1
    → cooldown_before (get_service_breaker p.service_id s.scope breakers) ≡ none
    → 2 ≤ length ts
    → clock.now_dt < t + 300
    → fresh clock.now (cache_get p store.cache) ≡ none
    → ((run_check net clock p s store).0.status ≡ unknown)
      × ((run_check net clock p s store).0.notes ≡ "circuit_open" ∷ [])
      × ((run_check net clock p s store).1 ≡ store)
unfolding run_check answer
run_check_open net clock p s store error_kind t ts breakers e closed cool many soon stale =
    let opened =
      tripped p.service_id s.scope error_kind clock.now_dt t ts breakers closed cool many soon in
    rw (run_check, stale, e, opened) (refl, refl, refl)

-- The HTTP side of a network replaced.
unfoldable pub with_http : Network → (ℕ → Response) → Network
with_http net http = record net { http_check = http }

probe-private :
    (net : Network) (http : ℕ → Response) (clock : Clock) (p : Params) (s : Service) (store : Store)
    → is_blocked net s ≡ true
    → probe (with_http net http) clock p s store ≡ probe net clock p s store
unfolding probe is_blocked with_http
probe-private net http clock p s store blocked = rw (probe, with_http, blocked) refl

-- A service of external scope whose name resolves to an address that is not public is never
-- contacted: the answer and the store are the same whatever the HTTP side would answer.
pub run_check_private :
    (net : Network) (http : ℕ → Response) (clock : Clock) (p : Params) (s : Service) (store : Store)
    → s.scope ≡ "external"
    → net.host_of s.url ≢ ""
    → (net.resolve (net.host_of s.url)).dns_ok ≡ true
    → any net.non_public (net.resolve (net.host_of s.url)).addrs ≡ true
    → run_check (with_http net http) clock p s store ≡ run_check net clock p s store
unfolding run_check is_blocked
run_check_private net http clock p s store ext named ok private =
    let blocked : is_blocked net s ≡ true =
      rw (is_blocked, resolved, has_host, resolution, str_eq-ne _ _ named, ok, private, ext) refl in
    ap
      (λ r. elim (fresh clock.now (cache_get p store.cache)) as (λ _. Answer × Store) [
        | some result ↦ (result, store)
        | none ↦
            if is_open clock.now_dt (get_service_breaker p.service_id s.scope store.breakers)
            then (answer clock p s unknown false 2 ("circuit_open" ∷ []), store)
            else r
      ])
      (probe-private net http clock p s store blocked)

module _ (now : ℕ) (p : Params) where
  Kept : Answer × Store → Type 0
  Kept r = fresh now (cache_get p r.1.cache) ≡ some r.0

  fresh-cache_put :
      (q : Params) (t : ℕ) (result : Answer) (cache : List Cached)
      → str_eq q.service_id p.service_id ≡ true
      → str_eq q.region p.region ≡ true
      → leb now (t + 60) ≡ true
      → fresh now (cache_get p (cache_put q t result cache)) ≡ some result
  unfolding cache_get cache_put fresh is_cached_for
  fresh-cache_put q t result cache e f soon = rw (e, f, soon) refl

  pursue-Kept :
      (net : Network) (clock : Clock) (q : Params) (s : Service) (store : Store)
      → str_eq q.service_id p.service_id ≡ true
      → str_eq q.region p.region ≡ true
      → leb now (clock.now + 60) ≡ true
      → Kept (pursue net clock q s store)
  unfolding Kept pursue conclude
  pursue-Kept net clock q s store e f soon = fresh-cache_put q clock.now _ store.cache e f soon

  refuse-Kept :
      (clock : Clock) (q : Params) (s : Service) (store : Store)
      → str_eq q.service_id p.service_id ≡ true
      → str_eq q.region p.region ≡ true
      → leb now (clock.now + 60) ≡ true
      → Kept (refuse clock q s store)
  unfolding Kept refuse
  refuse-Kept clock q s store e f soon = fresh-cache_put q clock.now _ store.cache e f soon

  probe-Kept :
      (net : Network) (clock : Clock) (q : Params) (s : Service) (store : Store)
      → str_eq q.service_id p.service_id ≡ true
      → str_eq q.region p.region ≡ true
      → leb now (clock.now + 60) ≡ true
      → Kept (probe net clock q s store)
  unfolding probe
  probe-Kept net clock q s store e f soon =
      if-holds Kept (is_blocked net s) (refuse clock q s store) (pursue net clock q s store)
        (refuse-Kept clock q s store e f soon) (pursue-Kept net clock q s store e f soon)

  probe-fresh :
      (net : Network) (clock : Clock) (q : Params) (s : Service) (store : Store)
      → str_eq q.service_id p.service_id ≡ true
      → str_eq q.region p.region ≡ true
      → leb now (clock.now + 60) ≡ true
      → fresh now (cache_get p (probe net clock q s store).1.cache)
        ≡ some (probe net clock q s store).0
  unfolding Kept
  probe-fresh net clock q s store e f soon = probe-Kept net clock q s store e f soon

probe-tenant :
    (net : Network) (clock : Clock) (q : Params) (s : Service) (store : Store)
    → (probe net clock q s store).0.tenant ≡ q.tenant_id
unfolding probe pursue refuse conclude answer
probe-tenant net clock q s store =
    if-holds (λ (r : Answer × Store). r.0.tenant ≡ q.tenant_id) (is_blocked net s)
      (refuse clock q s store) (pursue net clock q s store) refl refl

run_check-fresh :
    (net : Network) (clock : Clock) (p : Params) (s : Service) (store : Store) (a : Answer)
    → fresh clock.now (cache_get p store.cache) ≡ some a
    → run_check net clock p s store ≡ (a, store)
unfolding run_check
run_check-fresh net clock p s store a e = rw (run_check, e) refl

run_check-probe :
    (net : Network) (clock : Clock) (p : Params) (s : Service) (store : Store)
    → fresh clock.now (cache_get p store.cache) ≡ none
    → is_open clock.now_dt (get_service_breaker p.service_id s.scope store.breakers) ≡ false
    → run_check net clock p s store ≡ probe net clock p s store
unfolding run_check
run_check-probe net clock p s store stale shut = rw (run_check, stale, shut) refl

-- Answers are cached by service and region, not by tenant: when one tenant's run probes the service,
-- a run for any other tenant within 60 seconds is answered, without a probe, by the very same
-- answer, which names the first tenant.
pub run_check_cached :
    (net net' : Network) (clock clock' : Clock) (p p' : Params) (s s' : Service) (store : Store)
    → fresh clock.now (cache_get p store.cache) ≡ none
    → is_open clock.now_dt (get_service_breaker p.service_id s.scope store.breakers) ≡ false
    → p'.service_id ≡ p.service_id
    → p'.region ≡ p.region
    → clock'.now ≤ clock.now + 60
    → (run_check net' clock' p' s' (run_check net clock p s store).1
        ≡ run_check net clock p s store)
      × ((run_check net clock p s store).0.tenant ≡ p.tenant_id)
run_check_cached net net' clock clock' p p' s s' store stale shut e f soon =
    let kept =
      probe-fresh clock'.now p' net clock p s store (rw e (eq_refl p.service_id))
        (rw f (eq_refl p.region)) (le→leb _ _ soon) in
    rw (run_check-probe net clock p s store stale shut)
      (run_check-fresh net' clock' p' s' _ _ kept, probe-tenant net clock p s store)
