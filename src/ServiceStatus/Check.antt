-- ===== src/ServiceStatus/Check.antt =====
-- `run_service_status` of tools/service_status.py. The network is a parameter: the host of a URL
-- (`urlparse`), name resolution (`_resolve_host`), the test for addresses that are not public
-- (`ipaddress`) and the answer to each HTTP attempt (`_http_check`). Confidence is in tenths, time
-- in seconds, latency in whole milliseconds.
use support_triage_llm.Base.{
  ℕ, zero, suc, String, Bool, true, false, ◌&&◌, ◌||◌, not, Option, none, some, List, [], ◌∷◌, ◌++◌,
  leb, ltb, str_eq, any, if◌then◌else◌, Result, ok, err,
}
use support_triage_llm.Base.Text.{contains, or_text}
use support_triage_llm.ServiceStatus.Breaker.{
  Breaker, get_service_breaker, bump_service_breaker_failure, reset_service_breaker,
}
use support_triage_llm.ServiceStatus.Cache.{
  State, Expected, Service, Params, Answer, Store, Response, Resolution, Network, Clock,
  StatusError, breaker_threshold, breaker_cooldown_sec, find_service, cache_get, cache_put, fresh,
  up, down, unknown, not_allowlisted,
}

unfoldable pub is_open : ℕ → Option Breaker → Bool
is_open now none = false
is_open now (some b) = elim b.cooldown_until [ none ↦ false | some t ↦ ltb now t ]

unfoldable pub block_private_ips : (String → Bool) → List String → Bool
block_private_ips non_public addrs = any non_public addrs

-- attempts `k`, `k + 1`, … until one is answered, at most `n` more after the first
unfoldable pub attempt : (ℕ → Response) → ℕ → ℕ → Response
attempt http zero k = http k
attempt http (suc n) k =
    let rest = attempt http n (suc k) in elim (http k).status [ none ↦ rest | some c ↦ http k ]

-- status, confidence and notes from the HTTP status and the body
unfoldable pub classify : Option Expected → Option ℕ → String → State × ℕ × List String
classify expected none body = (unknown, 2, [])
classify expected (some code) body =
    if leb 300 code && ltb code 400 then (unknown, 2, "redirect_blocked" ∷ []) else elim expected [
      | none ↦ (unknown, 4, [])
      | some e ↦
          if leb e.status_min code
            && leb code e.status_max
            && (str_eq e.body_contains "" || contains e.body_contains body)
          then (up, 8, [])
          else (down, 6, [])
    ]

unfoldable pub answer : Clock → Params → Service → State → Bool → ℕ → List String → Answer
answer clock p s status dns_ok confidence notes = record {
  checked_at = clock.checked_at;
  service_id = p.service_id;
  tenant = p.tenant_id;
  region = p.region;
  status = status;
  http_status = none;
  latency_ms = none;
  dns_ok = dns_ok;
  scope = s.scope;
  confidence = confidence;
  notes = notes;
}

-- the notes of name resolution, and of a check that makes no attempt
unfoldable pub dns_notes : Bool → String → Resolution → List String
dns_notes has_host url r =
    if has_host
    then (if r.dns_ok
        then (if str_eq url "" then "missing_url" ∷ [] else [])
        else or_text r.dns_err "dns_failed" ∷ "dns_failed" ∷ [])
    else "missing_host" ∷ "dns_failed" ∷ []

unfoldable pub first_note : List String → String
first_note [] = "failure"
first_note (n ∷ notes) = n

-- the breaker after a check
unfoldable pub settle : Clock → Params → Service → State → List String → List Breaker → List Breaker
unfolding first_note bump_service_breaker_failure reset_service_breaker
settle clock p s up notes breakers =
    reset_service_breaker p.service_id s.scope clock.reset_at breakers
settle clock p s _ notes breakers =
    bump_service_breaker_failure p.service_id s.scope clock.now_dt breaker_threshold
      breaker_cooldown_sec (first_note notes) breakers

-- the HTTP attempts, when the name resolved; otherwise none is made
unfoldable pub contact : Network → Service → Bool → Option Response
contact net s reachable = if reachable then some (attempt net.http_check s.retries 1) else none

unfoldable pub code_of : Option Response → Option ℕ
code_of none = none
code_of (some r) = r.status

unfoldable pub latency_of : Option Response → Option ℕ
latency_of none = none
latency_of (some r) = some r.latency

unfoldable pub snippet_of : Option Response → String
snippet_of none = ""
snippet_of (some r) = r.snippet

-- from the HTTP attempts on
unfoldable pub conclude :
    Clock → Params → Service → Bool → List String → Option Response → Store → Answer × Store
unfolding answer classify settle code_of latency_of snippet_of cache_put
conclude clock p s dns_ok notes response store =
    let verdict = classify s.expected (code_of response) (snippet_of response) in
    let notes = notes ++ verdict.2 in
    let result = record (answer clock p s verdict.0 dns_ok verdict.1 notes) {
      http_status = code_of response;
      latency_ms = latency_of response;
    } in
    (
      result,
      record {
        cache = cache_put p clock.now result store.cache;
        breakers = settle clock p s verdict.0 notes store.breakers;
      },
    )

-- the early return for an address that is not public
unfoldable pub refuse : Clock → Params → Service → Store → Answer × Store
unfolding answer cache_put
refuse clock p s store =
    let refused = answer clock p s unknown true 2 ("blocked_non_public_ip" ∷ []) in
    (refused, record store { cache = cache_put p clock.now refused store.cache })

unfoldable pub has_host : Network → Service → Bool
has_host net s = not (str_eq (net.host_of s.url) "")

unfoldable pub resolution : Network → Service → Resolution
resolution net s = net.resolve (net.host_of s.url)

unfoldable pub resolved : Network → Service → Bool
unfolding has_host resolution
resolved net s = has_host net s && (resolution net s).dns_ok

unfoldable pub is_blocked : Network → Service → Bool
unfolding resolved resolution block_private_ips
is_blocked net s =
    resolved net s
    && (block_private_ips net.non_public (resolution net s).addrs && str_eq s.scope "external")

-- the HTTP check of a service that is not blocked
unfoldable pub pursue : Network → Clock → Params → Service → Store → Answer × Store
unfolding conclude contact dns_notes resolved has_host resolution
pursue net clock p s store =
    conclude clock p s (resolved net s) (dns_notes (has_host net s) s.url (resolution net s))
      (contact net s (resolved net s && not (str_eq s.url ""))) store

-- the probe, when the breaker lets it through
unfoldable pub probe : Network → Clock → Params → Service → Store → Answer × Store
unfolding is_blocked refuse pursue
probe net clock p s store =
    if is_blocked net s then refuse clock p s store else pursue net clock p s store

unfoldable pub run_check : Network → Clock → Params → Service → Store → Answer × Store
unfolding fresh cache_get is_open get_service_breaker answer probe
run_check net clock p s store = elim (fresh clock.now (cache_get p store.cache)) [
  | some result ↦ (result, store)
  | none ↦
      if is_open clock.now_dt (get_service_breaker p.service_id s.scope store.breakers)
      then (answer clock p s unknown false 2 ("circuit_open" ∷ []), store)
      else probe net clock p s store
]

unfoldable pub run_service_status :
    Network → List (String × Service) → Clock → Params → Store → Result StatusError (Answer × Store)
unfolding find_service run_check
run_service_status net registry clock p store = elim (find_service p.service_id registry) [
  | none ↦ err (not_allowlisted p.service_id)
  | some s ↦ ok (run_check net clock p s store)
]
