-- ===== src/ServiceStatus/Cache.antt =====
-- The data of tools/service_status.py, and its cache of answers. The network is a parameter: the host of a
-- URL (`urlparse`), name resolution (`_resolve_host`), the test for addresses that are not public
-- (`ipaddress`) and the answer to each HTTP attempt (`_http_check`). Confidence is in tenths, time in
-- seconds, latency in whole milliseconds.
use support_triage_llm.Base.{
  ℕ, ◌+◌, String, Bool, ◌&&◌, not, Option, none, some, List, [], ◌∷◌, leb, str_eq, first, keep,
  if◌then◌else◌,
}
use support_triage_llm.ServiceStatus.Breaker.{Breaker}

pub data State : Type 0 where
  up down unknown : State

-- a non-empty `expected` of the registry, its defaults filled in
pub record Expected : Type 0 where
  pub status_min : ℕ
  pub status_max : ℕ
  pub body_contains : String

pub record Service : Type 0 where
  pub url : String
  pub scope : String
  pub retries : ℕ
  pub expected : Option Expected

pub record Params : Type 0 where
  pub service_id : String
  pub tenant_id : Option String
  pub region : String

pub record Answer : Type 0 where
  pub checked_at : ℕ
  pub service_id : String
  pub tenant : Option String
  pub region : String
  pub status : State
  pub http_status : Option ℕ
  pub latency_ms : Option ℕ
  pub dns_ok : Bool
  pub scope : String
  pub confidence : ℕ
  pub notes : List String

pub record Cached : Type 0 where
  pub service_id : String
  pub region : String
  pub ts : ℕ
  pub result : Answer

-- what the tool keeps: the dictionary CACHE and the table of breakers
pub record Store : Type 0 where
  pub cache : List Cached
  pub breakers : List Breaker

-- `status` is none where `_http_check` returns -1.
pub record Response : Type 0 where
  pub status : Option ℕ
  pub latency : ℕ
  pub snippet : String

pub record Resolution : Type 0 where
  pub dns_ok : Bool
  pub addrs : List String
  pub dns_err : String

pub record Network : Type 0 where
  pub host_of : String → String
  pub resolve : String → Resolution
  pub non_public : String → Bool
  pub http_check : ℕ → Response

-- the readings of the clock in one run
pub record Clock : Type 0 where
  pub now : ℕ
  pub now_dt : ℕ
  pub checked_at : ℕ
  pub reset_at : ℕ

pub data StatusError : Type 0 where
  not_allowlisted : String → StatusError

abbrev pub cache_ttl_seconds : ℕ
cache_ttl_seconds = 60

abbrev pub breaker_threshold : ℕ
breaker_threshold = 3

abbrev pub breaker_cooldown_sec : ℕ
breaker_cooldown_sec = 300

unfoldable pub find_service : String → List (String × Service) → Option Service
find_service id [] = none
find_service id ((j, s) ∷ registry) =
    let rest = find_service id registry in if str_eq j id then some s else rest

unfoldable pub is_cached_for : Params → Cached → Bool
is_cached_for p c = str_eq c.service_id p.service_id && str_eq c.region p.region

unfoldable pub cache_get : Params → List Cached → Option Cached
cache_get p cache = first (is_cached_for p) cache

unfoldable pub cache_put : Params → ℕ → Answer → List Cached → List Cached
unfolding is_cached_for
cache_put p now result cache =
    record { service_id = p.service_id; region = p.region; ts = now; result = result }
    ∷ keep (λ c. not (is_cached_for p c)) cache

-- the cached entry, while it is fresh
unfoldable pub fresh : ℕ → Option Cached → Option Answer
fresh now none = none
fresh now (some c) = if leb now (c.ts + cache_ttl_seconds) then some c.result else none
