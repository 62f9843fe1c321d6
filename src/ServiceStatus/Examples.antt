-- ===== src/ServiceStatus/Examples.antt =====
-- A registered service, a network, and runs of the service status tool.
use support_triage_llm.Base.{ℕ, String, ◌≡◌, refl, true, some, [], ◌∷◌, str_eq, arith}
use support_triage_llm.ServiceStatus.Breaker.{get_service_breaker, cooldown_before, failures_after}
use support_triage_llm.ServiceStatus.BreakerLaws.{bump_all}
use support_triage_llm.ServiceStatus.Cache.{
  up, down, unknown, Service, Params, Store, Response, Network, Clock, cache_get, fresh,
}
use support_triage_llm.ServiceStatus.Check.{run_check, attempt}
use support_triage_llm.ServiceStatus.Answers.{run_check_open, run_check_private, with_http}

abbrev api : Service
api = record {
  url = "https://api.test/health";
  scope = "external";
  retries = 1;
  expected = some record { status_min = 200; status_max = 299; body_contains = "" };
}

abbrev asked : String → Params
asked tenant = record { service_id = "api"; tenant_id = some tenant; region = "" }

abbrev reply : ℕ → Response
reply code = record { status = some code; latency = 20; snippet = "fine" }

-- the address 10.0.0.1 alone is not public
abbrev net_at : String → ℕ → Network
net_at addr code = record {
  host_of = λ url. "api.test";
  resolve = λ host. record { dns_ok = true; addrs = addr ∷ []; dns_err = "" };
  non_public = λ a. str_eq a "10.0.0.1";
  http_check = λ n. reply code;
}

abbrev at : ℕ → Clock
at t = record { now = t; now_dt = t; checked_at = t; reset_at = t }

abbrev empty : Store
empty = record { cache = []; breakers = [] }

abbrev failing : Store
failing = record {
  cache = [];
  breakers = bump_all "api" "external" 3 300 (λ t. "failure") (30 ∷ 20 ∷ 10 ∷ []) [];
}

up_test : (run_check (net_at "8.8.8.8" 204) (at 5) (asked "acme") api empty).0.status ≡ up
unfolding run_check attempt
up_test = refl

down_test : (run_check (net_at "8.8.8.8" 503) (at 5) (asked "acme") api empty).0.status ≡ down
unfolding run_check attempt
down_test = refl

redirect_test :
    (run_check (net_at "8.8.8.8" 301) (at 5) (asked "acme") api empty).0.notes
    ≡ "redirect_blocked" ∷ []
unfolding run_check attempt
redirect_test = refl

private_test :
    (run_check (net_at "10.0.0.1" 204) (at 5) (asked "acme") api empty).0.notes
    ≡ "blocked_non_public_ip" ∷ []
unfolding run_check
private_test = refl

run_check_open_example :
    ((run_check (net_at "8.8.8.8" 204) (at 200) (asked "acme") api failing).0.status ≡ unknown)
    × ((run_check (net_at "8.8.8.8" 204) (at 200) (asked "acme") api failing).0.notes
        ≡ "circuit_open" ∷ [])
    × ((run_check (net_at "8.8.8.8" 204) (at 200) (asked "acme") api failing).1 ≡ failing)
unfolding failures_after get_service_breaker cooldown_before fresh cache_get
run_check_open_example =
    run_check_open (net_at "8.8.8.8" 204) (at 200) (asked "acme") api failing (λ t. "failure") 30
      (20 ∷ 10 ∷ []) [] refl refl refl (omega arith) (omega arith) refl

run_check_private_example :
    run_check (with_http (net_at "10.0.0.1" 204) (λ n. reply 500)) (at 5) (asked "acme") api empty
    ≡ run_check (net_at "10.0.0.1" 204) (at 5) (asked "acme") api empty
run_check_private_example =
    run_check_private (net_at "10.0.0.1" 204) (λ n. reply 500) (at 5) (asked "acme") api empty refl
      (λ e. absurd (cc e)) refl refl
