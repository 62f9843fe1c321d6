-- ===== src/Worker/RetryExamples.antt =====
-- The delays before the next tries.
use support_triage_llm.Base.{◌≡◌, refl, map, [], ◌∷◌}
use support_triage_llm.Worker.Retry.{RetryConfig, backoff_seconds}

abbrev config : RetryConfig
config = record { max_retries = 2; retry_base_seconds = 5; retry_max_seconds = 300 }

-- The delays double up to the longest.
backoff_test : map (backoff_seconds config) (0 ∷ 1 ∷ 2 ∷ 9 ∷ []) ≡ 5 ∷ 10 ∷ 20 ∷ 300 ∷ []
unfolding backoff_seconds
backoff_test = refl
