-- ===== src/Server/AccessLaws.antt =====
-- What the server lets through.
use support_triage_llm.Base.{
  str_eq, some, ℕ, ◌+◌, ◌<◌, String, ◌≡◌, refl, Bool, true, false, ◌&&◌, not, Option, none, List,
  [], ◌∷◌, ◌++◌, leb, eq_refl, keep, keep-append, length, length-append, Result, ok, arith,
  Bool-cases, inl, inr, ok-injective, eq_iff, subst,
}
use support_triage_llm.Intake.Intakes.{Intake, get_intake, set_acknowledged, acknowledge_intake}
use support_triage_llm.Intake.Laws.{get_intake-change_found}
use support_triage_llm.Server.Access.{
  may_acknowledge, acknowledge_found, handle_acknowledge, ServerConfig, is_admin, ReplayAttempt,
  count_replays_for_evidence, respond, new_id, result_text, reason_text, api_role,
  count_replays_for_key, log_replay_attempt, handle_replay,
}

count-logged :
    (test : ReplayAttempt → Bool) (audit : List ReplayAttempt) (a : ReplayAttempt)
    → test a ≡ true
    → length (keep test (audit ++ (a ∷ []))) ≡ length (keep test audit) + 1
count-logged test audit a h =
    rw (keep-append test audit (a ∷ []), length-append (keep test audit) (keep test (a ∷ [])), h)
      refl

module _ (sha256 : String → String) (config : ServerConfig) where
  log-counts :
      (key id : String) (new : Option String) (result reason : String) (now : ℕ)
      (audit : List ReplayAttempt)
      → (count_replays_for_key sha256 config key 60 now
            (log_replay_attempt sha256 config key id new result reason now audit)
          ≡ count_replays_for_key sha256 config key 60 now audit + 1)
        × (count_replays_for_evidence id 3600 now
              (log_replay_attempt sha256 config key id new result reason now audit)
            ≡ count_replays_for_evidence id 3600 now audit + 1)
  unfolding count_replays_for_key count_replays_for_evidence log_replay_attempt
  log-counts key id new result reason now audit = (
    count-logged _ audit _ (rw (eq_refl (sha256 key)) (ground arith)),
    count-logged _ audit _ (rw (eq_refl id) (ground arith)),
  )

  -- A request that is not an unauthorised forced one is counted once against its key and once against
  -- its evidence, whether it is let through or blocked by either limit: a caller that is over its own
  -- limit still uses up the evidence's.
  pub handle_replay-counted :
      (key id : String) (force : Bool) (now : ℕ) (outcome : Result String String)
      (audit : List ReplayAttempt)
      → (force && not (is_admin (api_role sha256 config key))) ≡ false
      → let after = (handle_replay sha256 config key id force now outcome audit).1 in
        (count_replays_for_key sha256 config key 60 now after
          ≡ count_replays_for_key sha256 config key 60 now audit + 1)
        × (count_replays_for_evidence id 3600 now after
            ≡ count_replays_for_evidence id 3600 now audit + 1)
  unfolding handle_replay
  handle_replay-counted key id force now outcome audit may =
      elim (Bool-cases (leb 30 (count_replays_for_key sha256 config key 60 now audit))) [
        | inl a ↦
            rw (handle_replay, may, a) (log-counts key id none "blocked" "rate_limited" now audit)
        | inr a ↦ elim (Bool-cases (leb 10 (count_replays_for_evidence id 3600 now audit))) [
          | inl b ↦
              rw (handle_replay, may, a, b)
                (log-counts key id none "blocked" "evidence_cap" now audit)
          | inr b ↦
              rw (handle_replay, may, a, b)
                (log-counts key id (new_id outcome) (result_text outcome) (reason_text outcome) now
                  audit)
        ]
      ]

  -- A replay that the server answers with a new id was within both limits, counting what was blocked,
  -- and, if it was forced, the key is an administrator's.
  pub handle_replay-allowed :
      (key id new : String) (force : Bool) (now : ℕ) (outcome : Result String String)
      (audit : List ReplayAttempt)
      → (handle_replay sha256 config key id force now outcome audit).0 ≡ ok new
      → (count_replays_for_key sha256 config key 60 now audit < 30)
        × (count_replays_for_evidence id 3600 now audit < 10)
        × (force ≡ true → is_admin (api_role sha256 config key) ≡ true)
        × (respond outcome ≡ ok new)
  unfolding handle_replay
  handle_replay-allowed key id new force now outcome audit h =
      elim (Bool-cases (force && not (is_admin (api_role sha256 config key)))) [
        | inl m ↦ absurd (cc (rw (handle_replay, m) at h))
        | inr m ↦
            elim (Bool-cases (leb 30 (count_replays_for_key sha256 config key 60 now audit))) [
              | inl a ↦ absurd (cc (rw (handle_replay, m, a) at h))
              | inr a ↦ elim (Bool-cases (leb 10 (count_replays_for_evidence id 3600 now audit))) [
                | inl b ↦ absurd (cc (rw (handle_replay, m, a, b) at h))
                | inr b ↦ (
                  ground arith,
                  ground arith,
                  λ f. ground arith,
                  rw (handle_replay, m, a, b) at h,
                )
              ]
            ]
      ]

  acknowledge_found-ok :
      (key id : String) (at now : ℕ) (intakes intakes' : List Intake) (o : Option Intake)
      → get_intake id intakes ≡ o
      → acknowledge_found sha256 config key id at now intakes o ≡ ok intakes'
      → (i : Intake) × (get_intake id intakes ≡ some i)
        × (i.status ≡ "escalated")
        × (get_intake id intakes' ≡ some (set_acknowledged at now (sha256 key) i))
  unfolding acknowledge_found acknowledge_intake
  acknowledge_found-ok key id at now intakes intakes' none e h = absurd (cc h)
  acknowledge_found-ok key id at now intakes intakes' (some i) e h =
      elim (Bool-cases (str_eq i.status "escalated")) [
        | inl b ↦ (
          i,
          e,
          (eq_iff i.status "escalated").0 b,
          subst (λ after. get_intake id after ≡ some (set_acknowledged at now (sha256 key) i))
              (ok-injective _ _ (rw (acknowledge_found, b) at h))
              (get_intake-change_found id (set_acknowledged at now (sha256 key))
                (λ k. unfold set_acknowledged in refl) intakes i e),
        )
        | inr b ↦ absurd (cc (rw (acknowledge_found, b) at h))
      ]

  -- An acknowledgement that succeeds was asked for with the key of an administrator or of tier 3, for an
  -- intake that was escalated, which afterwards carries the time and the hash of the key.
  pub handle_acknowledge-ok :
      (key id : String) (at now : ℕ) (intakes intakes' : List Intake)
      → handle_acknowledge sha256 config key id at now intakes ≡ ok intakes'
      → (may_acknowledge (api_role sha256 config key) ≡ true)
        × ((i : Intake) × (get_intake id intakes ≡ some i)
            × (i.status ≡ "escalated")
            × (get_intake id intakes' ≡ some (set_acknowledged at now (sha256 key) i)))
  unfolding handle_acknowledge
  handle_acknowledge-ok key id at now intakes intakes' h =
      elim (Bool-cases (may_acknowledge (api_role sha256 config key))) [
        | inl b ↦ (
          b,
          acknowledge_found-ok key id at now intakes intakes' (get_intake id intakes) refl
              (rw (handle_acknowledge, b) at h),
        )
        | inr b ↦ absurd (cc (rw (handle_acknowledge, b) at h))
      ]
