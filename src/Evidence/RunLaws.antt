-- ===== src/Evidence/RunLaws.antt =====
-- What the cache of evidence runs does, and what a replay records.
use support_triage_llm.Base.{
  ℕ, ◌/◌, String, ◌≡◌, refl, ◌∙◌, ==-refl, eq_refl, Bool, true, false, not, none, some, List, [],
  ◌∷◌, ◌++◌, str_eq, any, any-append, keep, keep-append, keep-none, All-any-false, ok,
}
use support_triage_llm.Values.{Value}
use support_triage_llm.Evidence.Runs.{
  EvidenceRun, Request, TimeBucket, minute, instant, minute_us, same_bucket, same_key, latest,
  later, reuse, insert_run, new_run, record_evidence_run,
}
use support_triage_llm.Evidence.Replay.{
  raised, get_evidence_by_id, Replayed, run_tool_with_evidence, replay_of, lineage_request,
  settle_replay, replay_found, replay_evidence,
}

-- No two runs have the same tool, parameters and time bucket.
unfoldable pub Unique : List EvidenceRun → Type 0
Unique [] = Unit
Unique (r ∷ rs) = (any (same_key r) rs ≡ false) × Unique rs

any-same :
    (p q : EvidenceRun → Bool) (runs : List EvidenceRun)
    → ((r : EvidenceRun) → p r ≡ q r)
    → any p runs ≡ any q runs
any-same p q [] h = refl
any-same p q (r ∷ rs) h = rw (h r, any-same p q rs h) refl

keep-unseen :
    (p : EvidenceRun → Bool) (runs : List EvidenceRun) → any p runs ≡ false → keep p runs ≡ []
keep-unseen p runs h = keep-none p runs (All-any-false p runs h)

insert_run-again :
    (e e' : EvidenceRun) (runs : List EvidenceRun)
    → any (same_key e) runs ≡ false
    → same_key e e ≡ true
    → ((r : EvidenceRun) → same_key e' r ≡ same_key e r)
    → insert_run e' (runs ++ (e ∷ [])) ≡ ok (record { run = e; cache_hit = true }, runs ++ (e ∷ []))
unfolding insert_run reuse latest later
insert_run-again e e' runs new self same =
    rw
      (
        insert_run,
        any-append (same_key e') runs (e ∷ []),
        keep-append (same_key e') runs (e ∷ []),
        keep-unseen (same_key e') runs (any-same (same_key e') (same_key e) runs same ∙ new),
        any-same (same_key e') (same_key e) runs same ∙ new,
        same e,
        self,
      )
      refl

same_bucket_refl : (a : TimeBucket) → same_bucket a a ≡ true
unfolding same_bucket
same_bucket_refl (minute a) = ==-refl a
same_bucket_refl (instant a) = ==-refl a

same_key_refl : (e : EvidenceRun) → same_key e e ≡ true
unfolding same_key
same_key_refl e =
    rw (eq_refl e.tool_name, eq_refl e.params_hash, same_bucket_refl e.time_bucket) refl

module _ (canonical_json : Value → String) (sha256 : String → String) (ttl_days : ℕ) where
  -- A bucketed run whose key and id are new is stored, and a second request for the same tool and
  -- parameters in the same minute, whatever its own result, is answered by the first run, as a cache
  -- hit, and stores nothing.
  pub record_evidence_run-cached :
      (uuid uuid' : String) (now now' : ℕ) (q q' : Request) (runs : List EvidenceRun)
      → let e = new_run canonical_json sha256 ttl_days uuid now q in
        any (same_key e) runs ≡ false
        → any (λ r. str_eq r.evidence_id uuid) runs ≡ false
        → q'.tool_name ≡ q.tool_name
        → q'.params ≡ q.params
        → q.cache_bucketed ≡ true
        → q'.cache_bucketed ≡ true
        → now' / minute_us ≡ now / minute_us
        → (record_evidence_run canonical_json sha256 ttl_days uuid now q runs
            ≡ ok (record { run = e; cache_hit = false }, runs ++ (e ∷ [])))
          × (record_evidence_run canonical_json sha256 ttl_days uuid' now' q' (runs ++ (e ∷ []))
              ≡ ok (record { run = e; cache_hit = true }, runs ++ (e ∷ [])))
  unfolding record_evidence_run insert_run
  record_evidence_run-cached uuid uuid' now now' q q' runs new unused tool params b b' t =
      let e = new_run canonical_json sha256 ttl_days uuid now q in
      let e' = new_run canonical_json sha256 ttl_days uuid' now' q' in
      (
        rw (insert_run, new, unused) refl,
        insert_run-again e e' runs new (same_key_refl e)
            (λ r. unfold same_key new_run in rw (tool, params, b, b', t) refl),
      )

  module _ (loads : String → Value) where
    -- the row that a replay stores after a cache hit on the run `r`
    abbrev pub lineage_run : String → ℕ → EvidenceRun → String → EvidenceRun → EvidenceRun
    lineage_run uuid now e message r = new_run canonical_json sha256 ttl_days uuid now (
        lineage_request canonical_json sha256 ttl_days loads e (raised message)
          (record { run = r; cache_hit = true }))

    settle_replay-hit :
        (uuid message : String) (now : ℕ) (runs : List EvidenceRun) (e r : EvidenceRun)
        → any (same_key (lineage_run uuid now e message r)) runs ≡ false
        → any (λ s. str_eq s.evidence_id uuid) runs ≡ false
        → settle_replay canonical_json sha256 ttl_days loads uuid now e
            (raised message)
            (record { run = r; cache_hit = true }, runs)
          ≡ ok (
            record { run = lineage_run uuid now e message r; cache_hit = false },
            runs ++ (lineage_run uuid now e message r ∷ []),
          )
    unfolding settle_replay record_evidence_run
    settle_replay-hit uuid message now runs e r new unused = rw (insert_run, new, unused) refl

    -- When the tool raises during a replay that is not forced, and its key was already recorded in this
    -- minute, so that recording is answered by an earlier run `r`, the replay is stored as a run of its
    -- own with status `ok` and no error message.
    pub replay_evidence-raised :
        (id uuid uuid' message : String) (now now' : ℕ) (runs : List EvidenceRun)
        (e r : EvidenceRun)
        → get_evidence_by_id id runs ≡ some e
        → run_tool_with_evidence canonical_json sha256 ttl_days loads uuid now
            (replay_of canonical_json sha256 ttl_days loads e false)
            (raised message)
            runs
          ≡ ok (record { run = r; cache_hit = true }, runs)
        → any (same_key (lineage_run uuid' now' e message r)) runs ≡ false
        → any (λ s. str_eq s.evidence_id uuid') runs ≡ false
        → (answer : Replayed) × (replay_evidence canonical_json sha256 ttl_days loads id uuid uuid'
              now now' false
              (raised message)
              runs
            ≡ ok (answer, runs ++ (lineage_run uuid' now' e message r ∷ [])))
          × (answer.run.status ≡ "ok")
          × (answer.run.error_message ≡ none)
    unfolding replay_evidence replay_found lineage_request new_run
    replay_evidence-raised id uuid uuid' message now now' runs e r found ran new unused =
        let n : EvidenceRun = lineage_run uuid' now' e message r in
        (
          record {
            run = record n { replays_evidence_id = some e.evidence_id };
            hash_changed = not (str_eq n.result_hash e.result_hash);
            previous_checked_at = e.ran_at;
          },
          rw (replay_evidence, found, ran, settle_replay-hit uuid' message now' runs e r new unused)
              refl,
          refl,
          refl,
        )
