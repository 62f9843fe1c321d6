-- ===== src/Intake/Handoffs.antt =====
-- The table `handoff_packs` of app/queue_db.py. Times are in seconds.
use support_triage_llm.Base.{ℕ, ◌+◌, ◌*◌, String, Option, List, [], ◌∷◌, ◌++◌}
use support_triage_llm.Values.{Value}

pub record HandoffPack : Type 0 where
  pub handoff_id : String
  pub intake_id : String
  pub created_at : ℕ
  pub expires_at : Option ℕ
  pub tier : ℕ
  pub payload_json : String
  pub sent_to : Option String
  pub status : String

-- `created` and `now` are the two readings of the clock.
unfoldable pub create_handoff_pack :
    (Value → String)
    → ℕ
    → String
    → ℕ
    → ℕ
    → String
    → ℕ
    → Value
    → Option String
    → String
    → List HandoffPack
    → List HandoffPack
create_handoff_pack canonical_json ttl_days uuid created now intake_id tier payload sent_to status
      packs =
    packs
    ++ (record {
      handoff_id = uuid;
      intake_id = intake_id;
      created_at = created;
      expires_at = Option.some (now + 86400 * ttl_days);
      tier = tier;
      payload_json = canonical_json payload;
      sent_to = sent_to;
      status = status;
    }
        ∷ [])
