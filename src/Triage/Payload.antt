-- ===== src/Triage/Payload.antt =====
-- The triage document of app/triage_service.py (schemas/triage.schema.json). A member that the document
-- may lack is an `Option`; confidence is in hundredths.
use support_triage_llm.Base.{ℕ, String, Bool, true, false, Option, none, some, List, [], ◌∷◌}
use support_triage_llm.Base.Text.{or_text}
use support_triage_llm.Values.{Value}

pub record Window : Type 0 where
  pub start : Option String
  pub end : Option String
  pub confidence : Option ℕ

pub record Reported : Type 0 where
  pub raw_text : Option String
  pub timezone : Option String
  pub has_date : Bool
  pub has_only_clock_time : Bool
  pub confidence : ℕ

pub record Scope : Type 0 where
  pub affected_tenants : Option (List String)
  pub affected_users : Option (List String)
  pub affected_recipients : Option (List String)
  pub recipient_domains : Option (List String)
  pub is_all_users : Option Bool
  pub notes : Option String

pub record Reply : Type 0 where
  pub subject : Option String
  pub body : Option String

pub record Payload : Type 0 where
  pub case_type : Option String
  pub severity : Option String
  pub time_window : Option Window
  pub reported_time_window : Option Reported
  pub time_ambiguity : Option String
  pub scope : Option Scope
  pub symptoms : Option (List String)
  pub examples : Option (List Value)
  pub missing_info_questions : Option (List String)
  pub suggested_tools : Option (List Value)
  pub draft_customer_reply : Option Reply
  pub time_window_reason : Option String

-- o or d, of texts
unfoldable pub text_or : Option String → String → String
text_or none d = d
text_or (some s) d = or_text s d

-- payload.setdefault(key, d)
unfoldable pub set_default {ℓ} : {A : Type ℓ} → A → Option A → Option A
set_default d none = some d
set_default d (some a) = some a

-- o or d, of lists
unfoldable pub list_or {ℓ} : {A : Type ℓ} → Option (List A) → List A → List A
list_or none d = d
list_or (some []) d = d
list_or (some (x ∷ xs)) d = x ∷ xs

unfoldable pub is_empty {ℓ} : {A : Type ℓ} → Option (List A) → Bool
is_empty none = true
is_empty (some []) = true
is_empty (some (x ∷ xs)) = false

unfoldable pub default_reported : Reported
default_reported = record {
  raw_text = none;
  timezone = none;
  has_date = false;
  has_only_clock_time = false;
  confidence = 10;
}
