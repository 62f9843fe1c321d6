-- ===== src/Triage/Extract.antt =====
-- `_extract_json_block` of app/triage_service.py: the JSON value in the answer of a language model.
-- `loads` is `json.loads`, none where it raises `JSONDecodeError`. And how an attempt to get one fails.
use Prim.Native.String.{[], ◌∷◌}
use Prim.Native.Char.{code}
use support_triage_llm.Base.{ℕ, String, Option, none, some, ◌==◌, if◌then◌else◌}

-- text[text.find(c):], of the character with this code, where there is one
unfoldable pub from_first : ℕ → String → Option String
from_first d [] = none
from_first d (c ∷ s) = let rest = from_first d s in if code c == d then some (c ∷ s) else rest

-- text[:text.rfind(c) + 1], where there is one
unfoldable pub to_last : ℕ → String → Option String
to_last d [] = none
to_last d (c ∷ s) = elim (to_last d s) [
  | some t ↦ some (c ∷ t)
  | none ↦ if code c == d then some (c ∷ []) else none
]

-- text[start : end + 1]
unfoldable pub braced : String → Option String
unfolding from_first to_last
braced s = elim (from_first b'{' s) [ none ↦ none | some t ↦ to_last b'}' t ]

unfoldable pub extract_json_block {ℓ} : {A : Type ℓ} → (String → Option A) → String → Option A
unfolding braced
extract_json_block loads s = elim (loads s) [
  | some v ↦ some v
  | none ↦ elim (braced s) [ none ↦ none | some t ↦ loads t ]
]

-- How a triage fails: SchemaValidationError, or any other exception.
pub data TriageError : Type 0 where
  rejected : String → TriageError
  crashed : String → TriageError

-- An exception in an attempt: SchemaValidationError and JSONDecodeError, which are tried again, and any
-- other, which ends the loop.
pub data Failure : Type 0 where
  retryable : String → Failure
  fatal : String → Failure
