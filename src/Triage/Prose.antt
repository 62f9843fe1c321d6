-- ===== src/Triage/Prose.antt =====
-- JSON that stands in the prose of a model's answer.
use Prim.Native.String.{[], ◌∷◌, ◌++◌}
use Prim.Native.Char.{Char, code}
use text.Mathlib.TextLemmas.{nil-append, cons-append}
use support_triage_llm.Base.{
  ℕ, String, ◌≡◌, refl, ◌∙◌, Bool, true, false, ◌||◌, Option, none, some, ◌==◌, arith,
}
use support_triage_llm.Triage.Extract.{from_first, to_last, braced, extract_json_block}

-- whether a character with this code is in the text
unfoldable pub occurs : ℕ → String → Bool
occurs d [] = false
occurs d (c ∷ s) = (code c == d) || occurs d s

from_first-skip :
    (d : ℕ) (before s : String)
    → occurs d before ≡ false
    → from_first d (before ++ s) ≡ from_first d s
unfolding occurs from_first
from_first-skip d [] s h = rw (nil-append s) refl
from_first-skip d (c ∷ before) s h =
    rw (cons-append c before s) (ground (arith, from_first-skip d before s))

from_first-here :
    (d : ℕ) (c : Char) (s : String) → (code c == d) ≡ true → from_first d (c ∷ s) ≡ some (c ∷ s)
unfolding from_first
from_first-here d c s h = rw h refl

to_last-none : (d : ℕ) (s : String) → occurs d s ≡ false → to_last d s ≡ none
unfolding occurs to_last
to_last-none d [] h = refl
to_last-none d (c ∷ s) h = ground (arith, to_last-none d s)

to_last-cons :
    (d : ℕ) (c : Char) (s t : String) → to_last d s ≡ some t → to_last d (c ∷ s) ≡ some (c ∷ t)
unfolding to_last
to_last-cons d c s t h = rw h refl

to_last-here :
    (d : ℕ) (c : Char) (s after : String)
    → (code c == d) ≡ true
    → occurs d after ≡ false
    → to_last d (s ++ (c ∷ after)) ≡ some (s ++ (c ∷ []))
unfolding to_last
to_last-here d c [] after h k =
    rw (nil-append (c ∷ after), nil-append (c ∷ []), to_last-none d after k, h) refl
to_last-here d c (x ∷ s) after h k =
    rw (cons-append x s (c ∷ after), cons-append x s (c ∷ []))
      (to_last-cons d x (s ++ (c ∷ after)) (s ++ (c ∷ [])) (to_last-here d c s after h k))

braced-prose :
    (before body after : String)
    → occurs b'{' before ≡ false
    → occurs b'}' after ≡ false
    → braced (before ++ ("{" ∷ (body ++ ("}" ∷ after)))) ≡ some ("{" ∷ (body ++ ("}" ∷ [])))
unfolding braced
braced-prose before body after h k =
    let found =
      from_first-skip b'{' before ("{" ∷ (body ++ ("}" ∷ after))) h
      ∙ from_first-here b'{' "{" (body ++ ("}" ∷ after)) refl in
    rw (braced, found)
      (to_last-cons b'}' "{" (body ++ ("}" ∷ after)) (body ++ ("}" ∷ []))
        (to_last-here b'}' "}" body after refl k))

-- A JSON object written in prose is read back: where no brace opens before it and none closes after it,
-- and the whole is not JSON, the value is that of the object alone.
pub extract_json_block-prose :
    {A : Type 0} (loads : String → Option A) (print : A → String) (v : A)
    (before body after : String)
    → print v ≡ "{" ∷ (body ++ ("}" ∷ []))
    → loads (print v) ≡ some v
    → loads (before ++ ("{" ∷ (body ++ ("}" ∷ after)))) ≡ none
    → occurs b'{' before ≡ false
    → occurs b'}' after ≡ false
    → extract_json_block loads (before ++ ("{" ∷ (body ++ ("}" ∷ after)))) ≡ some v
unfolding extract_json_block
extract_json_block-prose loads print v before body after shown read prose h k =
    rw (extract_json_block, prose, braced-prose before body after h k, ← shown, read) refl
