-- ===== src/Feedback/Footer.antt =====
-- The footer of app/feedback_utils.py. FOOTER_REGEX is the label "Internal Ref:" in either case, white
-- space, and one or more letters, digits, dashes or underscores.
use Prim.Native.Char.{Char, code}
use Prim.Native.String.{[], ◌∷◌, ◌++◌}
use mathlib.Core.List
use support_triage_llm.Base.{
  ℕ, String, Bool, true, false, not, ◌&&◌, ◌||◌, Option, none, some, leb, ◌==◌, str_eq, keep,
  if◌then◌else◌,
}
use support_triage_llm.Base.Text.{lower_char, strip_start, strip, prefix, join}

-- the text after a label, which is in lower case, where the text begins with the label in any case
unfoldable pub after_label : String → String → Option String
unfolding lower_char
after_label [] s = some s
after_label (d ∷ label) [] = none
after_label (d ∷ label) (c ∷ s) =
    let rest = after_label label s in if code (lower_char c) == code d then rest else none

unfoldable pub is_id_char : Char → Bool
is_id_char c =
    (leb b'a' (code c) && leb (code c) b'z')
    || ((leb b'A' (code c) && leb (code c) b'Z')
        || ((leb b'0' (code c) && leb (code c) b'9') || ((code c == b'-') || (code c == b'_'))))

-- the longest prefix of id characters
unfoldable pub take_id : String → String
unfolding is_id_char
take_id [] = []
take_id (c ∷ s) = let rest = take_id s in if is_id_char c then c ∷ rest else []

unfoldable pub id_of : String → Option String
unfolding take_id
id_of s = if str_eq (take_id s) "" then none else some (take_id s)

-- FOOTER_REGEX.match, of its group
unfoldable pub footer_at : String → Option String
unfolding after_label id_of strip_start
footer_at s = elim (after_label "internal ref:" s) [ none ↦ none | some t ↦ id_of (strip_start t) ]

-- FOOTER_REGEX.search, of its group
unfoldable pub extract_case_id : String → Option String
unfolding footer_at
extract_case_id [] = none
extract_case_id (c ∷ s) =
    let later = extract_case_id s in elim (footer_at (c ∷ s)) [ some id ↦ some id | none ↦ later ]

unfoldable pub body_size_cap : ℕ
body_size_cap = 100000

unfoldable pub has_footer : String → Bool
unfolding extract_case_id
has_footer line = elim (extract_case_id line) [ none ↦ false | some id ↦ true ]

-- FOOTER_TEMPLATE
unfoldable pub footer : String → String
footer case_id =
    "\n" ∷ "\n" ∷ "-" ∷ "-" ∷ "\n" ∷ "I" ∷ "n" ∷ "t" ∷ "e" ∷ "r" ∷ "n" ∷ "a" ∷ "l" ∷ " " ∷ "R" ∷ "e"
    ∷ "f" ∷ ":" ∷ " " ∷ case_id

-- `splitlines` is `str.splitlines`.
module _ (splitlines : String → List.List String) where
  unfoldable pub strip_footer : String → String
  unfolding has_footer join strip prefix body_size_cap
  strip_footer text =
      prefix body_size_cap
        (strip (join "\n" (keep (λ line. not (has_footer line)) (splitlines text))))

  unfoldable pub append_footer : String → String → String
  unfolding strip_footer prefix body_size_cap footer
  append_footer body case_id = prefix body_size_cap (strip_footer body) ++ footer case_id
