-- ===== src/Feedback/RoundTrip.antt =====
-- The case id of a footer is read back.
use Prim.Native.Char.{Char, code}
use Prim.Native.String.{[], ◌∷◌, ◌++◌}
use mathlib.Core.List
use text.Mathlib.TextLemmas.{nil-append, cons-append, cons≢nil}
use support_triage_llm.Base.{
  String, ◌≡◌, refl, subst, ◌∙◌, Bool, true, false, ◌&&◌, not, inl, inr, Option-cases, none, some,
  ◌==◌, str_eq-ne, arith,
}
use support_triage_llm.Base.Text.{is_space, strip_start, prefix}
use support_triage_llm.Feedback.Footer.{
  after_label, is_id_char, take_id, id_of, footer_at, extract_case_id, body_size_cap, footer,
  strip_footer, append_footer,
}

-- no character of the label is a line feed
one_line : String → Bool
one_line [] = true
one_line (d ∷ s) = not (code d == 10) && one_line s

-- whether the label stands somewhere in the text
unfoldable pub has_label : String → Bool
unfolding after_label
has_label [] = false
has_label (c ∷ s) = elim (after_label "internal ref:" (c ∷ s)) [
  | some t ↦ true
  | none ↦ has_label s
]

after_label-line :
    (label s t : String)
    → one_line label ≡ true
    → after_label label s ≡ none
    → after_label label (s ++ ("\n" ∷ t)) ≡ none
unfolding one_line after_label
after_label-line [] s t h k = cc
after_label-line (d ∷ label) [] t h k = rw (nil-append ("\n" ∷ t)) (ground arith)
after_label-line (d ∷ label) (c ∷ s) t h k =
    rw (cons-append c s ("\n" ∷ t)) (ground (arith, after_label-line label s t))

after_label-free :
    (c : Char) (s : String)
    → has_label (c ∷ s) ≡ false
    → (after_label "internal ref:" (c ∷ s) ≡ none) × (has_label s ≡ false)
unfolding has_label
after_label-free c s h = elim (Option-cases (after_label "internal ref:" (c ∷ s))) [
  | inl e ↦ (e, rw (has_label, e) at h)
  | inr (t, e) ↦ absurd (cc (rw (has_label, e) at h))
]

footer_at-none : (s : String) → after_label "internal ref:" s ≡ none → footer_at s ≡ none
unfolding footer_at
footer_at-none s h = rw (footer_at, h) refl

extract_case_id-cons :
    (c : Char) (s : String) → footer_at (c ∷ s) ≡ none → extract_case_id (c ∷ s) ≡ extract_case_id s
unfolding extract_case_id
extract_case_id-cons c s h = rw (extract_case_id, h) refl

-- A text without the label, and the end of its line, hold no footer.
extract_case_id-skip :
    (s t : String)
    → has_label s ≡ false
    → extract_case_id (s ++ ("\n" ∷ t)) ≡ extract_case_id ("\n" ∷ t)
unfolding one_line
extract_case_id-skip [] t h = rw (nil-append ("\n" ∷ t)) refl
extract_case_id-skip (c ∷ s) t h =
    let (free, rest) = after_label-free c s h in
    let none_here =
      subst (λ u. after_label "internal ref:" u ≡ none) (cons-append c s ("\n" ∷ t))
        (after_label-line "internal ref:" (c ∷ s) t refl free) in
    rw (cons-append c s ("\n" ∷ t)) (
      extract_case_id-cons c (s ++ ("\n" ∷ t)) (footer_at-none (c ∷ (s ++ ("\n" ∷ t))) none_here)
      ∙ extract_case_id-skip s t rest)

-- an id: letters, digits, dashes and underscores
unfoldable pub is_id : String → Bool
unfolding is_id_char
is_id [] = true
is_id (c ∷ s) = is_id_char c && is_id s

take_id-id : (s : String) → is_id s ≡ true → take_id s ≡ s
unfolding is_id take_id
take_id-id [] h = refl
take_id-id (c ∷ s) h = ground (arith, take_id-id s)

space-id : (c : Char) → is_id_char c ≡ true → is_space c ≡ false
unfolding is_id_char is_space
space-id c h = ground arith

is_id-head : (c : Char) (s : String) → is_id (c ∷ s) ≡ true → is_id_char c ≡ true
unfolding is_id
is_id-head c s h = ground arith

extract_case_id-found :
    (c : Char) (s id : String) → footer_at (c ∷ s) ≡ some id → extract_case_id (c ∷ s) ≡ some id
unfolding extract_case_id
extract_case_id-found c s id h = rw (extract_case_id, h) refl

id_of-id :
    (c : Char) (s : String) → is_id (c ∷ s) ≡ true → id_of (strip_start (c ∷ s)) ≡ some (c ∷ s)
unfolding strip_start id_of
id_of-id c s h =
    rw
      (
        strip_start,
        space-id c (is_id-head c s h),
        id_of,
        take_id-id (c ∷ s) h,
        str_eq-ne (c ∷ s) "" (λ e. cons≢nil e),
      )
      refl

footer-id :
    (c : Char) (s : String) → is_id (c ∷ s) ≡ true → extract_case_id (footer (c ∷ s)) ≡ some (c ∷ s)
unfolding footer extract_case_id footer_at after_label strip_start is_space
footer-id c s h =
    extract_case_id-found "I"
      ("n" ∷ "t" ∷ "e" ∷ "r" ∷ "n" ∷ "a" ∷ "l" ∷ " " ∷ "R" ∷ "e" ∷ "f" ∷ ":" ∷ " " ∷ c ∷ s) (c ∷ s)
      (id_of-id c s h)

-- Whatever the body, as long as what is left of it does not have the label "Internal Ref:", the case id
-- that is appended is the one that is extracted. The id is not empty and has letters, digits, dashes and
-- underscores alone.
pub extract_case_id-append_footer :
    (splitlines : String → List.List String) (body : String) (c : Char) (s : String)
    → is_id (c ∷ s) ≡ true
    → has_label (prefix body_size_cap (strip_footer splitlines body)) ≡ false
    → extract_case_id (append_footer splitlines body (c ∷ s)) ≡ some (c ∷ s)
unfolding append_footer footer
extract_case_id-append_footer splitlines body c s h free =
    extract_case_id-skip (prefix body_size_cap (strip_footer splitlines body)) _ free
    ∙ footer-id c s h
