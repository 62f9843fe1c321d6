-- ===== src/Feedback/Examples.antt =====
-- Footers of some bodies.
use mathlib.Core.List
use support_triage_llm.Base.Text.{prefix}
use support_triage_llm.Base.{String, ◌≡◌, refl, some}
use support_triage_llm.Feedback.Footer.{extract_case_id, append_footer, body_size_cap, strip_footer}
use support_triage_llm.Feedback.RoundTrip.{extract_case_id-append_footer, has_label, is_id}

found_test : extract_case_id "Hello\nINTERNAL ref: ab-1 x" ≡ some "ab-1"
unfolding extract_case_id
found_test = refl

-- A label without an id is tied to the dashes of the footer that follows it.
dashes_test : extract_case_id "see Internal Ref:\n\n--\nInternal Ref: ab-1" ≡ some "--"
unfolding extract_case_id
dashes_test = refl

-- `splitlines` of a text of one line
abbrev one_line : String → List.List String
one_line s = List.◌∷◌ s List.[]

extract_case_id-append_footer_example :
    extract_case_id (append_footer one_line "Thanks, all is well." "ab-1") ≡ some "ab-1"
unfolding is_id has_label prefix body_size_cap strip_footer
extract_case_id-append_footer_example =
    extract_case_id-append_footer one_line "Thanks, all is well." "a" "b-1" refl refl
