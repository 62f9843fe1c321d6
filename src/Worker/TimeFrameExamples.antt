-- ===== src/Worker/TimeFrameExamples.antt =====
-- Windows inferred over a toy format of instants, a text of that many characters.
use Prim.Native.String.{[], ◌∷◌, char_at}
use support_triage_llm.Base.{ℕ, zero, suc, String, ◌≡◌, refl, false, Option, some, arith}
use support_triage_llm.Worker.TimeFrame.{
  Asked, derive_query_time_window, frame, infer_end, reason_hint, reason_or,
}

ticks : String → ℕ
ticks [] = zero
ticks (c ∷ s) = suc (ticks s)

parse : String → Option ℕ
parse s = some (ticks s)

print : ℕ → String
print zero = []
print (suc n) = char_at "x" 0 ∷ print n

ticks-print : (t : ℕ) → ticks (print t) ≡ t
unfolding ticks print
ticks-print zero = refl
ticks-print (suc n) = omega (arith, ticks-print n)

parse-print : (t : ℕ) → parse (print t) ≡ some t
unfolding parse
parse-print t = rw (ticks-print t) refl

abbrev asked : Asked
asked = record {
  start = "xx";
  end = "";
  anchor = "";
  reason = "";
  sanity_overridden = false;
  source = "";
}

reason_test :
    (derive_query_time_window parse print 9 asked).reason ≡ "triage_time_window_inferred_end"
unfolding derive_query_time_window frame reason_or reason_hint infer_end parse
reason_test = refl
