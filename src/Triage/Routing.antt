-- ===== src/Triage/Routing.antt =====
-- The severity that a triage ends with.
use support_triage_llm.Base.{
  ℕ, inl, inr, String, ◌≡◌, refl, sym, Bool, true, false, not, ◌&&◌, ◌||◌, Option, none, some, ltb,
  Result, ok, err, ok-injective, str_eq-ne, ◌≢◌, Bool-cases, arith, if◌then◌else◌, str_eq,
}
use support_triage_llm.Base.Text.{lower}
use support_triage_llm.Triage.Extract.{Failure, TriageError}
use support_triage_llm.Triage.Payload.{Window, Payload, text_or}
use support_triage_llm.Triage.Time.{sanitize_time_window, is_implausible, lowered}
use support_triage_llm.Triage.Rules.{
  apply_confidence_routing, requires_more_info, is_severe, time_confidence, missing_scope,
}
use support_triage_llm.Triage.Model.{Libraries, Subject, Triaged, triage_heuristic, triage_llm}
use support_triage_llm.Triage.Finish.{
  Outcome, window_or, keep_redactions, finish_window, finish_triage, triage,
}

-- Keeping the redactions changes the symptoms and the draft alone.
keep_redactions-rest :
    (text : String) (applied : Bool) (p : Payload)
    → ((keep_redactions text applied p).severity ≡ p.severity)
      × ((keep_redactions text applied p).time_window ≡ p.time_window)
      × ((keep_redactions text applied p).scope ≡ p.scope)
unfolding keep_redactions
keep_redactions-rest text applied p = elim (Bool-cases (applied && not (str_eq text ""))) [
  | inl e ↦ rw (keep_redactions, e) (refl, refl, refl)
  | inr e ↦ rw (keep_redactions, e) (refl, refl, refl)
]

medium_if :
    (b : Bool) (s : Option String)
    → is_severe s ≡ b
    → is_severe (if b then some "medium" else s) ≡ false
unfolding is_severe text_or lower
medium_if true s e = refl
medium_if false s e = e

text_or-some : (start : String) → start ≢ "" → text_or (some start) "" ≡ start
unfolding text_or
text_or-some start ne = rw (str_eq-ne start "" ne) refl

module _ (l : Libraries) (s : Subject) (applied : Bool) (anchor : ℕ) (case_id : String) where
  -- Routing changes the severity and the questions alone, and leaves no weak triage severe.
  routing-weak :
      (p : Payload)
      → (requires_more_info (apply_confidence_routing s.seen p) ≡ true)
      → is_severe (apply_confidence_routing s.seen p).severity ≡ false
  unfolding apply_confidence_routing requires_more_info
  routing-weak p weak = elim (Bool-cases (requires_more_info p)) [
    | inl e ↦ rw (apply_confidence_routing, e) (medium_if (is_severe p.severity) p.severity refl)
    | inr e ↦ absurd (cc (rw (apply_confidence_routing, e) at weak, e))
  ]

  routing-sure :
      (p : Payload) → requires_more_info p ≡ false → apply_confidence_routing s.seen p ≡ p
  unfolding apply_confidence_routing
  routing-sure p e = rw (apply_confidence_routing, e) refl

  sanitize_time_window-plain :
      (explicit : Bool) (w : Window)
      → (sanitize_time_window l.calendar anchor explicit w).1 ≡ false
      → (sanitize_time_window l.calendar anchor explicit w).0 ≡ w
  unfolding sanitize_time_window
  sanitize_time_window-plain explicit w h =
      elim (Bool-cases (
        not (str_eq (text_or w.start "") "")
        && (not explicit && is_implausible l.calendar anchor (text_or w.start "")))) [
          | inl e ↦ absurd (cc (rw (sanitize_time_window, e) at h))
          | inr e ↦ rw (sanitize_time_window, e) refl
        ]

  needs_window :
      (w : Option Window) (m : Bool)
      → (ltb (time_confidence (some (window_or w))) 30 || m) ≡ true
      → (ltb (time_confidence w) 30 || m) ≡ true
  unfolding window_or time_confidence
  needs_window none m h = refl
  needs_window (some w) m h = h

  -- An outcome whose window stands as it was asks for more exactly when its payload did.
  finish_window-weak :
      (source : String) (t : Triaged) (p : Payload)
      → (finish_window l s applied anchor case_id source t p).meta.time_window_sanity_overridden
        ≡ false
      → requires_more_info (finish_window l s applied anchor case_id source t p).payload ≡ true
      → requires_more_info p ≡ true
  unfolding finish_window requires_more_info
  finish_window-weak source t p plain weak =
      let w =
        (sanitize_time_window l.calendar anchor s.seen.has_explicit_date
          (window_or p.time_window)).0 in
      let (_, window, scope) =
        keep_redactions-rest s.text applied (record p { time_window = some w }) in
      let same =
        sanitize_time_window-plain s.seen.has_explicit_date (window_or p.time_window) plain in
      needs_window p.time_window (missing_scope p.scope) (rw (window, scope, same) at weak)

  finish_window-severity :
      (source : String) (t : Triaged) (p : Payload)
      → (finish_window l s applied anchor case_id source t p).payload.severity ≡ p.severity
  unfolding finish_window
  finish_window-severity source t p =
      (keep_redactions-rest s.text applied (record p { time_window = _ })).0

  finish_triage-weak :
      (source : String) (t : Result TriageError Triaged) (out : Outcome)
      → finish_triage l s applied anchor case_id source t ≡ ok out
      → out.meta.time_window_sanity_overridden ≡ false
      → requires_more_info out.payload ≡ true
      → is_severe out.payload.severity ≡ false
  unfolding finish_triage
  finish_triage-weak source (err e) out h plain weak = cc
  finish_triage-weak source (ok t) out h plain weak =
      let q = apply_confidence_routing s.seen t.payload in
      let e = sym (ok-injective (finish_window l s applied anchor case_id source t q) out h) in
      rw (e, finish_window-severity source t q)
        (routing-weak t.payload (finish_window-weak source t q (rw e at plain) (rw e at weak)))

  -- A triage whose window stands as it was, and whose window or scope is weak, is not critical and not
  -- high: the confidence of its window is below 0.3, or it names no tenant and no recipient domain.
  pub triage-weak :
      (is_llm : Bool) (call : ℕ → String → Result Failure String) (base : String) (out : Outcome)
      → triage l s applied anchor case_id is_llm call base ≡ ok out
      → out.meta.time_window_sanity_overridden ≡ false
      → requires_more_info out.payload ≡ true
      → is_severe out.payload.severity ≡ false
  unfolding triage
  triage-weak true call base out h = finish_triage-weak "llm" (triage_llm l s call base) out h
  triage-weak false call base out h = finish_triage-weak "heuristic" (triage_heuristic l s) out h

  lowered-small : (n : Option ℕ) → ltb (lowered n) 30 ≡ true
  unfolding lowered
  lowered-small none = refl
  lowered-small (some n) = ground arith

  sanitize_time_window-overridden :
      (w : Window) (start : String)
      → text_or w.start "" ≡ start
      → str_eq start "" ≡ false
      → s.seen.has_explicit_date ≡ false
      → is_implausible l.calendar anchor start ≡ true
      → sanitize_time_window l.calendar anchor s.seen.has_explicit_date w
        ≡ (record { start = none; end = none; confidence = some (lowered w.confidence) }, true)
  unfolding sanitize_time_window
  sanitize_time_window-overridden w start at ne explicit far =
      rw (sanitize_time_window, at, ne, explicit, far) refl

  finish_window-overridden :
      (source : String) (t : Triaged) (p : Payload) (w : Window) (start : String)
      → p.time_window ≡ some w
      → text_or w.start "" ≡ start
      → str_eq start "" ≡ false
      → s.seen.has_explicit_date ≡ false
      → is_implausible l.calendar anchor start ≡ true
      → ((finish_window l s applied anchor case_id source t p).meta.time_window_sanity_overridden
          ≡ true)
        × (requires_more_info (finish_window l s applied anchor case_id source t p).payload ≡ true)
  unfolding finish_window requires_more_info window_or time_confidence
  finish_window-overridden source t p w start window at ne explicit far =
      let after = sanitize_time_window-overridden w start at ne explicit far in
      let v =
        (sanitize_time_window l.calendar anchor s.seen.has_explicit_date
          (window_or p.time_window)).0 in
      let (_, kept, _) = keep_redactions-rest s.text applied (record p { time_window = some v }) in
      (rw (window, after) refl, rw (kept, window, after, lowered-small w.confidence) refl)

  -- A triage whose window was overridden because its start is implausible keeps the severity that it
  -- had, although its window is then weak: the severity was routed by the confidence before.
  pub finish_triage-overridden :
      (source : String) (t : Triaged) (w : Window) (start : String)
      → requires_more_info t.payload ≡ false
      → t.payload.time_window ≡ some w
      → w.start ≡ some start
      → start ≢ ""
      → s.seen.has_explicit_date ≡ false
      → is_implausible l.calendar anchor start ≡ true
      → (out : Outcome) × (finish_triage l s applied anchor case_id source (ok t) ≡ ok out)
        × (out.meta.time_window_sanity_overridden ≡ true)
        × (requires_more_info out.payload ≡ true)
        × (out.payload.severity ≡ t.payload.severity)
  unfolding finish_triage
  finish_triage-overridden source t w start sure window at ne explicit far =
      let same = routing-sure t.payload sure in
      let (overridden, weak) =
        finish_window-overridden source t t.payload w start window (rw at (text_or-some start ne))
          (str_eq-ne start "" ne) explicit far in
      (
        finish_window l s applied anchor case_id source t t.payload,
        rw (finish_triage, same) refl,
        overridden,
        weak,
        finish_window-severity source t t.payload,
      )
