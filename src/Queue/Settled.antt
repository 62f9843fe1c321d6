-- ===== src/Queue/Settled.antt =====
-- Long runs of the queue, of calls that do not overlap: rows that no worker gets back, and final statuses.
use support_triage_llm.Base.{
  String, ℕ, ◌≡◌, refl, sym, ap, ◌∙◌, Bool, true, some, List, [], ◌∷◌, arith, not, ◌||◌, str_eq,
  eq_iff, All, ◌⊎◌, inl, inr, Bool-cases,
}
use mathlib.Core.Path.{subst}
use support_triage_llm.Values.{Value}
use support_triage_llm.Queue.Schema.{member, allowed_from}
use support_triage_llm.Queue.Rows.{Table}
use support_triage_llm.Queue.WellFormed.{WellFormed}
use support_triage_llm.Queue.Update.{Legal}
use support_triage_llm.Queue.Steps.{Step, Step-WellFormed, Step-Legal, status_of}

-- What holds of every name holds of a member.
member-All {ℓ} :
    (P : String → Type ℓ) (s : String) (names : List String)
    → member s names ≡ true
    → All P names
    → P s
unfolding member
member-All P s [] m h = absurd (ground arith)
member-All P s (n ∷ names) m h = elim (Bool-cases (str_eq n s)) [
  | inl e ↦ subst P ((eq_iff n s).0 e) h.0
  | inr e ↦ member-All P s names (rw e at m) h.1
]

-- neither waiting in the queue nor held by a worker
abbrev pub settled : String → Bool
settled s = not (str_eq s "queued" || str_eq s "processing")

settled-allowed_from :
    (a : String) → settled a ≡ true → All (λ b. settled b ≡ true) (allowed_from a)
unfolding allowed_from
settled-allowed_from a h = ground arith

Legal-settled : (a b : String) → Legal a b → settled a ≡ true → settled b ≡ true
Legal-settled a b (inl e) h = subst (λ s. settled s ≡ true) (sym e) h
Legal-settled a b (inr m) h =
    member-All (λ s. settled s ≡ true) b (allowed_from a) m (settled-allowed_from a h)

final :
    (f : String)
    → (f ≡ "dead_letter") ⊎ (f ≡ "delivered")
    → (a b : String) → Legal a b
    → a ≡ f
    → b ≡ f
unfolding member allowed_from
final f h a b (inl e) at = e ∙ at
final f (inl d) a b (inr m) at =
    member-All (λ s. s ≡ f) b (allowed_from a) m (rw (at, d) (refl, tt))
final f (inr d) a b (inr m) at =
    member-All (λ s. s ≡ f) b (allowed_from a) m (rw (at, d) (refl, tt))

module _ (sha256 : String → String) (iso : ℕ → String) (dumps : Value → String) where
  pub data Reach (t : Table) : Table → Type 0 where
    here : Reach t t
    next : {u v : Table} → Reach t u → Step sha256 iso dumps u v → Reach t v

  -- a set of statuses that the status graph does not leave
  module _ (P : String → Type 0) (closed : (a b : String) → Legal a b → P a → P b) where
    Reach-closed :
        {t u : Table}
        → Reach t u
        → WellFormed t
        → (i : ℕ) (a : String) → status_of i t ≡ some a
        → P a
        → WellFormed u × ((b : String) × (status_of i u ≡ some b) × P b)
    Reach-closed here w i a e p = (w, (a, e, p))
    Reach-closed (next r s) w i a e p =
        let (w', (b, at, q)) = Reach-closed r w i a e p in
        let (c, at', legal) = Step-Legal sha256 iso dumps s w' i b at in
        (Step-WellFormed sha256 iso dumps s w', (c, at', closed b c legal q))

  -- A row that has left `queued` and `processing` never comes back to them through any sequence of
  -- insert_message, claim_row, update_row_status and set_learning_eligible calls of which each ends
  -- before the next begins, so no claim in such a sequence takes it again. The table is well formed
  -- at the start.
  pub Reach-settled :
      (t u : Table)
      → Reach t u
      → WellFormed t
      → (i : ℕ) (a : String) → status_of i t ≡ some a
      → settled a ≡ true
      → (b : String) × (status_of i u ≡ some b) × (settled b ≡ true)
  Reach-settled t u r w i a e h = (Reach-closed (λ s. settled s ≡ true) Legal-settled r w i a e h).1

  -- `dead_letter` and `delivered` are final in every sequence of calls that do not overlap.
  pub Reach-final :
      (t u : Table)
      → Reach t u
      → WellFormed t
      → (i : ℕ) (a : String) → status_of i t ≡ some a
      → (a ≡ "dead_letter") ⊎ (a ≡ "delivered")
      → status_of i u ≡ some a
  Reach-final t u r w i a e h =
      let (_, (b, at, same)) = Reach-closed (λ s. s ≡ a) (final a h) r w i a e refl in
      at ∙ ap some same
