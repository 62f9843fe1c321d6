-- ===== src/Worker/DedupeLaws.antt =====
-- The capped deduplication of request ids and error codes, against a plain description.
use support_triage_llm.Base.{
  ℕ, zero, suc, ◌≤◌, ◌<◌, String, ◌≡◌, refl, sym, ◌∙◌, ap, true, false, inl, inr, List, [], ◌∷◌,
  ◌++◌, length, length-append, append_assoc, append_nil, take, leb, leb→le, Bool-cases,
  if◌then◌else◌, arith,
}
use support_triage_llm.Queue.Schema.{member}
use support_triage_llm.Worker.Select.{dedupe_cap, dedupe_cap_from}

-- the values that are not among those seen, each at its first place
unfoldable pub fresh : List String → List String → List String
unfolding member
fresh seen [] = []
fresh seen (v ∷ values) =
    let later = fresh seen values in
    let next = fresh (seen ++ (v ∷ [])) values in if member v seen then later else v ∷ next

take-all : {A : Type 0} (n : ℕ) (xs : List A) → length xs ≤ n → take n xs ≡ xs
take-all zero [] h = refl
take-all zero (x ∷ xs) h = absurd (omega arith)
take-all (suc n) [] h = refl
take-all (suc n) (x ∷ xs) h = ap (λ r. x ∷ r) (take-all n xs (omega arith))

take-length : {A : Type 0} (n : ℕ) (xs ys : List A) → length xs ≡ n → take n (xs ++ ys) ≡ xs
take-length zero [] [] h = refl
take-length zero [] (y ∷ ys) h = refl
take-length zero (x ∷ xs) ys h = absurd (omega arith)
take-length (suc n) [] ys h = absurd (omega arith)
take-length (suc n) (x ∷ xs) ys h = ap (λ r. x ∷ r) (take-length n xs ys (omega arith))

below : (c n : ℕ) → n < c → leb c n ≡ false
below c n k = ground arith

room_left : (c n : ℕ) → leb c n ≡ false → n < c
room_left c n k = ground arith

cut :
    (cap : ℕ) (seen : List String) (v : String) (rest : List String)
    → length seen < cap
    → leb cap (length (seen ++ (v ∷ []))) ≡ true
    → take cap (seen ++ (v ∷ rest)) ≡ seen ++ (v ∷ [])
cut cap seen v rest h full =
    ap (take cap) (sym (append_assoc seen (v ∷ []) rest))
    ∙ take-length cap (seen ++ (v ∷ [])) rest
        (omega (arith, length-append seen (v ∷ []), leb→le cap (length (seen ++ (v ∷ []))) full))

dedupe_cap_from_lem :
    (cap : ℕ) (seen values : List String)
    → length seen < cap
    → dedupe_cap_from cap seen values ≡ take cap (seen ++ fresh seen values)
unfolding dedupe_cap_from fresh
dedupe_cap_from_lem cap seen [] h = rw (append_nil seen) (sym (take-all cap seen (omega arith)))
dedupe_cap_from_lem cap seen (v ∷ values) h = elim (Bool-cases (member v seen)) [
  | inl e ↦
      rw (dedupe_cap_from, fresh, e, below cap (length seen) h)
        (dedupe_cap_from_lem cap seen values h)
  | inr e ↦ elim (Bool-cases (leb cap (length (seen ++ (v ∷ []))))) [
    | inl full ↦
        rw (dedupe_cap_from, fresh, e, full)
          (sym (cut cap seen v (fresh (seen ++ (v ∷ [])) values) h full))
    | inr room ↦
        rw (dedupe_cap_from, fresh, e, room)
          (dedupe_cap_from_lem cap (seen ++ (v ∷ [])) values
              (room_left cap (length (seen ++ (v ∷ []))) room)
            ∙ ap (take cap) (append_assoc seen (v ∷ []) (fresh (seen ++ (v ∷ [])) values)))
  ]
]

-- The capped deduplication is the list of the distinct values in the order of their first places, cut at
-- the cap, where the cap is not 0.
pub dedupe_cap_lem :
    (cap : ℕ) (values : List String) → 0 < cap → dedupe_cap cap values ≡ take cap (fresh [] values)
unfolding dedupe_cap
dedupe_cap_lem cap values h = dedupe_cap_from_lem cap [] values h
