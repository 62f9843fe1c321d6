-- ===== src/Base/Lists.antt =====
-- Lists measured by native numbers, and lists split by a Boolean test.
use Prim.Native.Nat.{ℕ, zero, suc, ◌+◌, ◌≤◌}
use mathlib.Core.Path.{◌≡◌, refl, sym, ◌∙◌, ap, subst}
use mathlib.Core.Bool.{Bool, true, false, ◌||◌, false≢true}
use mathlib.Core.Option.{Option, none, some}
use mathlib.Core.List.{List, [], ◌∷◌, ◌++◌, Memᴰ, map}
use native.Mathlib.Omega.{arith}
use package.support_triage_llm.Base.Tests.{if◌then◌else◌}

module _ {ℓ} {A : Type ℓ} where
  abbrev pub length : List A → ℕ
  length [] = 0
  length (x ∷ xs) = suc (length xs)

  abbrev pub take : ℕ → List A → List A
  take zero xs = []
  take (suc n) [] = []
  take (suc n) (x ∷ xs) = x ∷ take n xs

  abbrev pub All {κ} : (A → Type κ) → List A → Type κ
  All P [] = Unit
  All P (x ∷ xs) = P x × All P xs

  -- [x for x in xs if test(x)]
  abbrev pub keep : (A → Bool) → List A → List A
  keep test [] = []
  keep test (x ∷ xs) = let rest = keep test xs in if test x then x ∷ rest else rest

  -- any(test(x) for x in xs)
  abbrev pub any : (A → Bool) → List A → Bool
  any test [] = false
  any test (x ∷ xs) = test x || any test xs

  -- next((x for x in xs if test(x)), None)
  abbrev pub first : (A → Bool) → List A → Option A
  first test [] = none
  first test (x ∷ xs) = let rest = first test xs in if test x then some x else rest

  pub length-append : (xs ys : List A) → length (xs ++ ys) ≡ length xs + length ys
  length-append [] ys = omega arith
  length-append (x ∷ xs) ys = omega (arith, length-append xs ys)

module _ {ℓ} {A : Type ℓ} where
  pub length-keep-le : (test : A → Bool) (xs : List A) → length (keep test xs) ≤ length xs
  length-keep-le test [] = omega arith
  length-keep-le test (x ∷ xs) = ground (arith, length-keep-le test xs)

  pub length-take-le : (n : ℕ) (xs : List A) → length (take n xs) ≤ n
  length-take-le zero xs = omega arith
  length-take-le (suc n) [] = omega arith
  length-take-le (suc n) (x ∷ xs) = omega (arith, length-take-le n xs)

module _ {ℓ} {A : Type ℓ} where
  pub keep-append :
      (test : A → Bool) (xs ys : List A) → keep test (xs ++ ys) ≡ keep test xs ++ keep test ys
  keep-append test [] ys = refl
  keep-append test (x ∷ xs) ys = ground (arith, keep-append test xs ys)

  pub any-append :
      (test : A → Bool) (xs ys : List A) → any test (xs ++ ys) ≡ (any test xs || any test ys)
  any-append test [] ys = refl
  any-append test (x ∷ xs) ys = ground (arith, any-append test xs ys)

module _ {ℓ κ} {A : Type ℓ} (P : A → Type κ) where
  All-if : (b : Bool) (x : A) (xs : List A) → P x → All P xs → All P (if b then x ∷ xs else xs)
  All-if true x xs p h = (p, h)
  All-if false x xs p h = h

  -- What holds of every element holds of those kept.
  pub All-keep : (test : A → Bool) (xs : List A) → All P xs → All P (keep test xs)
  All-keep test [] h = tt
  All-keep test (x ∷ xs) h = All-if (test x) x (keep test xs) h.0 (All-keep test xs h.1)

  pub All-append : (xs ys : List A) → All P xs → All P ys → All P (xs ++ ys)
  All-append [] ys h k = k
  All-append (x ∷ xs) ys h k = (h.0, All-append xs ys h.1 k)

-- The kept elements pass the test.
pub All-keep_test {ℓ} :
    {A : Type ℓ} (test : A → Bool) (xs : List A) → All (λ x. test x ≡ true) (keep test xs)
All-keep_test test [] = tt
All-keep_test test (x ∷ xs) = keep_cons (test x) (All-keep_test test xs) refl
  where
    keep_cons :
        (b : Bool)
        → All (λ y. test y ≡ true) (keep test xs)
        → test x ≡ b
        → All (λ y. test y ≡ true) (if b then x ∷ keep test xs else keep test xs)
    keep_cons true h e = (e, h)
    keep_cons false h e = h

pub All-map {ℓ κ μ} :
    {A : Type ℓ} {P : A → Type κ} {Q : A → Type μ} (xs : List A)
    → ((x : A) → P x → Q x)
    → All P xs
    → All Q xs
All-map [] f h = tt
All-map (x ∷ xs) f h = (f x h.0, All-map xs f h.1)

-- What no element passes, none of them passes.
pub All-any-false {ℓ} :
    {A : Type ℓ} (test : A → Bool) (xs : List A)
    → any test xs ≡ false
    → All (λ x. test x ≡ false) xs
All-any-false test [] h = tt
All-any-false test (x ∷ xs) h = (ground arith, All-any-false test xs (ground arith))

-- No element is kept exactly when none passes the test.
pub keep-nil {ℓ} :
    {A : Type ℓ} (test : A → Bool) (xs : List A) → keep test xs ≡ [] → All (λ x. test x ≡ false) xs
keep-nil test [] h = tt
keep-nil test (x ∷ xs) h = (ground arith, keep-nil test xs (ground arith))

-- What holds of the kept elements holds of every element that passes the test.
pub All-of_keep {ℓ κ} :
    {A : Type ℓ} (P : A → Type κ) (test : A → Bool) (xs : List A)
    → All P (keep test xs)
    → All (λ x. test x ≡ true → P x) xs
All-of_keep P test [] h = tt
All-of_keep P test (x ∷ xs) h = split (test x) refl h (All-of_keep P test xs)
  where
    split :
        (b : Bool)
        → test x ≡ b
        → All P (if b then x ∷ keep test xs else keep test xs)
        → (All P (keep test xs) → All (λ y. test y ≡ true → P y) xs)
        → All (λ y. test y ≡ true → P y) (x ∷ xs)
    split true e k rest = (λ _. k.0, rest k.1)
    split false e k rest = (λ p. absurd (false≢true (sym e ∙ p)), rest k)

-- No element is kept where none passes the test.
pub keep-none {ℓ} :
    {A : Type ℓ} (test : A → Bool) (xs : List A) → All (λ x. test x ≡ false) xs → keep test xs ≡ []
keep-none test [] h = refl
keep-none test (x ∷ xs) h = rw h.0 (keep-none test xs h.1)

-- Every element is a member, and what holds of every element holds of a member.
pub All-Memᴰ {ℓ} : {A : Type ℓ} (xs : List A) → All (λ x. Memᴰ x xs) xs
All-Memᴰ [] = tt
All-Memᴰ (x ∷ xs) = (Memᴰ.head refl, All-map xs (λ y m. Memᴰ.tail m) (All-Memᴰ xs))

pub Memᴰ-All {ℓ κ} :
    {A : Type ℓ} (P : A → Type κ) {x : A} (xs : List A) → Memᴰ x xs → All P xs → P x
Memᴰ-All P [] m h = elim m [ ]
Memᴰ-All P (y ∷ xs) (Memᴰ.head p) h = subst P (sym p) h.0
Memᴰ-All P (y ∷ xs) (Memᴰ.tail m) h = Memᴰ-All P xs m h.1

pub length-map {ℓ κ} :
    {A : Type ℓ} {B : Type κ} (f : A → B) (xs : List A) → length (map f xs) ≡ length xs
length-map f [] = refl
length-map f (x ∷ xs) = omega (arith, length-map f xs)

-- What holds of the lists of both branches holds of an if between them.
pub All-if_else {ℓ κ} :
    {A : Type ℓ} (P : A → Type κ) (b : Bool) (xs ys : List A)
    → All P xs
    → All P ys
    → All P (if b then xs else ys)
All-if_else P true xs ys h k = h
All-if_else P false xs ys h k = k

pub All-pair {ℓ κ μ} :
    {A : Type ℓ} (P : A → Type κ) (Q : A → Type μ) (xs : List A)
    → All P xs
    → All Q xs
    → All (λ x. P x × Q x) xs
All-pair P Q [] h k = tt
All-pair P Q (x ∷ xs) (p, h) (q, k) = ((p, q), All-pair P Q xs h k)

pub append_assoc {ℓ} : {A : Type ℓ} (xs ys zs : List A) → (xs ++ ys) ++ zs ≡ xs ++ (ys ++ zs)
append_assoc [] ys zs = refl
append_assoc (x ∷ xs) ys zs = ap (λ r. x ∷ r) (append_assoc xs ys zs)

pub append_nil {ℓ} : {A : Type ℓ} (xs : List A) → xs ++ [] ≡ xs
append_nil [] = refl
append_nil (x ∷ xs) = ap (λ r. x ∷ r) (append_nil xs)
