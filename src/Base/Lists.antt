-- ===== src/Base/Lists.antt =====
-- Lists of pointers, measured by native numbers.
use Prim.Native.Nat.{ℕ, zero, suc, ◌+◌}
use mathlib.Core.Path.{◌≡◌, refl, sym, ap, ap₂, subst}
use mathlib.Core.Logic.{inl, inr}
use mathlib.Core.Bool.{Bool, true, false, ◌||◌}
use mathlib.Core.List.{List, [], ◌∷◌, ◌++◌}
use native.Mathlib.Omega.{arith}
use os_pintos.Base.Tests.{◌==◌, if◌then◌else◌, Bool-cases}

module _ {ℓ} {A : Type ℓ} where
  abbrev pub length : List A → ℕ
  length [] = 0
  length (x ∷ xs) = suc (length xs)

  abbrev pub is_empty : List A → Bool
  is_empty [] = true
  is_empty (x ∷ xs) = false

  abbrev pub take : ℕ → List A → List A
  take zero xs = []
  take (suc n) [] = []
  take (suc n) (x ∷ xs) = x ∷ take n xs

  pub length-append : (xs ys : List A) → length (xs ++ ys) ≡ length xs + length ys
  length-append [] ys = omega arith
  length-append (x ∷ xs) ys = omega (arith, length-append xs ys)

-- A predicate that holds of every element.
abbrev pub All {ℓ κ} : {A : Type ℓ} → (A → Type κ) → List A → Type κ
All P [] = Unit
All P (x ∷ xs) = P x × All P xs

pub All-append {ℓ κ} :
    {A : Type ℓ} (P : A → Type κ) (xs ys : List A) → All P xs → All P ys → All P (xs ++ ys)
All-append P [] ys hx hy = hy
All-append P (x ∷ xs) ys hx hy = (hx.0, All-append P xs ys hx.1 hy)

pub All-left {ℓ κ} : {A : Type ℓ} (P : A → Type κ) (xs ys : List A) → All P (xs ++ ys) → All P xs
All-left P [] ys h = tt
All-left P (x ∷ xs) ys h = (h.0, All-left P xs ys h.1)

pub All-right {ℓ κ} : {A : Type ℓ} (P : A → Type κ) (xs ys : List A) → All P (xs ++ ys) → All P ys
All-right P [] ys h = h
All-right P (x ∷ xs) ys h = All-right P xs ys h.1

-- The elements that pass a test, in order.
abbrev pub keep {ℓ} : {A : Type ℓ} → (A → Bool) → List A → List A
keep test [] = []
keep test (x ∷ xs) = if test x then x ∷ keep test xs else keep test xs

pub keep-append {ℓ} :
    {A : Type ℓ} (test : A → Bool) (xs ys : List A)
    → keep test (xs ++ ys) ≡ keep test xs ++ keep test ys
keep-append test [] ys = refl
keep-append test (x ∷ xs) ys = ground (arith, keep-append test xs ys)

-- Is a pointer on the list?
abbrev pub has : ℕ → List ℕ → Bool
has a [] = false
has a (x ∷ xs) = (a == x) || has a xs

false_not_true : ◌≡◌ {A = Bool} false true → ⊥
false_not_true h = cc h

-- The first place at which a pointer stands on a list.
pub has_splits :
    (a : ℕ) (l : List ℕ)
    → has a l ≡ true
    → (before : List ℕ) × (after : List ℕ) × (l ≡ before ++ a ∷ after) × (has a before ≡ false)
has_splits a [] h = elim (false_not_true h) [ ]
has_splits a (x ∷ l) h = elim (Bool-cases (a == x)) [
  | inl here ↦ ([], l, ground arith, refl)
  | inr other ↦
      let (before, after, e, new) = has_splits a l (ground arith) in
      (x ∷ before, after, ap (λ xs. x ∷ xs) e, ground arith)
]

-- What holds of all elements holds of one, and the other way round.
pub All-has {κ} : (P : ℕ → Type κ) (l : List ℕ) → All P l → (a : ℕ) → has a l ≡ true → P a
All-has P [] h a m = elim (false_not_true m) [ ]
All-has P (x ∷ l) h a m = elim (Bool-cases (a == x)) [
  | inl here ↦ subst P (ground arith) h.0
  | inr other ↦ All-has P l h.1 a (ground arith)
]

pub All-intro {κ} : (P : ℕ → Type κ) (l : List ℕ) → ((a : ℕ) → has a l ≡ true → P a) → All P l
All-intro P [] h = tt
All-intro P (x ∷ l) h = (h x (ground arith), All-intro P l (λ a m. h a (ground arith)))

pub no_cons : {l : List ℕ} {t : ℕ} {r : List ℕ} → l ≡ [] → l ≡ t ∷ r → ⊥
no_cons e q = cc (e, q)

pub cons_parts : {t u : ℕ} {r l : List ℕ} → t ∷ r ≡ u ∷ l → (t ≡ u) × (r ≡ l)
cons_parts e = (cc e, cc e)

not_nil : (l : List ℕ) (c : ℕ) → l ++ c ∷ [] ≡ [] → ⊥
not_nil [] c e = cc e
not_nil (x ∷ l) c e = cc e

-- The elements before the last one, and the last one.
pub last_parts : (q r : List ℕ) (c d : ℕ) → q ++ c ∷ [] ≡ r ++ d ∷ [] → (q ≡ r) × (c ≡ d)
last_parts [] [] c d e = (refl, (cons_parts e).0)
last_parts [] (y ∷ r) c d e = elim (not_nil r d (sym (cons_parts e).1)) [ ]
last_parts (x ∷ q) [] c d e = elim (not_nil q c (cons_parts e).1) [ ]
last_parts (x ∷ q) (y ∷ r) c d e =
    let (same, rest) = cons_parts e in
    let (before, last) = last_parts q r c d rest in (ap₂ (λ a b. a ∷ b) same before, last)

-- A list with an element behind it has a first one.
pub first_parts :
    (q : List ℕ) (c : ℕ)
    → (next : ℕ) × (rest : List ℕ) × (q ++ c ∷ [] ≡ next ∷ rest) × (length rest ≡ length q)
first_parts [] c = (c, [], refl, refl)
first_parts (x ∷ q) c = (x, q ++ c ∷ [], refl, omega (arith, length-append q (c ∷ [])))
