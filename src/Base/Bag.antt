-- ===== src/Base/Bag.antt =====
-- A list of pointers whose order is forgotten.
use Prim.Native.Nat.{ℕ, ◌+◌, ◌<◌}
use mathlib.Core.Path.{◌≡◌, refl, subst, ◌∙◌}
use mathlib.Core.Logic.{∥∥₁_elim, inl, inr}
use mathlib.Core.List.{List, [], ◌∷◌, Perm, Permᴰ}
use mathlib.Core.Quot
use mathlib.Core.Quot.{Quot, Quot-set}
use native.Mathlib.Nat.{ℕ_set}
use native.Mathlib.Omega.{arith}
use os_pintos.Base.Tests.{◌==◌, if◌then◌else◌, Bool-cases, none_below}
use os_pintos.Base.Lists.{All}

abbrev pub count : ℕ → List ℕ → ℕ
count a [] = 0
count a (x ∷ xs) = (if x == a then 1 else 0) + count a xs

-- The lists hold the same pointers, as often.
abbrev pub SameItems : List ℕ → List ℕ → Type 0
SameItems xs ys = (a : ℕ) → count a xs ≡ count a ys

count_same : {xs ys : List ℕ} (a : ℕ) → Permᴰ xs ys → count a xs ≡ count a ys
count_same a Permᴰ.nil = refl
count_same a (Permᴰ.cons e d) = rw (e, count_same a d) refl
count_same a (Permᴰ.swap e f) = rw (e, f) (omega arith)
count_same a (Permᴰ.trans d e) = count_same a d ∙ count_same a e

pub SameItems-Perm : (xs ys : List ℕ) → Perm xs ys → SameItems xs ys
SameItems-Perm xs ys h a = ∥∥₁_elim h (ℕ_set _ _) (λ d. count_same a d)

abbrev pub Bag : Type 0
Bag = Quot SameItems

abbrev pub bag_of : List ℕ → Bag
bag_of xs = Quot.mk xs

unfoldable pub occurrences : ℕ → Bag → ℕ
occurrences a = Quot.lift ℕ_set (count a) (λ xs ys h. h a)

pub SameItems-cons : (x : ℕ) (xs ys : List ℕ) → SameItems xs ys → SameItems (x ∷ xs) (x ∷ ys)
SameItems-cons x xs ys h a = omega (arith, h a)

unfoldable pub put : ℕ → Bag → Bag
put x =
    Quot.lift Quot-set (λ xs. Quot.mk (x ∷ xs)) (λ xs ys h. Quot.sound (SameItems-cons x xs ys h))

pub bag_of-Perm : (xs ys : List ℕ) → Perm xs ys → bag_of xs ≡ bag_of ys
bag_of-Perm xs ys h = Quot.sound (SameItems-Perm xs ys h)

pub put-bag_of : (x : ℕ) (xs : List ℕ) → put x (bag_of xs) ≡ bag_of (x ∷ xs)
unfolding put
put-bag_of x xs = refl

-- What holds of every element of a list holds of each pointer that occurs in its bag.
pub occurrences-All :
    (P : ℕ → Type 0) (xs : List ℕ) (a : ℕ) → All P xs → 0 < occurrences a (bag_of xs) → P a
unfolding occurrences
occurrences-All P [] a h n = elim (none_below n) [ ]
occurrences-All P (x ∷ xs) a (hx, h) n = elim (Bool-cases (x == a)) [
  | inl same ↦ subst P (ground arith) hx
  | inr other ↦ occurrences-All P xs a h (ground arith)
]
