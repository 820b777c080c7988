-- ===== src/Base/Sorted.antt =====
-- Lists in the order of a Boolean comparison: no element is less than the one before it.
use Prim.Native.Nat.{ℕ}
use mathlib.Core.Path.{◌≡◌}
use mathlib.Core.Bool.{Bool, true, false}
use mathlib.Core.List.{List, [], ◌∷◌}

abbrev pub HeadOk : (ℕ → ℕ → Bool) → ℕ → List ℕ → Type 0
HeadOk less x [] = Unit
HeadOk less x (y ∷ ys) = less y x ≡ false

abbrev pub IsSorted : (ℕ → ℕ → Bool) → List ℕ → Type 0
IsSorted less [] = Unit
IsSorted less (x ∷ xs) = HeadOk less x xs × IsSorted less xs

-- No two elements are each less than the other.
abbrev pub IsAsym : (ℕ → ℕ → Bool) → Type 0
IsAsym less = (a b : ℕ) → less a b ≡ true → less b a ≡ false

-- What is not less than something that is not less than a third is not less than the third.
abbrev pub IsNegTrans : (ℕ → ℕ → Bool) → Type 0
IsNegTrans less = (a b c : ℕ) → less a b ≡ false → less b c ≡ false → less a c ≡ false
