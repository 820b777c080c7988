-- ===== src/Donation/Highest.antt =====
-- The highest of a priority and the priorities of some threads.
use os_pintos.Base.{
  ◌≡◌, ◌⊎◌, refl, ◌∙◌, true, false, Bool-cases, inl, inr, arith, if◌then◌else◌, List, [], ◌∷◌, ◌++◌,
  All, has,
}
use os_pintos.Base.Int.{ℤ, ◌≤ℤ◌, ltb_ℤ}
use os_pintos.Kernel.{Ptr, Thread, update}

abbrev pub higher : ℤ → ℤ → ℤ
higher p q = if ltb_ℤ p q then q else p

-- The highest of a priority and those of some threads.
abbrev pub highest : (Ptr → Thread) → ℤ → List Ptr → ℤ
highest s p [] = p
highest s p (w ∷ ws) = highest s (higher p (s w).priority) ws

pub highest-append :
    (s : Ptr → Thread) (p : ℤ) (xs ys : List Ptr)
    → highest s p (xs ++ ys) ≡ highest s (highest s p xs) ys
highest-append s p [] ys = refl
highest-append s p (x ∷ xs) ys = highest-append s (higher p (s x).priority) xs ys

pub highest_same :
    (s : Ptr → Thread) (t : Ptr) (th : Thread) (p : ℤ) (ws : List Ptr)
    → has t ws ≡ false
    → highest (update s t th) p ws ≡ highest s p ws
highest_same s t th p [] h = refl
highest_same s t th p (w ∷ ws) h =
    ground (arith, highest_same s t th p ws, highest_same s t th (s w).priority ws)

-- It is at least each of them.
pub highest-le : (s : Ptr → Thread) (p : ℤ) (ws : List Ptr) → p ≤ℤ highest s p ws
highest-le s p [] = omega arith
highest-le s p (w ∷ ws) = ground (arith, highest-le s p ws, highest-le s (s w).priority ws)

pub highest-All :
    (s : Ptr → Thread) (p : ℤ) (ws : List Ptr) → All (λ w. (s w).priority ≤ℤ highest s p ws) ws
highest-All s p [] = tt
highest-All s p (w ∷ ws) = (
  ground (arith, highest-le s p ws, highest-le s (s w).priority ws),
  highest-All s (higher p (s w).priority) ws,
)

-- And it is one of them.
pub highest_attained :
    (s : Ptr → Thread) (p : ℤ) (ws : List Ptr)
    → (highest s p ws ≡ p) ⊎ ((w : Ptr) × (has w ws ≡ true) × (highest s p ws ≡ (s w).priority))
highest_attained s p [] = inl refl
highest_attained s p (w ∷ ws) = elim (highest_attained s (higher p (s w).priority) ws) [
  | inr (v, at, e) ↦ inr (v, ground arith, e)
  | inl e ↦ elim (Bool-cases (ltb_ℤ p (s w).priority)) [
    | inl up ↦ inr (w, ground arith, e ∙ ground arith)
    | inr level ↦ inl (e ∙ ground arith)
  ]
]
