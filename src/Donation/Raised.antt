-- ===== src/Donation/Raised.antt =====
-- Threads whose priority a donation has raised, and how many are left below it.
use os_pintos.Base.{
  ℕ, ◌+◌, ◌≤◌, ◌<◌, ◌≡◌, ◌≢◌, refl, fun_ext, true, arith, if◌then◌else◌, List, [], ◌∷◌, All, has,
}
use os_pintos.Base.Int.{ℤ, ◌≤ℤ◌, ◌<ℤ◌, ltb_ℤ}
use os_pintos.Kernel.{Ptr, null, Thread, Kernel, update}
use os_pintos.Mlfqs.Priority.{with_priority}

-- How many of some threads have a priority below `p`.
abbrev pub below : (Ptr → Thread) → ℤ → List Ptr → ℕ
below s p [] = 0
below s p (t ∷ l) = (if ltb_ℤ (s t).priority p then 1 else 0) + below s p l

-- The threads after those of a chain have got the priority `p`.
abbrev pub raised : ℤ → List Ptr → (Ptr → Thread) → Ptr → Thread
raised p chain s t = if has t chain then with_priority p (s t) else s t

-- The holder of the lock that `t` waits for, if there is one, has at least the priority `p`.
abbrev pub Reached : Kernel → (Ptr → Thread) → ℤ → Ptr → Type 0
Reached k s p t =
    let lock = (k.threads t).waiting_lock in
    let holder = (k.locks lock).holder in lock ≢ null → holder ≢ null → p ≤ℤ (s holder).priority

pub below-le :
    (s : Ptr → Thread) (p : ℤ) (r : Ptr) (l : List Ptr)
    → below (update s r (with_priority p (s r))) p l ≤ below s p l
below-le s p r [] = omega arith
below-le s p r (t ∷ l) = ground (arith, below-le s p r l)

pub below-lt :
    (s : Ptr → Thread) (p : ℤ) (r : Ptr) (l : List Ptr)
    → has r l ≡ true
    → (s r).priority <ℤ p
    → below (update s r (with_priority p (s r))) p l < below s p l
below-lt s p r [] h q = cc
below-lt s p r (t ∷ l) h q = ground (arith, below-lt s p r l, below-le s p r l)

pub below_same :
    (s s' : Ptr → Thread) (p : ℤ) (l : List Ptr)
    → ((t : Ptr) → (s' t).priority ≡ (s t).priority)
    → below s' p l ≡ below s p l
below_same s s' p [] h = refl
below_same s s' p (t ∷ l) h = rw (h t, below_same s s' p l h)

pub raised_twice :
    (p : ℤ) (r : Ptr) (chain : List Ptr) (s : Ptr → Thread)
    → raised p chain (update s r (with_priority p (s r))) ≡ raised p (r ∷ chain) s
raised_twice p r chain s = fun_ext λ t. ground arith

-- What a donation of `p` to `receiver` comes to.
pub record Donated (k : Kernel) (p : ℤ) (receiver : Ptr) (chain : List Ptr) : Type 0 where
  pub reached : p ≤ℤ (raised p chain k.threads receiver).priority
  pub lower : All (λ t. (k.threads t).priority <ℤ p) chain
  pub onward : All (Reached k (raised p chain k.threads) p) chain
