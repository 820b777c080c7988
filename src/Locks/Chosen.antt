-- ===== src/Locks/Chosen.antt =====
-- `cond_signal` when every waiter of the condition has come to sleep.
use os_pintos.Base.{◌≡◌, false, List, [], ◌∷◌, All, is_empty}
use mathlib.Core.List.{Perm}
use os_pintos.Base.Int.{ℤ, ◌≤ℤ◌}
use os_pintos.Platform.{Platform}
use os_pintos.Kernel.{Ptr, Kernel, Outcome, ok, set_condition}
use os_pintos.Call.{Call}
use os_pintos.Locks.{first_waiter}
use os_pintos.Locks.Signal.{sema_of}

module _ ⦃os : Platform⦄ where
  -- The first waiter of the semaphore of `w` has this priority.
  abbrev pub priority_of : Kernel → Ptr → ℤ
  priority_of k w = (k.threads (first_waiter k w)).priority

  -- Some thread sleeps on the semaphore of `w`.
  abbrev pub Sleeps : Kernel → Ptr → Type 0
  Sleeps k w = is_empty (k.semaphores (sema_of k w)).waiters ≡ false

  -- The signal of the condition to its waiter `w`.
  pub record Signals (cond : Ptr) (w : Ptr) (rest : List Ptr) (k : Kernel) (o : Outcome (List Call))
      : Type 0 where
    pub run :
        o ≡ ok (Call.sema_up (sema_of k w) ∷ []) (set_condition cond (record { waiters = rest }) k)
    pub items : Perm (k.conditions cond).waiters (w ∷ rest)
    pub highest : All (λ v. priority_of k v ≤ℤ priority_of k w) (k.conditions cond).waiters
