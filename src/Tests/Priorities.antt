-- ===== src/Tests/Priorities.antt =====
-- The priority scheduler, donation and the locks.
use os_pintos.Base.{◌≡◌, refl, true, false, List, [], ◌∷◌, All, has, arith, ◌⊎◌}
use mathlib.Core.List.{Perm}
use os_pintos.Base.Int.{ℤ, pos, ◌≤ℤ◌}
use os_pintos.Base.Sorted.{IsSorted}
use os_pintos.Platform.Reference.{reference}
use os_pintos.Kernel.{Ptr, ThreadStatus, ok, undefined, set_thread, ◌>>=◌}
use os_pintos.Current.{is_thread}
use os_pintos.Mlfqs.Priority.{with_priority}
use os_pintos.Scheduler.{less_priority, thread_yield}
use os_pintos.Scheduler.Yield.{CanYield, after_yield, switched, thread_yield_lem}
use os_pintos.Donation.{donate_priority, refresh_priority}
use os_pintos.Donation.Raised.{raised, Donated}
use os_pintos.Donation.Chain.{HoldersIn, donate_priority_lem}
use os_pintos.Donation.Refresh.{refresh_priority_lem}
use os_pintos.Preemption.{thread_set_priority}
use os_pintos.Synch.{sema_down, sema_down_loop}
use os_pintos.Locks.{lock_acquire, lock_try_acquire, lock_release, lock_released}
use os_pintos.Locks.Lost.{
  lock_released-thread_set_priority, lock_acquire-held, lock_release-lock_try_acquire,
}
use os_pintos.Scheduler.Abstract.{Operation}
use os_pintos.Scheduler.Refinement.{Refines, perform-Refines}
use os_pintos.Tests.Samples.{kernel, contended}

kernel-CanYield : CanYield kernel
unfolding is_thread less_priority
kernel-CanYield = record {
  mode = refl;
  normal = refl;
  valid = refl;
  running = refl;
  not_idle = omega arith;
  free = refl;
  threads_valid = (refl, (refl, tt));
  sorted = (refl, (tt, tt));
}

thread_yield_lem_example :
    (next : Ptr) × (rest : List Ptr) × (thread_yield kernel
      ≡ ok true (after_yield kernel next rest))
    × (let s' = switched kernel.threads 2 next in
        All (λ t. (s' t).priority ≤ℤ (s' next).priority) rest
        × IsSorted (less_priority s') rest
        × ((s' next).status ≡ ThreadStatus.running)
        × ((t : Ptr) → (s' t).priority ≡ (kernel.threads t).priority))
    × Perm (next ∷ rest) (2 ∷ 3 ∷ 4 ∷ [])
thread_yield_lem_example = thread_yield_lem kernel kernel-CanYield

contended-HoldersIn : HoldersIn (4 ∷ 5 ∷ []) contended
contended-HoldersIn lock = ground arith

-- Thread 3 donates to 4, which waits for the lock of 5.
donate_priority_lem_example :
    (chain : List Ptr) × (donate_priority 3 3 4 contended
      ≡ ok tt (record contended { threads = raised (pos 40) chain contended.threads }))
    × Donated contended (pos 40) 4 chain
donate_priority_lem_example =
    donate_priority_lem (4 ∷ 5 ∷ []) 3 3 4 contended (omega arith) (omega arith) contended-HoldersIn
      refl (omega arith)

refresh_priority_lem_example :
    (p : ℤ) × (refresh_priority 5 contended
      ≡ ok tt (set_thread 5 (with_priority p (contended.threads 5)) contended))
    × (pos 10 ≤ℤ p)
    × All (λ w. (contended.threads w).priority ≤ℤ p) (4 ∷ [])
    × ((p ≡ pos 10) ⊎ ((w : Ptr) × (has w (4 ∷ []) ≡ true) × (p ≡ (contended.threads w).priority)))
refresh_priority_lem_example = refresh_priority_lem 5 contended (omega arith) refl

-- The running thread 2 asks for the lock of 4.
lock_acquire-held_example :
    (lock_acquire 3 11 >>= λ _. sema_down 21 >>= λ _. sema_down_loop 21 true) contended ≡ undefined
unfolding is_thread
lock_acquire-held_example =
    lock_acquire-held 3 11 (4 ∷ 5 ∷ []) contended (omega arith) (omega arith) (refl, refl) refl
      (omega arith) (omega arith) refl refl contended-HoldersIn (omega arith)

lock_release-lock_try_acquire_example :
    (lock_try_acquire 11 >>= λ success. lock_release 11) kernel ≡ undefined
unfolding is_thread
lock_release-lock_try_acquire_example =
    lock_release-lock_try_acquire 11 kernel (omega arith) (omega arith) (refl, refl) refl
      (omega arith) refl

lock_released-thread_set_priority_example :
    (thread_set_priority (pos 5) >>= λ _. lock_released 2 false) kernel
    ≡ lock_released 2 false kernel
unfolding is_thread
lock_released-thread_set_priority_example =
    lock_released-thread_set_priority (pos 5) false kernel (refl, refl)

perform-Refines_example : Refines Operation.yield kernel
perform-Refines_example = perform-Refines Operation.yield kernel kernel-CanYield
