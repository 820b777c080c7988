-- ===== src/Locks/Signal.antt =====
-- `cond_signal` while a waiter of the condition has not come to sleep yet.
use os_pintos.Base.{◌≡◌, ◌≢◌, false, arith, List, [], ◌∷◌, ◌++◌}
use os_pintos.Platform.{Platform}
use os_pintos.Kernel.{Ptr, null, Kernel, ok, undefined, set_semaphore, set_condition}
use os_pintos.Call.{Call}
use os_pintos.Mlfqs.Queues.{IsCurrent}
use os_pintos.Locks.{all_sleep, comparable, cond_wait, cond_signal}

module _ ⦃os : Platform⦄ where
  -- The semaphore on which a waiter of a condition is to sleep.
  abbrev pub sema_of : Kernel → Ptr → Ptr
  sema_of k e = (k.semaphore_elems e).semaphore

  all_sleep-awake :
      (k : Kernel) (w : Ptr) (l : List Ptr)
      → (k.semaphores (sema_of k w)).waiters ≡ []
      → all_sleep k (l ++ w ∷ []) ≡ false
  unfolding all_sleep
  all_sleep-awake k w [] h = ground (arith, os.list_empty_lem (k.semaphores (sema_of k w)).waiters)
  all_sleep-awake k w (e ∷ l) h = ground (arith, all_sleep-awake k w l h)

  comparable-awake :
      (k : Kernel) (e w : Ptr) (l : List Ptr)
      → (k.semaphores (sema_of k w)).waiters ≡ []
      → comparable k (e ∷ l ++ w ∷ []) ≡ false
  unfolding comparable
  comparable-awake k e w [] h = all_sleep-awake k w (e ∷ []) h
  comparable-awake k e w (f ∷ l) h = all_sleep-awake k w (e ∷ f ∷ l) h

  -- The running thread holds the lock and is in no handler, as `cond_wait` and `cond_signal` want it.
  abbrev pub Holds : Kernel → (lock : Ptr) → Type 0
  Holds k lock = IsCurrent k × ((k.locks lock).holder ≡ k.current) × (k.intr.context ≡ false)

  -- The state behind the first part of `cond_wait`.
  abbrev pub enlisted : (cond w : Ptr) → Kernel → Kernel
  enlisted cond w k =
      set_condition cond (record { waiters = (k.conditions cond).waiters ++ w ∷ [] })
        (set_semaphore (sema_of k w) (record { value = 0; waiters = [] }) k)

  cond_wait_run :
      (cond lock w : Ptr) (k : Kernel)
      → cond ≢ null
      → lock ≢ null
      → sema_of k w ≢ null
      → Holds k lock
      → cond_wait cond lock w k
        ≡ ok
            (Call.lock_release lock
              ∷ Call.sema_down (sema_of k w)
              ∷ Call.lock_acquire lock
              ∷ Call.check_preemption
              ∷ [])
            (enlisted cond w k)
  unfolding cond_wait
  cond_wait_run cond lock w k cn ln sn h =
      ground (arith, h, os.list_push_back_lem (k.conditions cond).waiters w)

  cond_signal-awake :
      (cond lock w e : Ptr) (l : List Ptr) (k : Kernel)
      → cond ≢ null
      → lock ≢ null
      → Holds k lock
      → (k.conditions cond).waiters ≡ e ∷ l ++ w ∷ []
      → (k.semaphores (sema_of k w)).waiters ≡ []
      → cond_signal cond lock k ≡ undefined
  unfolding cond_signal
  cond_signal-awake cond lock w e l k cn ln h q awake =
      ground
        (arith, h, os.list_empty_lem (k.conditions cond).waiters, comparable-awake k e w l awake)

  -- A thread that holds the lock waits for a condition which has a waiter already: its `cond_wait`
  -- returns to the release of the lock. If then, before it has come to sleep on its own semaphore, a
  -- thread that holds the lock signals the same condition, the signal compares the priority of the
  -- first waiter of an empty list, which the list library leaves undefined.
  pub cond_signal-cond_wait :
      (cond lock w e : Ptr) (l : List Ptr) (k k' : Kernel)
      → cond ≢ null
      → lock ≢ null
      → sema_of k w ≢ null
      → Holds k lock
      → (k.conditions cond).waiters ≡ e ∷ l
      → Holds k' lock
      → k'.conditions cond ≡ (enlisted cond w k).conditions cond
      → k'.semaphore_elems w ≡ k.semaphore_elems w
      → k'.semaphores (sema_of k w) ≡ (enlisted cond w k).semaphores (sema_of k w)
      → (cond_wait cond lock w k
          ≡ ok
              (Call.lock_release lock
                ∷ Call.sema_down (sema_of k w)
                ∷ Call.lock_acquire lock
                ∷ Call.check_preemption
                ∷ [])
              (enlisted cond w k))
        × (cond_signal cond lock k' ≡ undefined)
  cond_signal-cond_wait cond lock w e l k k' cn ln sn h q h' conds elems sems = (
    cond_wait_run cond lock w k cn ln sn h,
    cond_signal-awake cond lock w e l k' cn ln h' (ground arith) (ground arith),
  )
