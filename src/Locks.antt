-- ===== src/Locks.antt =====
-- threads/synch.c: locks and condition variables.
pub mod Lost
pub mod Signal
pub mod Free
pub mod Chosen
use os_pintos.Base.{
  ℕ, zero, suc, Bool, true, false, not, ◌&&◌, List, [], ◌∷◌, ◌++◌, ◌==◌, if◌then◌else◌,
}
use os_pintos.Base.Int.{ltb_ℤ}
use os_pintos.Platform.{Less, Platform}
use os_pintos.Kernel.{
  Ptr, null, Thread, Semaphore, Lock, Condition, Kernel, set_lock, set_condition, M, ◌>>=◌, ◌>>◌,
  gets, modify, assert, require, pure, skip,
}
use os_pintos.Call.{Call}
use os_pintos.Elem.{insert_elem, set_linked}
use os_pintos.Current.{thread_current, modify_thread}
use os_pintos.Scheduler.{less_priority, intr_disable, intr_set_level}
use os_pintos.Donation.{donate_priority, refresh_priority}
use os_pintos.Synch.{sema_init, sema_try_down}

-- A write to a lock.
abbrev pub modify_lock : Ptr → (Lock → Lock) → M (Unit {0})
modify_lock lock f = modify (λ k. set_lock lock (f (k.locks lock)) k)

module _ ⦃os : Platform⦄ where
  unfoldable pub lock_init : Ptr → M (Unit {0})
  unfolding sema_init
  lock_init lock = do
    assert (not (lock == null))
    modify_lock lock (λ l. record l { holder = null })
    sema_init (← gets (λ k. (k.locks lock).semaphore)) 1
    modify_lock lock (λ l. record l { waiters = [] })

  unfoldable pub lock_held_by_current_thread : Ptr → M Bool
  unfolding thread_current
  lock_held_by_current_thread lock = do
    assert (not (lock == null))
    holder ← gets (λ k. (k.locks lock).holder)
    cur ← thread_current
    pure (holder == cur)

  -- list_push_back (&cur->locks_held, &lock->elem)
  unfoldable pub hold_lock : Ptr → Ptr → M (Unit {0})
  hold_lock lock cur = do
    linked ← gets (λ k. (k.locks lock).elem_linked)
    require (not linked)
    modify_lock lock (λ l. record l { elem_linked = true })
    modify_thread cur (λ r. record r { locks_held = os.list_push_back r.locks_held lock })

  -- `depth` bounds the nested calls of `donate_priority`.
  unfoldable pub lock_acquire : (depth : ℕ) → Ptr → M (List Call)
  unfolding lock_held_by_current_thread thread_current donate_priority less_priority
  lock_acquire depth lock = do
    assert (not (lock == null))
    assert (not (← gets (λ k. k.intr.context)))
    assert (not (← lock_held_by_current_thread lock))
    old_level ← intr_disable
    cur ← thread_current
    l ← gets (λ k. k.locks lock)
    if l.holder == null
        then pure (Call.sema_down l.semaphore ∷ Call.lock_taken lock cur old_level ∷ [])
        else (do
          modify_thread cur (λ r. record r { waiting_lock = lock })
          threads ← gets (λ k. k.threads)
          waiters ← insert_elem l.waiters cur (less_priority threads)
          modify_lock lock (λ r. record r { waiters = waiters })
          donate_priority depth cur l.holder
          intr_set_level old_level
          pure (Call.sema_down l.semaphore ∷ Call.lock_granted lock cur ∷ []))

  unfoldable pub lock_taken : Ptr → Ptr → Bool → M (List Call)
  unfolding hold_lock
  lock_taken lock cur old_level = do
    modify_lock lock (λ l. record l { holder = cur })
    hold_lock lock cur
    pure (Call.set_level old_level ∷ [])

  unfoldable pub lock_granted : Ptr → Ptr → M (List Call)
  unfolding hold_lock
  lock_granted lock cur = do
    old_level ← intr_disable
    modify_lock lock (λ l. record l { holder = cur })
    hold_lock lock cur
    modify_thread cur (λ r. record r { waiting_lock = null })
    pure (Call.set_level old_level ∷ [])

  unfoldable pub lock_try_acquire : Ptr → M Bool
  unfolding lock_held_by_current_thread sema_try_down thread_current
  lock_try_acquire lock = do
    assert (not (lock == null))
    assert (not (← lock_held_by_current_thread lock))
    success ← sema_try_down (← gets (λ k. (k.locks lock).semaphore))
    if success
        then (do cur ← thread_current; modify_lock lock (λ l. record l { holder = cur }); pure true)
        else pure false

  -- The loop of `lock_release`, over the waiters from `e` on: takes out `cur`.
  unfoldable pub drop_waiter : Ptr → Ptr → List Ptr → M (Unit {0})
  drop_waiter lock cur [] = skip
  drop_waiter lock cur (t ∷ e) = do
    (if t == cur
        then (do
          modify_lock lock (λ l. record l { waiters = os.list_remove t l.waiters })
          modify (set_linked false t))
        else skip)
    drop_waiter lock cur e

  unfoldable pub lock_release : Ptr → M (List Call)
  unfolding lock_held_by_current_thread drop_waiter thread_current
  lock_release lock = do
    assert (not (lock == null))
    assert (← lock_held_by_current_thread lock)
    old_level ← intr_disable
    cur ← thread_current
    linked ← gets (λ k. (k.locks lock).elem_linked)
    require linked
    modify_lock lock (λ l. record l { elem_linked = false })
    modify_thread cur (λ r. record r { locks_held = os.list_remove lock r.locks_held })
    drop_waiter lock cur (← gets (λ k. (k.locks lock).waiters))
    modify_lock lock (λ l. record l { holder = null })
    sema ← gets (λ k. (k.locks lock).semaphore)
    pure (Call.sema_up sema ∷ Call.lock_released cur old_level ∷ [])

  unfoldable pub lock_released : Ptr → Bool → M (List Call)
  unfolding refresh_priority
  lock_released cur old_level = do
    refresh_priority cur
    pure (Call.thread_yield_if_necessary ∷ Call.set_level old_level ∷ [])

  unfoldable pub cond_init : Ptr → M (Unit {0})
  cond_init cond = do
    assert (not (cond == null))
    modify (set_condition cond (record { waiters = [] }))

  -- `waiter` is the address of the local `struct semaphore_elem`.
  unfoldable pub cond_wait : (cond lock waiter : Ptr) → M (List Call)
  unfolding lock_held_by_current_thread sema_init
  cond_wait cond lock waiter = do
    assert (not (cond == null))
    assert (not (lock == null))
    assert (not (← gets (λ k. k.intr.context)))
    assert (← lock_held_by_current_thread lock)
    sema ← gets (λ k. (k.semaphore_elems waiter).semaphore)
    sema_init sema 0
    modify (λ k.
        set_condition cond
          (record { waiters = os.list_push_back (k.conditions cond).waiters waiter }) k)
    pure (
        Call.lock_release lock
        ∷ Call.sema_down sema
        ∷ Call.lock_acquire lock
        ∷ Call.check_preemption
        ∷ [])

  -- The first waiter of the semaphore of a `struct semaphore_elem`.
  unfoldable pub first_waiter : Kernel → Ptr → Ptr
  first_waiter k e = os.list_front (k.semaphores (k.semaphore_elems e).semaphore).waiters

  unfoldable pub cond_sema_priority_cmp : Kernel → Less
  unfolding first_waiter
  cond_sema_priority_cmp k a b =
      ltb_ℤ (k.threads (first_waiter k a)).priority (k.threads (first_waiter k b)).priority

  -- Every one of these has a thread that sleeps on its semaphore.
  unfoldable pub all_sleep : Kernel → List Ptr → Bool
  all_sleep k [] = true
  all_sleep k (e ∷ l) =
      not (os.list_empty (k.semaphores (k.semaphore_elems e).semaphore).waiters) && all_sleep k l

  -- What `list_max` with `cond_sema_priority_cmp` asks of the list: a single element is compared
  -- with nothing, and of several each must have a first waiter.
  unfoldable pub comparable : Kernel → List Ptr → Bool
  unfolding all_sleep
  comparable k [] = false
  comparable k (e ∷ []) = true
  comparable k (e ∷ f ∷ l) = all_sleep k (e ∷ f ∷ l)

  unfoldable pub cond_signal : (cond lock : Ptr) → M (List Call)
  unfolding lock_held_by_current_thread comparable cond_sema_priority_cmp
  cond_signal cond lock = do
    assert (not (cond == null))
    assert (not (lock == null))
    assert (not (← gets (λ k. k.intr.context)))
    assert (← lock_held_by_current_thread lock)
    waiters ← gets (λ k. (k.conditions cond).waiters)
    if os.list_empty waiters then pure [] else do
      require (← gets (λ k. comparable k waiters))
      less ← gets cond_sema_priority_cmp
      let max_e = os.list_max waiters less
      modify (set_condition cond (record { waiters = os.list_remove max_e waiters }))
      sema ← gets (λ k. (k.semaphore_elems max_e).semaphore)
      pure (Call.sema_up sema ∷ [])

  -- One turn of the loop.
  unfoldable pub cond_broadcast : (cond lock : Ptr) → M (List Call)
  cond_broadcast cond lock = do
    assert (not (cond == null))
    assert (not (lock == null))
    waiters ← gets (λ k. (k.conditions cond).waiters)
    pure (
        if os.list_empty waiters
        then []
        else Call.cond_signal cond lock ∷ Call.cond_broadcast cond lock ∷ [])
