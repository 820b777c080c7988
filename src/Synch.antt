-- ===== src/Synch.antt =====
-- threads/synch.c: semaphores.
pub mod Wakes
pub mod Sleeps
use os_pintos.Base.{ℕ, ◌+◌, ◌-◌, ◌%◌, ◌^◌, Bool, not, List, [], ◌∷◌, ◌==◌, if◌then◌else◌}
use os_pintos.Platform.{Platform}
use os_pintos.Kernel.{Ptr, null, set_semaphore, M, ◌>>=◌, ◌>>◌, gets, modify, assert, pure, skip}
use os_pintos.Call.{Call}
use os_pintos.Elem.{insert_elem, pop_elem}
use os_pintos.Current.{thread_current}
use os_pintos.Scheduler.{less_priority, intr_disable, intr_set_level, thread_unblock, thread_block}

module _ ⦃os : Platform⦄ where
  unfoldable pub sema_init : Ptr → ℕ → M (Unit {0})
  sema_init sema value = do
    assert (not (sema == null))
    modify (set_semaphore sema (record { value = value; waiters = [] }))

  unfoldable pub sema_down : Ptr → M (List Call)
  sema_down sema = do
    assert (not (sema == null))
    assert (not (← gets (λ k. k.intr.context)))
    old_level ← intr_disable
    pure (Call.sema_down_loop sema old_level ∷ [])

  -- One turn of the loop: to sleep, or to take one and leave.
  unfoldable pub sema_down_loop : Ptr → Bool → M (List Call)
  unfolding thread_current thread_block less_priority
  sema_down_loop sema old_level = do
    s ← gets (λ k. k.semaphores sema)
    if s.value == 0
        then (do
          cur ← thread_current
          threads ← gets (λ k. k.threads)
          waiters ← insert_elem s.waiters cur (less_priority threads)
          modify (set_semaphore sema (record s { waiters = waiters }))
          thread_block
          pure (Call.sema_down_loop sema old_level ∷ []))
        else (do
          modify (set_semaphore sema (record s { value = s.value - 1 }))
          pure (Call.set_level old_level ∷ []))

  unfoldable pub sema_try_down : Ptr → M Bool
  sema_try_down sema = do
    assert (not (sema == null))
    old_level ← intr_disable
    s ← gets (λ k. k.semaphores sema)
    (if s.value == 0 then skip else modify (set_semaphore sema (record s { value = s.value - 1 })))
    intr_set_level old_level
    pure (not (s.value == 0))

  -- The thread to wake leaves the list before it is made ready.
  unfoldable pub wake_first : Ptr → M (Unit {0})
  unfolding thread_unblock
  wake_first sema = do
    s ← gets (λ k. k.semaphores sema)
    if os.list_empty s.waiters then skip else do
      popped ← pop_elem s.waiters
      modify (set_semaphore sema (record s { waiters = popped.1 }))
      thread_unblock popped.0

  unfoldable pub sema_up : Ptr → M (List Call)
  unfolding wake_first
  sema_up sema = do
    assert (not (sema == null))
    old_level ← intr_disable
    wake_first sema
    s ← gets (λ k. k.semaphores sema)
    modify (set_semaphore sema (record s { value = (s.value + 1) % 2 ^ 32 }))
    intr_set_level old_level
    mlfqs ← gets (λ k. k.thread_mlfqs)
    pure ((if mlfqs then Call.mlfqs_check_preemption else Call.check_preemption) ∷ [])
