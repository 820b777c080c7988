-- ===== src/Locks/Lost.antt =====
-- Locks and priorities that get lost: what `lock_release` does to `thread_set_priority`, to a lock
-- taken by `lock_try_acquire`, and what `lock_acquire` does to a lock that is held.
use os_pintos.Base.{ℕ, ◌<◌, ◌≡◌, ◌≢◌, sym, Bool, true, false, List, [], ◌∷◌, arith, has, subst}
use os_pintos.Base.Int.{ℤ}
use os_pintos.Platform.{Platform}
use os_pintos.Kernel.{
  Ptr, null, Thread, Kernel, and_then, pure, update-update, undefined, ◌>>=◌, ◌>>◌, set_thread,
  set_lock, update,
}
use os_pintos.Current.{is_thread}
use os_pintos.Call.{Call}
use os_pintos.Mlfqs.Queues.{IsCurrent}
use os_pintos.Preemption.{thread_set_priority}
use os_pintos.Donation.{donate_priority}
use os_pintos.Donation.Raised.{below, below_same, raised}
use os_pintos.Donation.Chain.{HoldersIn, donate_priority_lem}
use os_pintos.Scheduler.{less_priority, intr_set_level}
use os_pintos.Scheduler.Ready.{less_priority_same}
use os_pintos.Donation.Refresh.{refresh_priority-at_priority}
use os_pintos.Synch.{sema_down, sema_down_loop}
use os_pintos.Locks.{lock_acquire, lock_try_acquire, lock_release, lock_released}

module _ ⦃os : Platform⦄ where
  -- The last part of `lock_release` puts back the base priority, or what is donated: a priority that
  -- the running thread has set for itself by `thread_set_priority` is lost without a trace when it
  -- releases any lock.
  pub lock_released-thread_set_priority :
      (p : ℤ) (old_level : Bool) (k : Kernel)
      → IsCurrent k
      → (thread_set_priority p >>= λ _. lock_released k.current old_level) k
        ≡ lock_released k.current old_level k
  unfolding thread_set_priority lock_released is_thread
  lock_released-thread_set_priority p old_level k cur =
      ground (arith, refresh_priority-at_priority k.current p k)

  -- The state in which `lock_acquire` calls `donate_priority`.
  abbrev waiting_cur : Kernel → Ptr → Thread
  waiting_cur k lock = record (k.threads k.current) { waiting_lock = lock; elem_linked = true }

  abbrev entered : Kernel → Ptr → List Ptr → Kernel
  entered k lock ws =
      record (set_lock lock (record (k.locks lock) { waiters = ws })
        (set_thread k.current (waiting_cur k lock) k)) { intr = record k.intr { on = false } }

  abbrev queue_of : Kernel → Ptr → List Ptr
  queue_of k lock =
      os.list_insert_ordered (k.locks lock).waiters k.current (less_priority k.threads)

  lock_acquire_run :
      (depth : ℕ) (lock : Ptr) (k : Kernel)
      → lock ≢ null
      → IsCurrent k
      → k.intr.context ≡ false
      → (k.locks lock).holder ≢ null
      → (k.locks lock).holder ≢ k.current
      → (k.threads k.current).elem_linked ≡ false
      → lock_acquire depth lock k
        ≡ and_then
            (donate_priority depth k.current
              (k.locks lock).holder
              (entered k lock (queue_of k lock)))
            (λ _.
              intr_set_level k.intr.on
              >> pure
                  (Call.sema_down (k.locks lock).semaphore ∷ Call.lock_granted lock k.current ∷ []))
  unfolding lock_acquire
  lock_acquire_run depth lock k nn cur normal held other free =
      let s = k.threads in
      let waits = record (s k.current) { waiting_lock = lock } in
      ground (
        arith,
        os.intr_disable_lem k.intr,
        less_priority_same s (update s k.current waits) (λ u. ground arith),
        update-update s k.current waits (waiting_cur k lock),
      )

  -- A thread whose `elem` is on a list already cannot wait for a semaphore.
  sema_down_loop-linked :
      (sema : Ptr) (old_level : Bool) (k : Kernel)
      → IsCurrent k
      → (k.semaphores sema).value ≡ 0
      → (k.threads k.current).elem_linked ≡ true
      → sema_down_loop sema old_level k ≡ undefined
  unfolding sema_down_loop
  sema_down_loop-linked sema old_level k cur taken linked = ground arith

  sema_down-linked :
      (sema : Ptr) (k : Kernel)
      → IsCurrent k
      → sema ≢ null
      → k.intr.context ≡ false
      → (k.semaphores sema).value ≡ 0
      → (k.threads k.current).elem_linked ≡ true
      → (sema_down sema >>= λ _. sema_down_loop sema k.intr.on) k ≡ undefined
  unfolding sema_down is_thread
  sema_down-linked sema k cur nn normal taken linked = ground (
    arith,
    os.intr_disable_lem k.intr,
    sema_down_loop-linked sema k.intr.on (record k { intr = record k.intr { on = false } }),
  )

  -- The running thread asks for a lock that another thread holds, so that its semaphore is 0. If
  -- every lock is held by one of the threads `l` and the donation has room for its nested calls, then
  -- `lock_acquire` comes as far as its `sema_down`, and that breaks the waiter list of the lock: the
  -- `elem` of the thread is on that list, and `sema_down` adds it to the waiters of the semaphore.
  pub lock_acquire-held :
      (depth : ℕ) (lock : Ptr) (l : List Ptr) (k : Kernel)
      → lock ≢ null
      → (k.locks lock).semaphore ≢ null
      → IsCurrent k
      → k.intr.context ≡ false
      → (k.locks lock).holder ≢ null
      → (k.locks lock).holder ≢ k.current
      → (k.semaphores (k.locks lock).semaphore).value ≡ 0
      → (k.threads k.current).elem_linked ≡ false
      → HoldersIn l k
      → below k.threads (k.threads k.current).priority l < depth
      → (lock_acquire depth lock >>= λ _. sema_down (k.locks lock).semaphore >>= λ _.
            sema_down_loop (k.locks lock).semaphore k.intr.on)
          k
        ≡ undefined
  unfolding is_thread
  lock_acquire-held depth lock l k nn sn cur normal held other taken free holders enough =
      let s = k.threads in
      let k1 = entered k lock (queue_of k lock) in
      let p = (k1.threads k.current).priority in
      let same_holder : (q : Ptr) → (k1.locks q).holder ≡ (k.locks q).holder = λ q. ground arith in
      let same_priority : p ≡ (s k.current).priority = ground arith in
      let fewer : below k1.threads p l < depth =
        rw (below_same s k1.threads p l (λ u. ground arith))
          (subst (λ q. below s q l < depth) (sym same_priority) enough) in
      let (chain, e, d) =
        donate_priority_lem l depth k.current (k.locks lock).holder k1 (ground arith) held
          (λ q. subst (λ h. h ≢ null → has h l ≡ true) (sym (same_holder q)) (holders q))
          (holders lock held) fewer in
      let k2 = record k1 { threads = raised p chain k1.threads; intr = k.intr } in
      ground (
        arith,
        lock_acquire_run depth lock k nn cur normal held other free,
        e,
        os.intr_set_level_lem k.intr.on (record k.intr { on = false }),
        sema_down-linked (k.locks lock).semaphore k2,
      )

  -- A lock that is free and that `lock_try_acquire` takes cannot be released: `lock_try_acquire` does
  -- not add it to the locks that the thread holds, and `lock_release` takes its `elem` out of a list
  -- that it is not on.
  pub lock_release-lock_try_acquire :
      (lock : Ptr) (k : Kernel)
      → lock ≢ null
      → (k.locks lock).semaphore ≢ null
      → IsCurrent k
      → (k.locks lock).holder ≡ null
      → 0 < (k.semaphores (k.locks lock).semaphore).value
      → (k.locks lock).elem_linked ≡ false
      → (lock_try_acquire lock >>= λ success. lock_release lock) k ≡ undefined
  unfolding lock_try_acquire lock_release is_thread
  lock_release-lock_try_acquire lock k nn sn cur no_holder open_value unlinked = ground (
    arith,
    os.intr_disable_lem k.intr,
    os.intr_set_level_lem k.intr.on (record k.intr { on = false }),
    os.intr_disable_lem k.intr,
  )
