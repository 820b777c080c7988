-- ===== src/Locks/Free.antt =====
-- What the parts of `lock_acquire` and `lock_release` do to a lock that no other thread wants.
use os_pintos.Base.{
  ℕ, suc, ◌^◌, ◌≡◌, ◌≢◌, refl, ap, ap₂, fun_ext, ◌∙◌, true, false, arith, Bool, ◌<◌, List, [], ◌∷◌,
  ◌++◌, append-nil, All, has,
}
use os_pintos.Base.Int.{◌≤ℤ◌}
use os_pintos.Platform.{Platform}
use os_pintos.Kernel.{Ptr, null, Kernel, ok, update, update-update}
use os_pintos.Call.{Call}
use os_pintos.Mlfqs.Queues.{IsCurrent}
use os_pintos.Current.{is_thread}
use os_pintos.Synch.{sema_down, sema_down_loop, sema_up}
use os_pintos.Donation.{refresh_priority}
use os_pintos.Locks.{lock_acquire, lock_taken, drop_waiter, lock_release, lock_released}
use os_pintos.Preemption.{check_preemption, thread_yield_if_necessary}

module _ ⦃os : Platform⦄ where
  abbrev pub closed : Kernel → Kernel
  closed k = record k { intr = record k.intr { on = false } }

  abbrev pub with_value : (s : Ptr) (v : ℕ) → Kernel → Kernel
  with_value s v k = record k {
    semaphores = update k.semaphores s (record (k.semaphores s) { value = v });
  }

  -- The running thread holds the lock `l`.
  abbrev pub owned : (l : Ptr) → Kernel → Kernel
  owned l k =
      let th = k.threads k.current in
      record k {
        locks = update k.locks l (record (k.locks l) { holder = k.current; elem_linked = true });
        threads = update k.threads k.current (record th { locks_held = th.locks_held ++ l ∷ [] });
      }

  pub lock_acquire_free :
      (depth : ℕ) (l : Ptr) (k : Kernel)
      → IsCurrent k
      → k.intr.context ≡ false
      → l ≢ null
      → (k.locks l).holder ≡ null
      → lock_acquire depth l k
        ≡ ok
            (Call.sema_down (k.locks l).semaphore ∷ Call.lock_taken l k.current k.intr.on ∷ [])
            (closed k)
  unfolding lock_acquire is_thread
  lock_acquire_free depth l k cur normal ln free = ground (arith, os.intr_disable_lem k.intr)

  pub sema_down_run :
      (s : Ptr) (k : Kernel)
      → s ≢ null
      → k.intr.context ≡ false
      → sema_down s k ≡ ok (Call.sema_down_loop s k.intr.on ∷ []) (closed k)
  unfolding sema_down
  sema_down_run s k sn normal = ground (arith, os.intr_disable_lem k.intr)

  pub sema_down_loop_free :
      (s : Ptr) (b : Bool) (v : ℕ) (k : Kernel)
      → (k.semaphores s).value ≡ suc v
      → sema_down_loop s b k ≡ ok (Call.set_level b ∷ []) (with_value s v k)
  unfolding sema_down_loop
  sema_down_loop_free s b v k e = ground arith

  pub lock_taken_run :
      (l : Ptr) (b : Bool) (k : Kernel)
      → (k.locks l).elem_linked ≡ false
      → lock_taken l k.current b k ≡ ok (Call.set_level b ∷ []) (owned l k)
  unfolding lock_taken
  lock_taken_run l b k free = ground (
    arith,
    os.list_push_back_lem (k.threads k.current).locks_held l,
    update-update k.locks l (record (k.locks l) { holder = k.current })
        (record (k.locks l) { holder = k.current; elem_linked = true }),
  )

  -- What `lock_release` does to a lock with no waiters.
  abbrev pub released : (l : Ptr) → Kernel → Kernel
  released l k =
      let th = k.threads k.current in
      record k {
        locks = update k.locks l (record (k.locks l) { holder = null; elem_linked = false });
        threads =
            update k.threads k.current (record th { locks_held = os.list_remove l th.locks_held });
        intr = record k.intr { on = false };
      }

  pub lock_release_run :
      (l : Ptr) (k : Kernel)
      → IsCurrent k
      → l ≢ null
      → (k.locks l).holder ≡ k.current
      → (k.locks l).waiters ≡ []
      → (k.locks l).elem_linked ≡ true
      → lock_release l k
        ≡ ok
            (Call.sema_up (k.locks l).semaphore ∷ Call.lock_released k.current k.intr.on ∷ [])
            (released l k)
  unfolding lock_release is_thread drop_waiter
  lock_release_run l k cur ln held alone linked = ground (
    arith,
    os.intr_disable_lem k.intr,
    update-update k.locks l (record (k.locks l) { elem_linked = false })
        (record (k.locks l) { holder = null; elem_linked = false }),
  )

  pub released-owned :
      (l : Ptr) (k : Kernel)
      → has l (k.threads k.current).locks_held ≡ false
      → (k.locks l).holder ≡ null
      → (k.locks l).elem_linked ≡ false
      → released l (owned l k) ≡ closed k
  released-owned l k new free unlinked =
      let held = (k.threads k.current).locks_held in
      let back : os.list_remove l (held ++ l ∷ []) ≡ held =
        os.list_remove_lem l held [] new ∙ append-nil held in
      let threads : (released l (owned l k)).threads ≡ k.threads =
        fun_ext (λ t. ground (arith, back)) in
      let locks : (released l (owned l k)).locks ≡ k.locks = fun_ext (λ q. ground arith) in
      ap₂ (λ t q. record k { threads = t; locks = q; intr = record k.intr { on = false } }) threads
        locks

  pub sema_up_alone :
      (s : Ptr) (v : ℕ) (k : Kernel)
      → s ≢ null
      → k.thread_mlfqs ≡ false
      → (k.semaphores s).waiters ≡ []
      → (k.semaphores s).value ≡ v
      → suc v < 2 ^ 32
      → sema_up s k ≡ ok (Call.check_preemption ∷ []) (with_value s (suc v) k)
  unfolding sema_up
  sema_up_alone s v k sn mode none e fits = ground (
    arith,
    os.intr_disable_lem k.intr,
    os.list_empty_lem (k.semaphores s).waiters,
    os.intr_set_level_lem k.intr.on (record k.intr { on = false }),
  )

  pub check_preemption_idle :
      (k : Kernel)
      → IsCurrent k
      → All (λ t. (k.threads t).priority ≤ℤ (k.threads k.current).priority) k.ready_list
      → (check_preemption k ≡ ok [] k) × (thread_yield_if_necessary k ≡ ok [] k)
  unfolding check_preemption thread_yield_if_necessary
  check_preemption_idle k cur h = go k.ready_list refl
    where
      go :
          (l : List Ptr)
          → k.ready_list ≡ l
          → (check_preemption k ≡ ok [] k) × (thread_yield_if_necessary k ≡ ok [] k)
      go [] e = ground (arith, os.list_empty_lem k.ready_list)
      go (t ∷ l) e =
          let low = (rw e at h).0 in
          ground (arith, low, os.list_empty_lem k.ready_list, os.list_front_lem t l)

  -- A running thread of the priority scheduler, which no ready thread outranks and whose priority is
  -- what `refresh_priority` makes of it, and a free lock.
  pub record CanTake (l : Ptr) (v : ℕ) (k : Kernel) : Type 0 where
    pub mode : k.thread_mlfqs ≡ false
    pub normal : k.intr.context ≡ false
    pub running : IsCurrent k
    pub highest : All (λ t. (k.threads t).priority ≤ℤ (k.threads k.current).priority) k.ready_list
    pub fresh : refresh_priority k.current (closed k) ≡ ok tt (closed k)
    pub some_lock : l ≢ null
    pub some_semaphore : (k.locks l).semaphore ≢ null
    pub free : (k.locks l).holder ≡ null
    pub unlinked : (k.locks l).elem_linked ≡ false
    pub alone : (k.locks l).waiters ≡ []
    pub new : has l (k.threads k.current).locks_held ≡ false
    pub value : (k.semaphores (k.locks l).semaphore).value ≡ suc v
    pub small : suc v < 2 ^ 32
    pub no_sleeper : (k.semaphores (k.locks l).semaphore).waiters ≡ []

  -- The state in which the running thread has taken the lock.
  abbrev pub taken : (l : Ptr) (v : ℕ) → Kernel → Kernel
  taken l v k = owned l (with_value (k.locks l).semaphore v k)

  pub lock_released_run :
      (k : Kernel) (b : Bool)
      → refresh_priority k.current k ≡ ok tt k
      → lock_released k.current b k ≡ ok (Call.thread_yield_if_necessary ∷ Call.set_level b ∷ []) k
  unfolding lock_released
  lock_released_run k b e = rw e refl

  pub closed-IsCurrent : (k : Kernel) → IsCurrent k → IsCurrent (closed k)
  unfolding is_thread
  closed-IsCurrent k h = h

  owned-IsCurrent : (l : Ptr) (k : Kernel) → IsCurrent k → IsCurrent (owned l k)
  unfolding is_thread
  owned-IsCurrent l k h = ground (arith, h)

  lock_release-owned :
      (l : Ptr) (k : Kernel)
      → IsCurrent k
      → l ≢ null
      → has l (k.threads k.current).locks_held ≡ false
      → (k.locks l).waiters ≡ []
      → (k.locks l).holder ≡ null
      → (k.locks l).elem_linked ≡ false
      → lock_release l (owned l k)
        ≡ ok
            (Call.sema_up (k.locks l).semaphore ∷ Call.lock_released k.current k.intr.on ∷ [])
            (closed k)
  lock_release-owned l k cur ln new alone free unlinked =
      let run =
        lock_release_run l (owned l k) (owned-IsCurrent l k cur) ln (ground arith)
          (ground (arith, alone)) (ground arith) in
      ground (arith, run, released-owned l k new free unlinked)

  pub lock_release-taken :
      (l : Ptr) (v : ℕ) (k : Kernel)
      → CanTake l v k
      → lock_release l (taken l v k)
        ≡ ok
            (Call.sema_up (k.locks l).semaphore ∷ Call.lock_released k.current k.intr.on ∷ [])
            (closed (with_value (k.locks l).semaphore v k))
  unfolding is_thread
  lock_release-taken l v k c =
      lock_release-owned l (with_value (k.locks l).semaphore v k) c.running c.some_lock c.new
        c.alone c.free c.unlinked

  pub sema_up-taken :
      (l : Ptr) (v : ℕ) (k : Kernel)
      → CanTake l v k
      → sema_up (k.locks l).semaphore (closed (with_value (k.locks l).semaphore v k))
        ≡ ok (Call.check_preemption ∷ []) (closed k)
  sema_up-taken l v k c =
      let s = (k.locks l).semaphore in
      let k' = closed (with_value s v k) in
      let back : with_value s (suc v) k' ≡ closed k =
        ap (λ q. record (closed k) { semaphores = q }) (fun_ext (λ q. ground (arith, c.value))) in
      sema_up_alone s v k' c.some_semaphore c.mode (ground (arith, c.no_sleeper)) (ground arith)
        c.small
      ∙ ap (ok (Call.check_preemption ∷ [])) back
