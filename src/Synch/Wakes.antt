-- ===== src/Synch/Wakes.antt =====
-- `sema_up` in the priority scheduler: whom it wakes, and the value that it leaves.
use os_pintos.Base.{◌+◌, ◌%◌, ◌^◌, ◌≡◌, ◌≢◌, refl, true, false, arith, List, [], ◌∷◌, All}
use mathlib.Core.List.{Perm}
use os_pintos.Base.Int.{◌≤ℤ◌}
use os_pintos.Base.Sorted.{IsSorted}
use os_pintos.Platform.{Platform}
use os_pintos.Kernel.{
  Ptr, null, ThreadStatus, Semaphore, Kernel, Outcome, ok, update, update-update, set_thread,
  set_semaphore,
}
use os_pintos.Call.{Call}
use os_pintos.Current.{is_thread}
use os_pintos.Scheduler.{less_priority}
use os_pintos.Scheduler.Ready.{
  made_ready, inserted, inserted-perm, inserted-IsSorted, less_priority_same, front_highest,
  thread_unblock_run,
}
use os_pintos.Synch.{sema_up}

-- The semaphore after an up, with the waiters `ws` left.
abbrev pub upped : Semaphore → List Ptr → Semaphore
upped s ws = record { value = (s.value + 1) % 2 ^ 32; waiters = ws }

-- A waiter as a semaphore has it: a valid thread that is blocked.
abbrev pub IsWaiting : Kernel → Ptr → Type 0
IsWaiting k t = (is_thread t k ≡ true) × ((k.threads t).status ≡ ThreadStatus.blocked)

module _ ⦃os : Platform⦄ where
  -- The state with the first waiter awake.
  abbrev pub awake : Kernel → (sema w : Ptr) → List Ptr → Kernel
  awake k sema w ws =
      record (set_thread w (made_ready (k.threads w))
        (set_semaphore sema (upped (k.semaphores sema) ws) k)) { ready_list = inserted k w }

  -- What an up does: nobody waits, or the first waiter is woken, which no other outranks.
  pub data Upped (k : Kernel) (sema : Ptr) (o : Outcome (List Call)) : Type 0 where
    nobody :
        (k.semaphores sema).waiters ≡ []
        → o ≡ ok (Call.check_preemption ∷ []) (set_semaphore sema (upped (k.semaphores sema) []) k)
        → Upped k sema o
    woken :
        (w : Ptr) (ws : List Ptr)
        → (k.semaphores sema).waiters ≡ w ∷ ws
        → o ≡ ok (Call.check_preemption ∷ []) (awake k sema w ws)
        → All (λ t. (k.threads t).priority ≤ℤ (k.threads w).priority) ws
        → IsSorted (less_priority (awake k sema w ws).threads) (inserted k w)
        → Perm (inserted k w) (w ∷ k.ready_list)
        → Upped k sema o

  sema_up-nobody :
      (sema : Ptr) (k : Kernel)
      → sema ≢ null
      → k.thread_mlfqs ≡ false
      → (k.semaphores sema).waiters ≡ []
      → sema_up sema k
        ≡ ok (Call.check_preemption ∷ []) (set_semaphore sema (upped (k.semaphores sema) []) k)
  unfolding sema_up
  sema_up-nobody sema k nn mode e = ground (
    arith,
    os.list_empty_lem (k.semaphores sema).waiters,
    os.intr_disable_lem k.intr,
    os.intr_set_level_lem k.intr.on (record k.intr { on = false }),
  )

  sema_up-woken :
      (sema w : Ptr) (ws : List Ptr) (k : Kernel)
      → sema ≢ null
      → k.thread_mlfqs ≡ false
      → (k.semaphores sema).waiters ≡ w ∷ ws
      → IsWaiting k w
      → sema_up sema k ≡ ok (Call.check_preemption ∷ []) (awake k sema w ws)
  unfolding sema_up is_thread
  sema_up-woken sema w ws k nn mode e waiting =
      let s = k.threads in
      let off = record (s w) { elem_linked = false } in
      let k0 =
        record (set_thread w off
          (set_semaphore sema (record (k.semaphores sema) { waiters = ws }) k)) {
            intr = record k.intr { on = false };
          } in
      ground (
        arith,
        os.list_empty_lem (k.semaphores sema).waiters,
        os.list_pop_front_lem w ws,
        os.intr_disable_lem k.intr,
        os.intr_set_level_lem k.intr.on (record k.intr { on = false }),
        thread_unblock_run w k0,
        less_priority_same s (update s w off) (λ u. ground arith),
        update-update s w off (made_ready (s w)),
        update-update k.semaphores sema (record (k.semaphores sema) { waiters = ws })
            (upped (k.semaphores sema) ws),
      )

  -- An up of a semaphore, in the priority scheduler, whose waiters are blocked threads in order of
  -- priority, with a ready list in order: it returns, leaves a check for preemption, and has added
  -- one to the value, modulo 2^32. If threads wait, the first of them is no longer a waiter but
  -- ready, no other waiter has a higher priority, and the ready list has it in addition and is in
  -- order; nothing else has changed.
  pub sema_up_lem :
      (sema : Ptr) (k : Kernel)
      → sema ≢ null
      → k.thread_mlfqs ≡ false
      → All (IsWaiting k) (k.semaphores sema).waiters
      → IsSorted (less_priority k.threads) (k.semaphores sema).waiters
      → IsSorted (less_priority k.threads) k.ready_list
      → Upped k sema (sema_up sema k)
  sema_up_lem sema k nn mode waiting ordered sorted = go (k.semaphores sema).waiters refl
    where
      go : (ws : List Ptr) → (k.semaphores sema).waiters ≡ ws → Upped k sema (sema_up sema k)
      go [] e = nobody e (sema_up-nobody sema k nn mode e)
      go (w ∷ ws) e =
          let s = k.threads in
          woken w ws e (sema_up-woken sema w ws k nn mode e (rw e at waiting).0)
            (front_highest s w ws (rw e at ordered))
            (rw (less_priority_same s (update s w (made_ready (s w))) (λ u. ground arith))
              (inserted-IsSorted k w sorted))
            (inserted-perm k w)
