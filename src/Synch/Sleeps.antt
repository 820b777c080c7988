-- ===== src/Synch/Sleeps.antt =====
-- `sema_down` in the priority scheduler: a turn of its loop, which takes one or goes to sleep.
use os_pintos.Base.{ℕ, zero, suc, Bool, ◌≡◌, refl, true, false, arith, List, [], ◌∷◌, All}
use mathlib.Core.List.{Perm}
use os_pintos.Base.Int.{◌≤ℤ◌}
use os_pintos.Base.Sorted.{IsSorted}
use os_pintos.Platform.{Platform}
use os_pintos.Kernel.{
  Ptr, Thread, ThreadStatus, Kernel, Outcome, ok, update, update-update, set_semaphore, and_then,
  pure,
}
use os_pintos.Call.{Call}
use os_pintos.Current.{is_thread}
use os_pintos.Scheduler.{less_priority, schedule}
use os_pintos.Scheduler.Ready.{less_priority-IsAsym, front_highest, perm_of_split}
use os_pintos.Scheduler.Yield.{started, schedule_run}
use os_pintos.Scheduler.Block.{runs, schedule-idle}
use os_pintos.Synch.{sema_down_loop}

abbrev pub sleeps : Thread → Thread
sleeps th = record th { status = ThreadStatus.blocked; elem_linked = true }

-- The running thread in `sema_down`, with interrupts off, its `elem` free and only valid threads to
-- switch to.
pub record CanSleep (k : Kernel) : Type 0 where
  pub mode : k.thread_mlfqs ≡ false
  pub normal : k.intr.context ≡ false
  pub off : k.intr.on ≡ false
  pub valid : is_thread k.current k ≡ true
  pub running : (k.threads k.current).status ≡ ThreadStatus.running
  pub free : (k.threads k.current).elem_linked ≡ false
  pub idle_valid : is_thread k.idle_thread k ≡ true
  pub threads_valid : All (λ t. is_thread t k ≡ true) k.ready_list
  pub sorted : IsSorted (less_priority k.threads) k.ready_list

module _ ⦃os : Platform⦄ where
  -- The waiters with the running thread among them, and the state in which it sleeps.
  abbrev pub queued_up : Kernel → Ptr → List Ptr
  queued_up k sema =
      os.list_insert_ordered (k.semaphores sema).waiters k.current (less_priority k.threads)

  abbrev pub asleep : Kernel → Ptr → Kernel
  asleep k sema =
      record (set_semaphore sema (record (k.semaphores sema) { waiters = queued_up k sema }) k) {
        threads = update k.threads k.current (sleeps (k.threads k.current));
      }

  asleep_run :
      (sema : Ptr) (old_level : Bool) (k : Kernel)
      → CanSleep k
      → (k.semaphores sema).value ≡ 0
      → sema_down_loop sema old_level k
        ≡ and_then (schedule (asleep k sema)) (λ _. pure (Call.sema_down_loop sema old_level ∷ []))
  unfolding sema_down_loop is_thread
  asleep_run sema old_level k c e =
      let s = k.threads in
      let linked = record (s k.current) { elem_linked = true } in
      ground (arith, update-update s k.current linked (sleeps (s k.current)))

  -- The state once `next` runs instead of the sleeping thread.
  abbrev pub switched_to : Kernel → (sema next : Ptr) → List Ptr → Kernel
  switched_to k sema next rest =
      let a = asleep k sema in
      record a {
        threads = update a.threads next (started (a.threads next));
        ready_list = rest;
        current = next;
        thread_ticks = 0;
      }

  abbrev pub idling : Kernel → Ptr → Kernel
  idling k sema =
      let a = asleep k sema in
      record a {
        threads = update a.threads k.idle_thread (runs (a.threads k.idle_thread));
        current = k.idle_thread;
        thread_ticks = 0;
      }

  -- What a turn does: it takes one, or the thread sleeps and one that none outranks runs instead, or
  -- the idle thread.
  pub data Turned (k : Kernel) (sema : Ptr) (old_level : Bool) (o : Outcome (List Call))
      : Type 0 where
    taken :
        (v : ℕ)
        → (k.semaphores sema).value ≡ suc v
        → o
          ≡ ok
              (Call.set_level old_level ∷ [])
              (set_semaphore sema (record (k.semaphores sema) { value = v }) k)
        → Turned k sema old_level o
    to_next :
        (next : Ptr) (rest : List Ptr)
        → (k.semaphores sema).value ≡ 0
        → k.ready_list ≡ next ∷ rest
        → o ≡ ok (Call.sema_down_loop sema old_level ∷ []) (switched_to k sema next rest)
        → All (λ t. (k.threads t).priority ≤ℤ (k.threads next).priority) rest
        → Turned k sema old_level o
    to_idle :
        (k.semaphores sema).value ≡ 0
        → k.ready_list ≡ []
        → o ≡ ok (Call.sema_down_loop sema old_level ∷ []) (idling k sema)
        → Turned k sema old_level o

  taken_run :
      (sema : Ptr) (old_level : Bool) (v : ℕ) (k : Kernel)
      → (k.semaphores sema).value ≡ suc v
      → sema_down_loop sema old_level k
        ≡ ok
            (Call.set_level old_level ∷ [])
            (set_semaphore sema (record (k.semaphores sema) { value = v }) k)
  unfolding sema_down_loop
  taken_run sema old_level v k e = ground arith

  to_next_run :
      (sema : Ptr) (old_level : Bool) (next : Ptr) (rest : List Ptr) (k : Kernel)
      → CanSleep k
      → (k.semaphores sema).value ≡ 0
      → k.ready_list ≡ next ∷ rest
      → is_thread next k ≡ true
      → sema_down_loop sema old_level k
        ≡ ok (Call.sema_down_loop sema old_level ∷ []) (switched_to k sema next rest)
  unfolding is_thread
  to_next_run sema old_level next rest k c e q v =
      ground (arith, asleep_run sema old_level k c e, schedule_run (asleep k sema) next rest)

  to_idle_run :
      (sema : Ptr) (old_level : Bool) (k : Kernel)
      → CanSleep k
      → (k.semaphores sema).value ≡ 0
      → k.ready_list ≡ []
      → sema_down_loop sema old_level k
        ≡ ok (Call.sema_down_loop sema old_level ∷ []) (idling k sema)
  unfolding is_thread
  to_idle_run sema old_level k c e q =
      ground (arith, asleep_run sema old_level k c e, schedule-idle (asleep k sema))

  -- The running thread at the head of the loop of `sema_down`, in the priority scheduler, with the
  -- ready list in order: if the value is not 0, the turn takes one from it and leaves the loop with
  -- the interrupt level to restore. Otherwise the thread is blocked and among the waiters, back at
  -- the head of the loop when it runs again, and a ready thread runs that no other one outranks, or
  -- the idle thread if none is ready. The waiters it would join are then in order of priority, if
  -- they were before.
  pub sema_down_loop_lem :
      (sema : Ptr) (old_level : Bool) (k : Kernel)
      → CanSleep k
      → IsSorted (less_priority k.threads) (k.semaphores sema).waiters
      → Turned k sema old_level (sema_down_loop sema old_level k)
        × IsSorted (less_priority k.threads) (queued_up k sema)
        × Perm (queued_up k sema) (k.current ∷ (k.semaphores sema).waiters)
  unfolding is_thread
  sema_down_loop_lem sema old_level k c ordered =
      let s = k.threads in
      let ws = (k.semaphores sema).waiters in
      let (before, after, e, q) = os.list_insert_ordered_splits ws k.current (less_priority s) in
      (
        by_value (k.semaphores sema).value refl,
        os.list_insert_ordered-IsSorted ws k.current (less_priority s) (less_priority-IsAsym s)
            ordered,
        perm_of_split k.current before after e q,
      )
    where
      by_list :
          (l : List Ptr)
          → (k.semaphores sema).value ≡ 0
          → k.ready_list ≡ l
          → Turned k sema old_level (sema_down_loop sema old_level k)
      by_list [] z e = to_idle z e (to_idle_run sema old_level k c z e)
      by_list (next ∷ rest) z e =
          to_next next rest z e
            (to_next_run sema old_level next rest k c z e (rw e at c.threads_valid).0)
            (front_highest k.threads next rest (rw e at c.sorted))

      by_value :
          (v : ℕ)
          → (k.semaphores sema).value ≡ v
          → Turned k sema old_level (sema_down_loop sema old_level k)
      by_value zero e = by_list k.ready_list e refl
      by_value (suc v) e = taken v e (taken_run sema old_level v k e)
