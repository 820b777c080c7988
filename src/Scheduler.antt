-- ===== src/Scheduler.antt =====
-- threads/thread.c: the ready list, and the switch from one thread to another. Each function here
-- runs without interruption. What a thread has still to do after it was switched away from is not
-- here but on its stack, in Machine.
pub mod Ready
pub mod Yield
pub mod Block
pub mod Tick
pub mod Abstract
pub mod Refinement
pub mod Requeue
pub mod Ring
pub mod RoundRobin
use os_pintos.Base.{
  ℕ, ◌+◌, ◌%◌, ◌^◌, Bool, true, false, not, ◌&&◌, List, [], ◌∷◌, ◌==◌, leb, if◌then◌else◌,
}
use os_pintos.Base.Int.{ℤ, ltb_ℤ, pos, ◌+ℤ◌, wrap64}
use os_pintos.FixedPoint.{fp_add_int}
use os_pintos.Platform.{Less, Platform}
use os_pintos.Kernel.{
  Ptr, null, Thread, ThreadStatus, Kernel, time_slice, is_running, is_blocked, is_dying, M, ◌>>=◌,
  ◌>>◌, gets, modify, assert, pure, skip,
}
use os_pintos.Elem.{insert_elem, pop_elem}
use os_pintos.Current.{is_thread, running_thread, thread_current, modify_thread}
use os_pintos.Mlfqs.{mlfqs_update_priority, mlfqs_insert, mlfqs_next_thread_to_run}

unfoldable pub less_priority : (Ptr → Thread) → Less
less_priority threads a b = ltb_ℤ (threads b).priority (threads a).priority

unfoldable pub more_priority : (Ptr → Thread) → Less
more_priority threads a b = ltb_ℤ (threads a).priority (threads b).priority

module _ ⦃os : Platform⦄ where
  -- intr_disable, which returns the level that it found.
  abbrev pub intr_disable : M Bool
  intr_disable = do
    old_level ← gets (λ k. k.intr.on)
    modify (λ k. record k { intr = os.intr_disable k.intr })
    pure old_level

  abbrev pub intr_set_level : Bool → M (Unit {0})
  intr_set_level level = modify (λ k. record k { intr = os.intr_set_level level k.intr })

  abbrev pub intr_yield_on_return : M (Unit {0})
  intr_yield_on_return = modify (λ k. record k { intr = os.intr_yield_on_return k.intr })

  -- list_insert_ordered (&ready_list, &t->elem, less_priority, NULL)
  unfoldable pub insert_ready : Ptr → M (Unit {0})
  insert_ready t = do
    threads ← gets (λ k. k.threads)
    list ← insert_elem (← gets (λ k. k.ready_list)) t (less_priority threads)
    modify (λ k. record k { ready_list = list })

  unfoldable pub thread_unblock : Ptr → M (Unit {0})
  unfolding is_thread insert_ready mlfqs_update_priority mlfqs_insert
  thread_unblock t = do
    assert (← gets (is_thread t))
    old_level ← intr_disable
    assert (is_blocked (← gets (λ k. (k.threads t).status)))
    modify_thread t (λ r. record r { status = ThreadStatus.ready })
    mlfqs ← gets (λ k. k.thread_mlfqs)
    (if not mlfqs then insert_ready t else (mlfqs_update_priority t >> mlfqs_insert t))
    intr_set_level old_level

  unfoldable pub next_thread_to_run : M Ptr
  unfolding mlfqs_next_thread_to_run
  next_thread_to_run k =
      if k.thread_mlfqs
      then mlfqs_next_thread_to_run k
      else if os.list_empty k.ready_list
      then gets (λ s. s.idle_thread) k
      else (do
        popped ← pop_elem (← gets (λ s. s.ready_list))
        modify (λ s. record s { ready_list = popped.1 })
        pure popped.0)
          k

  -- With `null` for `prev` no thread was switched away from. A build with USERPROG
  -- also calls process_activate, which loads registers of the CPU.
  unfoldable pub thread_schedule_tail : Ptr → M (Unit {0})
  unfolding running_thread
  thread_schedule_tail prev = do
    cur ← running_thread
    assert (not (← gets (λ k. k.intr.on)))
    modify_thread cur (λ r. record r { status = ThreadStatus.running })
    modify (λ k. record k { thread_ticks = 0 })
    status ← gets (λ k. (k.threads prev).status)
    initial ← gets (λ k. k.initial_thread)
    if not (prev == null) && is_dying status && not (prev == initial)
        then (assert (not (prev == cur)) >> modify (λ k. record k { freed = prev ∷ k.freed }))
        else skip

  -- switch_threads (cur, next) makes the CPU run on the stack of `next`, whose first act there,
  -- back in its own `schedule` or new in `switch_entry`, is `thread_schedule_tail (cur)`.
  unfoldable pub schedule : M (Unit {0})
  unfolding running_thread next_thread_to_run thread_schedule_tail is_thread
  schedule = do
    cur ← running_thread
    next ← next_thread_to_run
    assert (not (← gets (λ k. k.intr.on)))
    assert (not (is_running (← gets (λ k. (k.threads cur).status))))
    assert (← gets (is_thread next))
    if not (cur == next)
        then (modify (λ k. record k { current = next }) >> thread_schedule_tail cur)
        else thread_schedule_tail null

  unfoldable pub thread_block : M (Unit {0})
  unfolding thread_current schedule
  thread_block = do
    assert (not (← gets (λ k. k.intr.context)))
    assert (not (← gets (λ k. k.intr.on)))
    cur ← thread_current
    modify_thread cur (λ r. record r { status = ThreadStatus.blocked })
    schedule

  -- `thread_yield` up to its call of `schedule`, which it returns from at some later time; the
  -- level that it then has to restore.
  unfoldable pub thread_yield : M Bool
  unfolding thread_current insert_ready mlfqs_insert schedule
  thread_yield = do
    cur ← thread_current
    assert (not (← gets (λ k. k.intr.context)))
    old_level ← intr_disable
    idle ← gets (λ k. k.idle_thread)
    mlfqs ← gets (λ k. k.thread_mlfqs)
    (if not (cur == idle) then (if not mlfqs then insert_ready cur else mlfqs_insert cur) else skip)
    modify_thread cur (λ r. record r { status = ThreadStatus.ready })
    schedule
    pure old_level

  -- As built without USERPROG, which also calls process_exit.
  unfoldable pub thread_exit : M (Unit {0})
  unfolding thread_current schedule
  thread_exit = do
    assert (not (← gets (λ k. k.intr.context)))
    old_level ← intr_disable
    cur ← thread_current
    modify (λ k. record k { all_list = os.list_remove cur k.all_list })
    modify_thread cur (λ r. record r { status = ThreadStatus.dying })
    schedule

  -- A thread with a page directory runs a user program.
  unfoldable pub thread_tick : M (Unit {0})
  unfolding thread_current fp_add_int
  thread_tick = do
    t ← thread_current
    idle ← gets (λ k. k.idle_thread)
    modify (λ k.
        if t == idle
        then record k { idle_ticks = wrap64 (k.idle_ticks +ℤ pos 1) }
        else if not ((k.threads t).pagedir == null)
        then record k { user_ticks = wrap64 (k.user_ticks +ℤ pos 1) }
        else record k { kernel_ticks = wrap64 (k.kernel_ticks +ℤ pos 1) })
    mlfqs ← gets (λ k. k.thread_mlfqs)
    modify_thread t (λ r.
        if mlfqs && not (t == idle)
        then record r { recent_cpu = fp_add_int r.recent_cpu (pos 1) }
        else r)
    modify (λ k. record k { thread_ticks = (k.thread_ticks + 1) % 2 ^ 32 })
    ticks ← gets (λ k. k.thread_ticks)
    if leb time_slice ticks then intr_yield_on_return else skip
