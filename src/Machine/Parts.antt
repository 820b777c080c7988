-- ===== src/Machine/Parts.antt =====
-- The functions of threads/synch.c and devices/timer.c, and what is left of threads/thread.c, that
-- leave the CPU where it is.
use os_pintos.Base.{
  ℕ, zero, suc, ◌≡◌, refl, ap, Bool, false, arith, ◌==◌, List, [], ◌∷◌, if◌then◌else◌,
}
use os_pintos.Base.Int.{ℤ, ltb_ℤ}
use os_pintos.Platform.{Platform}
use os_pintos.Kernel.{
  Ptr, ThreadStatus, is_running, is_blocked, Kernel, M, pure, skip, gets, modify, assert,
  set_thread, and_then, ◌>>=◌, ◌>>◌,
}
use os_pintos.Call.{Call}
use os_pintos.Machine.Quiet.{Ends, Same, Ends-trans, Same-refl, Quiet, Quiet-skip, quiet_rules}
use os_pintos.Machine.Calls.{
  current_rules, insert_ready-Quiet, mlfqs_insert-Quiet, mlfqs_update_priority-Quiet,
  mlfqs_update_priority_all-Quiet, mlfqs_update_rcpu_la-Quiet, refresh_priority-Quiet,
  donate_priority-Quiet,
}
use os_pintos.Current.{modify_thread}
use os_pintos.Scheduler.{thread_unblock, thread_tick}
use os_pintos.Preemption.{
  check_preemption, thread_yield_if_necessary, mlfqs_check_preemption, thread_set_priority,
  thread_set_nice,
}
use os_pintos.Synch.{sema_init, sema_down, sema_try_down, wake_first, sema_up}
use os_pintos.Elem.{set_linked}
use os_pintos.Locks.{
  modify_lock, lock_init, lock_held_by_current_thread, hold_lock, lock_acquire, lock_taken,
  lock_granted, drop_waiter, lock_release, lock_released, cond_wait, cond_signal, cond_broadcast,
}
use os_pintos.Timer.{
  timer_ticks, wakeup_from, timer_wakeup, timer_interrupt, timer_priorities, timer_averages,
}

-- A blocked thread becomes ready: it does not run before or after.
ready_block :
    (t : Ptr) (rest : M (Unit {0}))
    → Quiet rest
    → Quiet (do
      assert (is_blocked (← gets (λ k. (k.threads t).status)))
      modify_thread t (λ r. record r { status = ThreadStatus.ready })
      rest)
ready_block t rest q = record { at = λ k. go k (k.threads t).status refl }
  where
    go :
        (k : Kernel) (s : ThreadStatus)
        → (k.threads t).status ≡ s
        → Ends
            (λ u. Same k)
            (and_then
              (assert (is_blocked s) k)
              (λ u. modify_thread t (λ r. record r { status = ThreadStatus.ready }) >> rest))
    go k ThreadStatus.running e = tt
    go k ThreadStatus.ready e = tt
    go k ThreadStatus.dying e = tt
    go k ThreadStatus.blocked e =
        let k' = set_thread t (record (k.threads t) { status = ThreadStatus.ready }) k in
        let same : Same k k' = record {
          cpu = refl;
          statuses = λ u. ground (arith, ap is_running e);
        } in
        Ends-trans k k' same (rest k') (q.at k')

module _ ⦃os : Platform⦄ where
  pub thread_unblock-Quiet : (t : Ptr) → Quiet (thread_unblock t)
  unfolding thread_unblock
  thread_unblock-Quiet t =
      search
        (
          ready_block, quiet_rules, insert_ready-Quiet, mlfqs_update_priority-Quiet,
          mlfqs_insert-Quiet,
        )
        depth 20

  pub sema_init-Quiet : (s : Ptr) (v : ℕ) → Quiet (sema_init s v)
  unfolding sema_init
  sema_init-Quiet s v = search quiet_rules depth 20

  pub sema_down-Quiet : (s : Ptr) → Quiet (sema_down s)
  unfolding sema_down
  sema_down-Quiet s = search quiet_rules depth 20

  pub sema_try_down-Quiet : (s : Ptr) → Quiet (sema_try_down s)
  unfolding sema_try_down
  sema_try_down-Quiet s = search quiet_rules depth 20

  wake_first-Quiet : (s : Ptr) → Quiet (wake_first s)
  unfolding wake_first
  wake_first-Quiet s = search (quiet_rules, thread_unblock-Quiet) depth 20

  pub sema_up-Quiet : (s : Ptr) → Quiet (sema_up s)
  unfolding sema_up
  sema_up-Quiet s = search (quiet_rules, wake_first-Quiet) depth 20

  pub check_preemption-Quiet : Quiet check_preemption
  unfolding check_preemption
  check_preemption-Quiet = search current_rules depth 20

  pub thread_yield_if_necessary-Quiet : Quiet thread_yield_if_necessary
  unfolding thread_yield_if_necessary
  thread_yield_if_necessary-Quiet = search current_rules depth 20

  pub mlfqs_check_preemption-Quiet : Quiet mlfqs_check_preemption
  unfolding mlfqs_check_preemption
  mlfqs_check_preemption-Quiet = search current_rules depth 20

  pub thread_set_priority-Quiet : (p : ℤ) → Quiet (thread_set_priority p)
  unfolding thread_set_priority
  thread_set_priority-Quiet p = search current_rules depth 20

  pub thread_set_nice-Quiet : (n : ℤ) → Quiet (thread_set_nice n)
  unfolding thread_set_nice
  thread_set_nice-Quiet n = search (current_rules, mlfqs_update_priority-Quiet) depth 20

  pub thread_tick-Quiet : Quiet thread_tick
  unfolding thread_tick
  thread_tick-Quiet = search current_rules depth 20

  pub timer_ticks-Quiet : Quiet timer_ticks
  unfolding timer_ticks
  timer_ticks-Quiet = search quiet_rules depth 20

  wakeup_block :
      (now : ℤ) (rest : M (List Call))
      → Quiet rest
      → Quiet (do
        sleepers ← gets (λ s. s.sleep_list)
        if os.list_empty sleepers then pure [] else do
          let t = os.list_front sleepers
          th ← gets (λ s. s.threads t)
          if ltb_ℤ now th.wakeup_tick then pure [] else do
            modify (λ s. record s { sleep_list = (os.list_pop_front sleepers).1 })
            thread_unblock t
            context ← gets (λ s. s.intr.context)
            if context then rest else pure (Call.thread_yield ∷ Call.timer_wakeup_loop now ∷ []))
  wakeup_block now rest q = search (quiet_rules, thread_unblock-Quiet) depth 20

  pub wakeup_from-Quiet : (fuel : ℕ) (now : ℤ) → Quiet (wakeup_from fuel now)
  unfolding wakeup_from
  wakeup_from-Quiet zero now = record { at = Same-refl }
  wakeup_from-Quiet (suc fuel) now = record {
    at = (wakeup_block now (wakeup_from fuel now) (wakeup_from-Quiet fuel now)).at;
  }

  timer_wakeup-Quiet : Quiet timer_wakeup
  unfolding timer_wakeup
  timer_wakeup-Quiet = search (quiet_rules, timer_ticks-Quiet, wakeup_from-Quiet) depth 20

  pub timer_interrupt-Quiet : Quiet timer_interrupt
  unfolding timer_interrupt
  timer_interrupt-Quiet = search (quiet_rules, thread_tick-Quiet, timer_wakeup-Quiet) depth 20

  pub timer_priorities-Quiet : Quiet timer_priorities
  unfolding timer_priorities
  timer_priorities-Quiet =
      search
        (
          quiet_rules, timer_ticks-Quiet, mlfqs_update_priority_all-Quiet,
          mlfqs_check_preemption-Quiet,
        )
        depth 20

  pub timer_averages-Quiet : Quiet timer_averages
  unfolding timer_averages
  timer_averages-Quiet =
      search (quiet_rules, timer_ticks-Quiet, mlfqs_update_rcpu_la-Quiet) depth 20

  lock_held-Quiet : (lock : Ptr) → Quiet (lock_held_by_current_thread lock)
  unfolding lock_held_by_current_thread
  lock_held-Quiet lock = search current_rules depth 20

  hold_lock-Quiet : (lock cur : Ptr) → Quiet (hold_lock lock cur)
  unfolding hold_lock
  hold_lock-Quiet lock cur = search quiet_rules depth 20

  pub lock_init-Quiet : (lock : Ptr) → Quiet (lock_init lock)
  unfolding lock_init
  lock_init-Quiet lock = search (quiet_rules, sema_init-Quiet) depth 20

  pub lock_acquire-Quiet : (depth : ℕ) (lock : Ptr) → Quiet (lock_acquire depth lock)
  unfolding lock_acquire
  lock_acquire-Quiet depth lock =
      search (current_rules, lock_held-Quiet, donate_priority-Quiet) depth 20

  pub lock_taken-Quiet : (lock cur : Ptr) (old_level : Bool) → Quiet (lock_taken lock cur old_level)
  unfolding lock_taken
  lock_taken-Quiet lock cur old_level = search (quiet_rules, hold_lock-Quiet) depth 20

  pub lock_granted-Quiet : (lock cur : Ptr) → Quiet (lock_granted lock cur)
  unfolding lock_granted
  lock_granted-Quiet lock cur = search (quiet_rules, hold_lock-Quiet) depth 20

  drop_block :
      (lock cur t : Ptr) (rest : M (Unit {0}))
      → Quiet rest
      → Quiet (do
        (if t == cur
            then (do
              modify_lock lock (λ l. record l { waiters = os.list_remove t l.waiters })
              modify (set_linked false t))
            else skip)
        rest)
  drop_block lock cur t rest q = search quiet_rules depth 20

  drop_waiter-Quiet : (lock cur : Ptr) (e : List Ptr) → Quiet (drop_waiter lock cur e)
  unfolding drop_waiter
  drop_waiter-Quiet lock cur [] = Quiet-skip
  drop_waiter-Quiet lock cur (t ∷ e) =
      drop_block lock cur t (drop_waiter lock cur e) (drop_waiter-Quiet lock cur e)

  pub lock_release-Quiet : (lock : Ptr) → Quiet (lock_release lock)
  unfolding lock_release
  lock_release-Quiet lock = search (current_rules, lock_held-Quiet, drop_waiter-Quiet) depth 20

  pub lock_released-Quiet : (cur : Ptr) (old_level : Bool) → Quiet (lock_released cur old_level)
  unfolding lock_released
  lock_released-Quiet cur old_level = search (quiet_rules, refresh_priority-Quiet) depth 20

  pub cond_wait-Quiet : (cond lock waiter : Ptr) → Quiet (cond_wait cond lock waiter)
  unfolding cond_wait
  cond_wait-Quiet cond lock waiter = search (quiet_rules, lock_held-Quiet, sema_init-Quiet) depth 20

  pub cond_signal-Quiet : (cond lock : Ptr) → Quiet (cond_signal cond lock)
  unfolding cond_signal
  cond_signal-Quiet cond lock = search (quiet_rules, lock_held-Quiet) depth 20

  pub cond_broadcast-Quiet : (cond lock : Ptr) → Quiet (cond_broadcast cond lock)
  unfolding cond_broadcast
  cond_broadcast-Quiet cond lock = search quiet_rules depth 20
