-- ===== src/Timer/Interrupt.antt =====
-- `timer_interrupt` under the priority scheduler, from its first line to its last.
use os_pintos.Base.{
  ℕ, ◌+◌, ◌%◌, ◌^◌, ◌≡◌, refl, ◌∙◌, Bool, true, false, not, if◌then◌else◌, ◌==◌, ◌&&◌, leb, arith,
  List, [], ◌∷◌, ◌++◌,
}
use mathlib.Core.List.{Perm}
use os_pintos.Base.Int.{pos, ◌+ℤ◌, wrap64}
use os_pintos.Base.Sorted.{IsSorted}
use os_pintos.Platform.{Platform}
use os_pintos.Kernel.{Ptr, null, Kernel, ok, M, ◌>>=◌, ◌>>◌, modify, pure, update_id}
use os_pintos.Call.{Call}
use os_pintos.Mlfqs.Queues.{IsCurrent}
use os_pintos.Current.{is_thread}
use os_pintos.Scheduler.{less_priority, thread_tick}
use os_pintos.Scheduler.Tick.{interrupted}
use os_pintos.Timer.{wakeup_less, timer_interrupt, timer_priorities, timer_averages, timer_wakeup}
use os_pintos.Timer.Due.{woken, AllAsleep}
use os_pintos.Timer.Sleepers.{sleepers_due, sleepers_early, timer_wakeup_lem}

abbrev pub slice_ticks : Kernel → ℕ
slice_ticks k = (k.thread_ticks + 1) % 2 ^ 32

-- The running thread has a page directory: it runs a user program.
abbrev pub has_pagedir : Kernel → Bool
has_pagedir k = not ((k.threads k.current).pagedir == null)

-- In the handler, one tick later: the tick is counted for the clock, for the idle thread, the user
-- programs or the kernel, and for the time slice, at whose end a yield is asked for.
abbrev pub a_tick_later : Kernel → Kernel
a_tick_later k = record k {
  ticks = wrap64 (k.ticks +ℤ pos 1);
  idle_ticks = if k.current == k.idle_thread then wrap64 (k.idle_ticks +ℤ pos 1) else k.idle_ticks;
  user_ticks =
      if not (k.current == k.idle_thread) && has_pagedir k
      then wrap64 (k.user_ticks +ℤ pos 1)
      else k.user_ticks;
  kernel_ticks =
      if not (k.current == k.idle_thread) && not (has_pagedir k)
      then wrap64 (k.kernel_ticks +ℤ pos 1)
      else k.kernel_ticks;
  thread_ticks = slice_ticks k;
  intr = record { on = false; context = true; yield_on_return = leb 4 (slice_ticks k) };
}

-- The sleepers whose tick has come have been woken, with `r` for the ready list.
abbrev pub after_wakeup : Kernel → List Ptr → Kernel
after_wakeup k r = record k {
  threads = woken (sleepers_due k) k.threads;
  sleep_list = sleepers_early k;
  ready_list = r;
}

unless_set :
    {A : Type 0} (b : Bool) (x y : M A) (k : Kernel) → b ≡ false → (if not b then x else y) k ≡ x k
unless_set b x y k e = rw e refl

module _ ⦃os : Platform⦄ where
  thread_tick_later :
      (k : Kernel)
      → k.thread_mlfqs ≡ false
      → IsCurrent k
      → thread_tick (record (interrupted k) { ticks = wrap64 (k.ticks +ℤ pos 1) })
        ≡ ok tt (a_tick_later k)
  unfolding thread_tick is_thread
  thread_tick_later k mode cur =
      ground
        (arith, update_id k.threads k.current, os.intr_yield_on_return_lem (interrupted k).intr)

  pub timer_priorities_off : (k : Kernel) → k.thread_mlfqs ≡ false → timer_priorities k ≡ ok [] k
  unfolding timer_priorities
  timer_priorities_off k mode = unless_set k.thread_mlfqs (pure []) _ k mode

  pub timer_averages_off : (k : Kernel) → k.thread_mlfqs ≡ false → timer_averages k ≡ ok [] k
  unfolding timer_averages
  timer_averages_off k mode = unless_set k.thread_mlfqs (pure []) _ k mode

  -- `timer_interrupt` over the two functions that it begins with.
  abbrev interrupt_by : M (Unit {0}) → M (List Call) → M (List Call)
  interrupt_by tick wake = do
    modify (λ k. record k { ticks = wrap64 (k.ticks +ℤ pos 1) })
    tick
    woken ← wake
    pure (woken ++ Call.timer_priorities ∷ Call.timer_averages ∷ [])

  interrupt_by_run :
      (tick : M (Unit {0})) (wake : M (List Call)) (k k' k'' : Kernel)
      → tick (record k { ticks = wrap64 (k.ticks +ℤ pos 1) }) ≡ ok tt k'
      → wake k' ≡ ok [] k''
      → interrupt_by tick wake k ≡ ok (Call.timer_priorities ∷ Call.timer_averages ∷ []) k''
  interrupt_by_run tick wake k k' k'' h w = rw h (rw w refl)

  timer_interrupt-interrupt_by :
      (k : Kernel) → timer_interrupt k ≡ interrupt_by thread_tick timer_wakeup k
  unfolding timer_interrupt
  timer_interrupt-interrupt_by k = refl

  AllAsleep-later : (k : Kernel) (l : List Ptr) → AllAsleep k l → AllAsleep (a_tick_later k) l
  unfolding is_thread
  AllAsleep-later k [] h = tt
  AllAsleep-later k (t ∷ l) h = (h.0, h.1, AllAsleep-later k l h.2)

  pub timer_interrupt_run :
      (k : Kernel)
      → k.thread_mlfqs ≡ false
      → IsCurrent k
      → AllAsleep k k.sleep_list
      → IsSorted (wakeup_less k.threads) k.sleep_list
      → IsSorted (less_priority k.threads) k.ready_list
      → let k' = a_tick_later k in
        (r : List Ptr) × (timer_interrupt (interrupted k)
          ≡ ok (Call.timer_priorities ∷ Call.timer_averages ∷ []) (after_wakeup k' r))
        × IsSorted (less_priority (woken (sleepers_due k') k.threads)) r
        × Perm r (sleepers_due k' ++ k.ready_list)
  timer_interrupt_run k mode cur asleep by_tick by_priority =
      let k' = a_tick_later k in
      let (r, run, sorted, items) =
        timer_wakeup_lem k' mode refl (AllAsleep-later k k.sleep_list asleep) by_tick by_priority in
      (
        r,
        timer_interrupt-interrupt_by (interrupted k)
            ∙ interrupt_by_run thread_tick timer_wakeup (interrupted k) k' (after_wakeup k' r)
                (thread_tick_later k mode cur) run,
        sorted,
        items,
      )
