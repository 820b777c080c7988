-- ===== src/Timer.antt =====
-- devices/timer.c: the clock, and threads that sleep until a tick of it.
pub mod Due
pub mod Sleepers
pub mod Interrupt
pub mod Sleep
use os_pintos.Base.{
  ℕ, zero, suc, ◌+◌, ◌*◌, Bool, true, false, not, ◌&&◌, List, [], ◌∷◌, ◌++◌, length, ◌==◌,
  if◌then◌else◌,
}
use os_pintos.Base.Int.{ℤ, pos, ◌+ℤ◌, ◌-ℤ◌, ◌%ℤ◌, is_zero, ltb_ℤ, leb_ℤ, wrap64}
use os_pintos.Platform.{Less, Platform}
use os_pintos.Kernel.{
  Ptr, Thread, Kernel, M, ◌>>=◌, ◌>>◌, gets, modify, assert, require, pure, skip,
}
use os_pintos.Call.{Call}
use os_pintos.Current.{thread_current, modify_thread}
use os_pintos.Mlfqs.{mlfqs_update_priority_all, mlfqs_update_rcpu_la}
use os_pintos.Scheduler.{intr_disable, intr_set_level, thread_unblock, thread_block, thread_tick}
use os_pintos.Preemption.{mlfqs_check_preemption}

-- devices/timer.h
abbrev pub timer_freq : ℕ
timer_freq = 100

unfoldable pub wakeup_less : (Ptr → Thread) → Less
wakeup_less threads a b = ltb_ℤ (threads a).wakeup_tick (threads b).wakeup_tick

module _ ⦃os : Platform⦄ where
  unfoldable pub timer_ticks : M ℤ
  timer_ticks = do
    old_level ← intr_disable
    t ← gets (λ k. k.ticks)
    intr_set_level old_level
    pure t

  unfoldable pub timer_elapsed : ℤ → M ℤ
  unfolding timer_ticks
  timer_elapsed since = do now ← timer_ticks; pure (wrap64 (now -ℤ since))

  unfoldable pub timer_init : M (Unit {0})
  timer_init = modify (λ k. record k { sleep_list = [] })

  -- list_insert_ordered (&sleep_list, &cur->sleep_elem, wakeup_less, NULL)
  unfoldable pub insert_sleeper : Ptr → M (Unit {0})
  unfolding wakeup_less
  insert_sleeper cur = modify (λ k. record k {
    sleep_list = os.list_insert_ordered k.sleep_list cur (wakeup_less k.threads);
  })

  unfoldable pub timer_sleep : ℤ → M (List Call)
  unfolding timer_ticks thread_current insert_sleeper thread_block
  timer_sleep ticks = do
    start ← timer_ticks
    assert (← gets (λ k. k.intr.on))
    if leb_ℤ ticks (pos 0) then pure [] else do
      old_level ← intr_disable
      cur ← thread_current
      modify_thread cur (λ r. record r { wakeup_tick = wrap64 (start +ℤ ticks) })
      insert_sleeper cur
      thread_block
      pure (Call.set_level old_level ∷ [])

  -- The loop of `timer_wakeup` from its head, a round of fuel for each sleeper. In a handler it runs
  -- through; elsewhere a thread that was woken gets the CPU first.
  unfoldable pub wakeup_from : ℕ → ℤ → M (List Call)
  unfolding thread_unblock
  wakeup_from zero now k = pure [] k
  wakeup_from (suc fuel) now k =
      let next_turn = wakeup_from fuel now in
      (do
        sleepers ← gets (λ s. s.sleep_list)
        if os.list_empty sleepers then pure [] else do
          let t = os.list_front sleepers
          th ← gets (λ s. s.threads t)
          if ltb_ℤ now th.wakeup_tick then pure [] else do
            modify (λ s. record s { sleep_list = (os.list_pop_front sleepers).1 })
            thread_unblock t
            context ← gets (λ s. s.intr.context)
            if context
                then next_turn
                else pure (Call.thread_yield ∷ Call.timer_wakeup_loop now ∷ []))
        k

  unfoldable pub timer_wakeup : M (List Call)
  unfolding timer_ticks wakeup_from
  timer_wakeup = do
    now ← timer_ticks
    sleepers ← gets (λ k. k.sleep_list)
    wakeup_from (length sleepers) now

  -- Up to the two updates, which come next on the stack of the interrupted thread.
  unfoldable pub timer_interrupt : M (List Call)
  unfolding thread_tick timer_wakeup
  timer_interrupt = do
    modify (λ k. record k { ticks = wrap64 (k.ticks +ℤ pos 1) })
    thread_tick
    woken ← timer_wakeup
    pure (woken ++ Call.timer_priorities ∷ Call.timer_averages ∷ [])

  unfoldable pub timer_priorities : M (List Call)
  unfolding timer_ticks ◌%ℤ◌ mlfqs_update_priority_all mlfqs_check_preemption
  timer_priorities = do
    mlfqs ← gets (λ k. k.thread_mlfqs)
    if not mlfqs then pure [] else do
      now ← timer_ticks
      if is_zero (now %ℤ pos 4)
          then (mlfqs_update_priority_all >> mlfqs_check_preemption)
          else pure []

  unfoldable pub timer_averages : M (List Call)
  unfolding timer_ticks ◌%ℤ◌ mlfqs_update_rcpu_la
  timer_averages = do
    mlfqs ← gets (λ k. k.thread_mlfqs)
    if not mlfqs then pure [] else do
      now ← timer_ticks
      if is_zero (now %ℤ pos timer_freq) then (mlfqs_update_rcpu_la >> pure []) else pure []
