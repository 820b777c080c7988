-- ===== src/Machine/Interrupts.antt =====
-- A timer interrupt on the machine, from the interrupted instruction to the return to it.
use os_pintos.Base.{
  ℕ, ◌≡◌, refl, sym, ap, subst, ◌∙◌, Bool, true, false, if◌then◌else◌, leb, List, [], ◌∷◌, ◌++◌,
}
use mathlib.Core.List.{Perm}
use os_pintos.Base.Sorted.{IsSorted}
use os_pintos.Platform.{Platform}
use os_pintos.Kernel.{Ptr, Kernel, update, update_self, update-update}
use os_pintos.Call.{Call}
use os_pintos.Mlfqs.Queues.{IsCurrent}
use os_pintos.Scheduler.{less_priority}
use os_pintos.Timer.{wakeup_less}
use os_pintos.Timer.Due.{woken, AllAsleep}
use os_pintos.Timer.Sleepers.{sleepers_due}
use os_pintos.Scheduler.Tick.{interrupted}
use os_pintos.Timer.Interrupt.{
  slice_ticks, a_tick_later, after_wakeup, timer_interrupt_run, timer_priorities_off,
  timer_averages_off,
}
use os_pintos.Machine.{Machine, Step, exec}
use os_pintos.Machine.Invariant.{Run, HeadIsFresh}
use os_pintos.Machine.Turns.{at, Run-trans, Run-call}

-- What the thread does once the handler has returned: it yields first if its time slice is over.
abbrev pub resumed : Kernel → List Call → List Call
resumed k calls =
    if leb 4 (slice_ticks k)
    then Call.thread_yield ∷ Call.set_level true ∷ calls
    else Call.set_level true ∷ calls

-- The state behind the handler, with `r` for the ready list.
abbrev pub handled : Kernel → List Ptr → Kernel
handled k r = record (after_wakeup (a_tick_later k) r) {
  intr = record { on = false; context = false; yield_on_return = false };
}

module _ ⦃os : Platform⦄ (depth : ℕ) (code : (function aux : Ptr) → List Call)
    (idle_function : Ptr) where
  abbrev Runs : Machine → Machine → Type 0
  Runs = Run depth code idle_function

  -- The interrupt itself.
  Run-interrupt :
      (stacks : Ptr → List Call) (k : Kernel) (calls : List Call)
      → k.intr.on ≡ true
      → HeadIsFresh k.current calls
      → Runs
          (at stacks k calls)
          (at stacks (interrupted k) (Call.timer_interrupt ∷ Call.interrupt_return ∷ calls))
  Run-interrupt stacks k calls on fresh =
      let cur = k.current in
      let top : update stacks cur calls cur ≡ calls = update_self stacks cur calls in
      let handler : List Call → List Call =
        λ rest. Call.timer_interrupt ∷ Call.interrupt_return ∷ rest in
      let after : update (update stacks cur calls) cur (handler (update stacks cur calls cur))
          ≡ update stacks cur (handler calls) =
        ap (λ rest. update (update stacks cur calls) cur (handler rest)) top
        ∙ update-update stacks cur calls (handler calls) in
      subst (λ s. Runs (at stacks k calls) (record { kernel = interrupted k; stacks = s })) after
        (Run.next Run.here (subst (HeadIsFresh cur) (sym top) fresh) (Step.interrupt on))

  append-if :
      (b : Bool) (xs ys zs : List Call)
      → (if b then xs else ys) ++ zs ≡ (if b then xs ++ zs else ys ++ zs)
  append-if true xs ys zs = refl
  append-if false xs ys zs = refl

  Run-interrupt_return :
      (stacks : Ptr → List Call) (k : Kernel) (r : List Ptr) (calls : List Call)
      → Runs
          (at stacks (after_wakeup (a_tick_later k) r) (Call.interrupt_return ∷ calls))
          (at stacks (handled k r) (resumed k calls))
  unfolding exec
  Run-interrupt_return stacks k r calls =
      let late = leb 4 (slice_ticks k) in
      let yields = Call.thread_yield ∷ Call.set_level true ∷ [] in
      let goes_on = Call.set_level true ∷ [] in
      subst
        (λ rest.
          Runs (at stacks (after_wakeup (a_tick_later k) r) (Call.interrupt_return ∷ calls))
            (at stacks (handled k r) rest))
        (append-if late yields goes_on calls)
        (Run-call depth code idle_function Call.interrupt_return (if late then yields else goes_on)
          calls (after_wakeup (a_tick_later k) r) (handled k r) stacks tt refl refl)

  -- The rest of the handler, behind `timer_wakeup`.
  Run-handler_end :
      (stacks : Ptr → List Call) (k : Kernel) (r : List Ptr) (calls : List Call)
      → k.thread_mlfqs ≡ false
      → Runs
          (at stacks
            (after_wakeup (a_tick_later k) r)
            (Call.timer_priorities ∷ Call.timer_averages ∷ Call.interrupt_return ∷ calls))
          (at stacks (handled k r) (resumed k calls))
  unfolding exec
  Run-handler_end stacks k r calls mode =
      let k' = after_wakeup (a_tick_later k) r in
      Run-trans depth code idle_function
        (Run-call depth code idle_function Call.timer_priorities []
          (Call.timer_averages ∷ Call.interrupt_return ∷ calls) k' k' stacks tt refl
          (timer_priorities_off k' mode))
        (Run-trans depth code idle_function
          (Run-call depth code idle_function Call.timer_averages [] (Call.interrupt_return ∷ calls)
            k' k' stacks tt refl (timer_averages_off k' mode))
          (Run-interrupt_return stacks k r calls))

  -- Under the priority scheduler and with interrupts on, where the timer interrupts the running
  -- thread while the sleepers are blocked, on no other list and listed once in order of wakeup
  -- ticks, and the ready list is in order of priority (and the next call of the thread, if it makes
  -- a thread, has a page other than its own): the handler runs to its end. It counts the tick, for
  -- the clock, for the idle thread, the user programs or the kernel, and for the time slice. It has
  -- made ready exactly the sleepers whose wakeup tick is not later than the new tick, and the ready
  -- list, with these and what it held before, is in order of priority. The interrupted thread goes on
  -- with what it was about to do; if it has had its four ticks, it yields before that.
  pub Run-timer_interrupt :
      (stacks : Ptr → List Call) (k : Kernel) (calls : List Call)
      → k.intr.on ≡ true
      → k.thread_mlfqs ≡ false
      → IsCurrent k
      → AllAsleep k k.sleep_list
      → IsSorted (wakeup_less k.threads) k.sleep_list
      → IsSorted (less_priority k.threads) k.ready_list
      → HeadIsFresh k.current calls
      → (r : List Ptr) × Runs (at stacks k calls) (at stacks (handled k r) (resumed k calls))
        × IsSorted (less_priority (woken (sleepers_due (a_tick_later k)) k.threads)) r
        × Perm r (sleepers_due (a_tick_later k) ++ k.ready_list)
  unfolding exec
  Run-timer_interrupt stacks k calls on mode cur asleep by_tick by_priority fresh =
      let (r, run, sorted, items) = timer_interrupt_run k mode cur asleep by_tick by_priority in
      let handler =
        Run-call depth code idle_function Call.timer_interrupt
          (Call.timer_priorities ∷ Call.timer_averages ∷ []) (Call.interrupt_return ∷ calls)
          (interrupted k) (after_wakeup (a_tick_later k) r) stacks tt refl run in
      (
        r,
        Run-trans depth code idle_function (Run-interrupt stacks k calls on fresh)
            (Run-trans depth code idle_function handler (Run-handler_end stacks k r calls mode)),
        sorted,
        items,
      )
