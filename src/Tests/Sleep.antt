-- ===== src/Tests/Sleep.antt =====
-- The sleep list.
use os_pintos.Base.{◌≡◌, refl, List, [], ◌∷◌, ◌++◌}
use mathlib.Core.List.{Perm}
use os_pintos.Base.Int.{pos}
use os_pintos.Base.Sorted.{IsSorted}
use os_pintos.Platform.Reference.{reference}
use os_pintos.Kernel.{Ptr, ok}
use os_pintos.Current.{is_thread}
use os_pintos.Scheduler.{less_priority}
use os_pintos.Timer.{wakeup_less, timer_wakeup}
use os_pintos.Timer.Due.{woken}
use os_pintos.Timer.Sleepers.{timer_wakeup_lem}
use os_pintos.Call.{Call}
use os_pintos.Timer.Sleepers.{sleepers_due}
use os_pintos.Timer.Interrupt.{a_tick_later}
use os_pintos.Machine.Invariant.{Run}
use os_pintos.Machine.Turns.{at}
use os_pintos.Machine.Interrupts.{resumed, handled, Run-timer_interrupt}
use os_pintos.Tests.Samples.{kernel, handler}

-- At tick 10 the threads 5 and 6 wake, and 7 sleeps on.
timer_wakeup_lem_example :
    (r : List Ptr) × (timer_wakeup handler
      ≡ ok [] (record handler {
        threads = woken (5 ∷ 6 ∷ []) handler.threads;
        sleep_list = 7 ∷ [];
        ready_list = r;
      }))
    × IsSorted (less_priority (woken (5 ∷ 6 ∷ []) handler.threads)) r
    × Perm r (5 ∷ 6 ∷ 3 ∷ 4 ∷ [])
unfolding is_thread less_priority wakeup_less
timer_wakeup_lem_example =
    timer_wakeup_lem handler refl refl
      ((refl, refl, refl), refl, ((refl, refl, refl), refl, ((refl, refl, refl), refl, tt)))
      (refl, (refl, (tt, tt))) (refl, (tt, tt))

-- The last tick of a time slice, in the middle of a busy wait.
Run-timer_interrupt_example :
    let late = record kernel { thread_ticks = 3 } in
    let waits = Call.busy_wait (pos 5) ∷ [] in
    (r : List Ptr) × Run 8
      (λ f aux. [])
      99
      (at (λ t. []) late waits)
      (at (λ t. []) (handled late r) (resumed late waits))
    × IsSorted (less_priority (woken (sleepers_due (a_tick_later late)) late.threads)) r
    × Perm r (sleepers_due (a_tick_later late) ++ late.ready_list)
unfolding is_thread less_priority wakeup_less
Run-timer_interrupt_example =
    Run-timer_interrupt 8 (λ f aux. []) 99 (λ t. []) (record kernel { thread_ticks = 3 })
      (Call.busy_wait (pos 5) ∷ []) refl refl (refl, refl)
      ((refl, refl, refl), refl, ((refl, refl, refl), refl, ((refl, refl, refl), refl, tt)))
      (refl, (refl, (tt, tt))) (refl, (tt, tt)) tt
