-- ===== src/Tests/Waiting.antt =====
-- Semaphores, blocking, sleeping and preemption.
use os_pintos.Base.{◌≤◌, ◌≡◌, refl, true, [], ◌∷◌, arith, ◌⊎◌}
use mathlib.Core.List.{Perm}
use os_pintos.Base.Int.{ℤ, pos, pos_part, neg_part}
use os_pintos.Base.Sorted.{IsSorted}
use os_pintos.Platform.Reference.{reference}
use os_pintos.Kernel.{Kernel, ok, set_thread}
use os_pintos.Call.{Call}
use os_pintos.Current.{is_thread}
use os_pintos.Mlfqs.Priority.{into_range, ideal_priority}
use os_pintos.Scheduler.{less_priority}
use os_pintos.Scheduler.Block.{CanBlock}
use os_pintos.Scheduler.Tick.{InSlice, ticks, thread_tick-ticks}
use os_pintos.Synch.{sema_up, sema_down_loop}
use os_pintos.Synch.Wakes.{Upped, sema_up_lem}
use os_pintos.Synch.Sleeps.{CanSleep, Turned, queued_up, sema_down_loop_lem}
use os_pintos.Timer.{wakeup_less, timer_sleep}
use os_pintos.Timer.Sleep.{Slept, closed, timer_sleep_lem}
use os_pintos.Preemption.{check_preemption, mlfqs_check_preemption, thread_set_nice}
use os_pintos.Preemption.Outranks.{Kept, GivenUp, check_preemption_lem}
use os_pintos.Preemption.Queued.{KeptOff, GivenUpFor, mlfqs_check_preemption_lem}
use os_pintos.Preemption.Nice.{Nearest, thread_set_nice_lem}
use os_pintos.Tests.Samples.{kernel, queues, waiting}

sema_up_lem_example : Upped waiting 21 (sema_up 21 waiting)
unfolding is_thread less_priority
sema_up_lem_example =
    sema_up_lem 21 waiting (omega arith) refl ((refl, refl), ((refl, refl), tt)) (refl, (tt, tt))
      (refl, (tt, tt))

waiting-CanSleep : CanSleep waiting
unfolding is_thread less_priority
waiting-CanSleep = record {
  mode = refl;
  normal = refl;
  off = refl;
  valid = refl;
  running = refl;
  free = refl;
  idle_valid = refl;
  threads_valid = (refl, (refl, tt));
  sorted = (refl, (tt, tt));
}

sema_down_loop_lem_example :
    Turned waiting 21 true (sema_down_loop 21 true waiting)
    × IsSorted (less_priority waiting.threads) (queued_up waiting 21)
    × Perm (queued_up waiting 21) (2 ∷ 6 ∷ 5 ∷ [])
unfolding less_priority
sema_down_loop_lem_example = sema_down_loop_lem 21 true waiting waiting-CanSleep (refl, (tt, tt))

closed-CanBlock : CanBlock (closed kernel)
unfolding is_thread less_priority
closed-CanBlock = record {
  mode = refl;
  normal = refl;
  off = refl;
  valid = refl;
  running = refl;
  idle_valid = refl;
  threads_valid = (refl, (refl, tt));
  sorted = (refl, (tt, tt));
}

kernel-InSlice : InSlice kernel 0
unfolding is_thread
kernel-InSlice = record { current = (refl, refl); slice = refl; asked = refl }

thread_tick-ticks_example :
    (k' : Kernel) × (ticks 4 kernel ≡ ok tt k') × InSlice k' 4 × (k'.current ≡ 2)
thread_tick-ticks_example = thread_tick-ticks 4 kernel (omega arith) kernel-InSlice

timer_sleep_lem_example : Slept (pos 7) kernel (timer_sleep (pos 7) kernel)
unfolding wakeup_less
timer_sleep_lem_example =
    timer_sleep_lem (pos 7) kernel refl closed-CanBlock refl (refl, (refl, (tt, tt)))

check_preemption_lem_example :
    Kept kernel (check_preemption kernel) ⊎ GivenUp kernel (check_preemption kernel)
unfolding is_thread less_priority
check_preemption_lem_example = check_preemption_lem kernel (refl, refl) (refl, (tt, tt))

mlfqs_check_preemption_lem_example :
    KeptOff queues (mlfqs_check_preemption queues)
    ⊎ GivenUpFor queues (mlfqs_check_preemption queues)
unfolding is_thread
mlfqs_check_preemption_lem_example = mlfqs_check_preemption_lem queues (refl, refl) (omega arith)

thread_set_nice_lem_example :
    (m : ℤ) × (thread_set_nice (pos 25) queues
      ≡ ok (Call.mlfqs_check_preemption ∷ []) (
          set_thread 2
            (record (queues.threads 2) {
              nice = m;
              priority = into_range (ideal_priority (pos 0) m);
            })
            queues))
    × ((neg_part m ≤ 20) × (pos_part m ≤ 20))
    × Nearest (pos 25) m
unfolding is_thread
thread_set_nice_lem_example =
    thread_set_nice_lem (pos 25) queues (refl, refl) (omega arith) ((omega arith, omega arith))

-- The running thread 2, at 31, goes in between 6, at 50, and 5, at 10; then 3 runs, at 40.
sema_down_order : queued_up waiting 21 ≡ 6 ∷ 2 ∷ 5 ∷ []
unfolding less_priority
sema_down_order = refl
