-- ===== src/Machine.antt =====
-- The threads of the kernel, each with the calls that it has still to make, and the CPU that makes
-- the first call of the running thread. The program of a thread and the moments at which the timer
-- interrupts are left open.
pub mod Quiet
pub mod Calls
pub mod Switch
pub mod Schedule
pub mod Delays
pub mod Parts
pub mod Starts
pub mod Invariant
pub mod Turns
pub mod Waiting
pub mod Uncontended
pub mod Interrupts
pub mod Started
pub mod Created
use os_pintos.Base.{ℕ, ◌==◌, true, false, List, [], ◌∷◌, ◌++◌, ◌≡◌, if◌then◌else◌}
use os_pintos.Platform.{Platform}
use os_pintos.Kernel.{Ptr, Kernel, ok, update, M, ◌>>=◌, ◌>>◌, gets, modify, pure}
use os_pintos.Call.{Call}
use os_pintos.Scheduler.{intr_set_level, thread_yield, thread_exit}
use os_pintos.Preemption.{
  check_preemption, mlfqs_check_preemption, thread_yield_if_necessary, thread_set_priority,
  thread_set_nice,
}
use os_pintos.Synch.{sema_down, sema_down_loop, sema_up}
use os_pintos.Locks.{
  lock_acquire, lock_taken, lock_granted, lock_release, lock_released, cond_wait, cond_signal,
  cond_broadcast,
}
use os_pintos.Creation.{
  thread_create, tid_taken, tid_given, thread_init, main_tid_taken, main_tid_given, thread_start,
  kernel_thread, idle, idle_loop,
}
use os_pintos.Delay.{
  busy_wait, timer_msleep, timer_usleep, timer_nsleep, timer_mdelay, timer_udelay, timer_ndelay,
}
use os_pintos.Timer.{timer_sleep, wakeup_from, timer_interrupt, timer_priorities, timer_averages}
use os_pintos.Base.{length}

pub record Machine : Type 0 where
  pub kernel : Kernel
  pub stacks : Ptr → List Call

-- `code` has what a function does with its argument, as calls; `idle` is at `idle_function`.
module _ ⦃os : Platform⦄ (depth : ℕ) (code : (function aux : Ptr) → List Call)
    (idle_function : Ptr) where
  -- A return from the handler: interrupt.c makes the yield that was asked for, and the interrupted
  -- code has its interrupts on again.
  abbrev interrupt_return : M (List Call)
  interrupt_return = do
    wanted ← gets (λ k. k.intr.yield_on_return)
    modify (λ k. record k { intr = record k.intr { context = false; yield_on_return = false } })
    pure (if wanted then Call.thread_yield ∷ Call.set_level true ∷ [] else Call.set_level true ∷ [])

  -- One call, up to the end of its part that runs at once; the calls that it leaves to the thread.
  unfoldable pub exec : Call → M (List Call)
  exec Call.thread_yield = do old_level ← thread_yield; pure (Call.set_level old_level ∷ [])
  exec (Call.set_level old_level) = intr_set_level old_level >> pure []
  exec Call.check_preemption = check_preemption
  exec Call.mlfqs_check_preemption = mlfqs_check_preemption
  exec Call.thread_yield_if_necessary = thread_yield_if_necessary
  exec (Call.thread_set_priority p) = thread_set_priority p
  exec (Call.thread_set_nice n) = thread_set_nice n
  exec Call.thread_exit = thread_exit >> pure []
  exec (Call.sema_down s) = sema_down s
  exec (Call.sema_down_loop s old_level) = sema_down_loop s old_level
  exec (Call.sema_up s) = sema_up s
  exec (Call.lock_acquire l) = lock_acquire depth l
  exec (Call.lock_taken l cur old_level) = lock_taken l cur old_level
  exec (Call.lock_granted l cur) = lock_granted l cur
  exec (Call.lock_release l) = lock_release l
  exec (Call.lock_released cur old_level) = lock_released cur old_level
  exec (Call.cond_wait c l w) = cond_wait c l w
  exec (Call.cond_signal c l) = cond_signal c l
  exec (Call.cond_broadcast c l) = cond_broadcast c l
  exec (Call.thread_create name priority function aux page) =
      thread_create name priority function aux page
  exec (Call.tid_taken t function aux) = tid_taken t function aux
  exec (Call.tid_given t tid function aux) = tid_given t tid function aux
  exec Call.thread_init = thread_init
  exec Call.main_tid_taken = main_tid_taken
  exec (Call.main_tid_given tid) = main_tid_given tid
  exec (Call.thread_start idle_started page) = thread_start idle_function idle_started page
  exec (Call.kernel_thread function aux) =
      kernel_thread function
        (if function == idle_function then Call.idle aux ∷ [] else code function aux)
  exec (Call.idle idle_started) = idle idle_started
  exec Call.idle_loop = idle_loop
  exec (Call.timer_sleep ticks) = timer_sleep ticks
  exec (Call.timer_msleep ms) = timer_msleep ms
  exec (Call.timer_usleep us) = timer_usleep us
  exec (Call.timer_nsleep ns) = timer_nsleep ns
  exec (Call.timer_mdelay ms) = timer_mdelay ms
  exec (Call.timer_udelay us) = timer_udelay us
  exec (Call.timer_ndelay ns) = timer_ndelay ns
  exec (Call.busy_wait loops) = busy_wait loops
  exec (Call.timer_wakeup_loop now) = do
    sleepers ← gets (λ k. k.sleep_list)
    wakeup_from (length sleepers) now
  exec Call.timer_interrupt = timer_interrupt
  exec Call.timer_priorities = timer_priorities
  exec Call.timer_averages = timer_averages
  exec Call.interrupt_return = interrupt_return

  -- The thread `t` makes its first call; what the call leaves goes before the rest.
  pub data Step (m : Machine) : Machine → Type 0 where
    call :
        (c : Call) (rest left : List Call) (k : Kernel)
        → m.stacks m.kernel.current ≡ c ∷ rest
        → exec c m.kernel ≡ ok left k
        → Step m (record { kernel = k; stacks = update m.stacks m.kernel.current (left ++ rest) })
    -- A new thread has nothing on its stack but the frame of `kernel_thread`.
    start :
        m.stacks m.kernel.current ≡ []
        → Step m (record m {
          stacks =
              let frame = m.kernel.frames m.kernel.current in
              update m.stacks m.kernel.current (Call.kernel_thread frame.function frame.aux ∷ []);
        })
    interrupt :
        m.kernel.intr.on ≡ true
        → Step m (record {
          kernel = record m.kernel {
            intr = record { on = false; context = true; yield_on_return = false };
          };
          stacks =
              update m.stacks m.kernel.current
                (Call.timer_interrupt ∷ Call.interrupt_return ∷ m.stacks m.kernel.current);
        })
