-- ===== src/Machine/Invariant.antt =====
-- Along every run of the machine exactly one thread is running, the one on whose stack the CPU is.
use os_pintos.Base.{ℕ, ◌≡◌, ◌≢◌, subst, sym, refl, List, [], ◌∷◌}
use os_pintos.Platform.{Platform}
use os_pintos.Kernel.{Ptr, Kernel, Outcome, ok, panic, undefined}
use os_pintos.Call.{Call}
use os_pintos.Machine.{Machine, Step, exec, interrupt_return}
use os_pintos.Machine.Quiet.{Ends, Quiet, quiet_rules}
use os_pintos.Machine.Switch.{Exactly, Steady, steady_rules}
use os_pintos.Machine.Schedule.{thread_yield-Settles, thread_exit-Settles}
use os_pintos.Machine.Delays
use os_pintos.Machine.Parts
use os_pintos.Machine.Starts
use os_pintos.Creation.{thread_create}

-- The current thread runs, and no other.
abbrev pub OneRuns : Kernel → Type 0
OneRuns k = Exactly k.current k

-- What palloc_get_page sees to: the page that a new thread gets is not that of the running thread.
abbrev pub IsFresh : Ptr → Call → Type 0
IsFresh cur (Call.thread_create name priority function aux page) = page ≢ cur
IsFresh cur c = Unit

abbrev pub HeadIsFresh : Ptr → List Call → Type 0
HeadIsFresh cur [] = Unit
HeadIsFresh cur (c ∷ rest) = IsFresh cur c

abbrev pub IsOther : Call → Type 0
IsOther (Call.thread_create name priority function aux page) = ⊥
IsOther c = Unit

module _ ⦃os : Platform⦄ (depth : ℕ) (code : (function aux : Ptr) → List Call)
    (idle_function : Ptr) where
  interrupt_return-Quiet : Quiet (interrupt_return depth code idle_function)
  interrupt_return-Quiet = search quiet_rules depth 20

  Ends-weaken :
      {A : Type 0} (c : Ptr) (o : Outcome A) → Ends (λ a. Exactly c) o → Ends (λ a. OneRuns) o
  Ends-weaken c (ok a k) h = subst (λ d. Exactly d k) (sym h.most.cpu) h
  Ends-weaken c panic h = tt
  Ends-weaken c undefined h = tt

  ruleset parts = (
    steady_rules, quiet_rules, Delays.busy_wait-Quiet, Delays.timer_msleep-Quiet,
    Delays.timer_usleep-Quiet, Delays.timer_nsleep-Quiet, Delays.timer_mdelay-Quiet,
    Delays.timer_udelay-Quiet, Delays.timer_ndelay-Quiet, interrupt_return-Quiet,
    thread_yield-Settles, thread_exit-Settles, Parts.check_preemption-Quiet,
    Parts.mlfqs_check_preemption-Quiet, Parts.thread_yield_if_necessary-Quiet,
    Parts.thread_set_priority-Quiet, Parts.thread_set_nice-Quiet, Parts.sema_down-Quiet,
    Parts.sema_up-Quiet, Parts.lock_acquire-Quiet, Parts.lock_taken-Quiet, Parts.lock_granted-Quiet,
    Parts.lock_release-Quiet, Parts.lock_released-Quiet, Parts.cond_wait-Quiet,
    Parts.cond_signal-Quiet, Parts.cond_broadcast-Quiet, Parts.wakeup_from-Quiet,
    Parts.timer_interrupt-Quiet, Parts.timer_priorities-Quiet, Parts.timer_averages-Quiet,
    Starts.sema_down_loop-Steady, Starts.timer_sleep-Steady, Starts.tid_taken-Quiet,
    Starts.tid_given-Quiet, Starts.idle_loop-Steady, Starts.thread_start-Quiet,
    Starts.kernel_thread-Quiet, Starts.idle-Quiet, Starts.main_tid_taken-Quiet,
    Starts.main_tid_given-Quiet, Starts.thread_init-Settles,
  )

  exec-Steady : (c : Call) → IsOther c → Steady (exec depth code idle_function c)
  unfolding exec
  exec-Steady (Call.thread_create name priority function aux page) other = absurd other
  exec-Steady _ other = search parts depth 8

  exec-OneRuns :
      (c : Call) (k : Kernel)
      → IsFresh k.current c
      → OneRuns k
      → Ends (λ left. OneRuns) (exec depth code idle_function c k)
  unfolding exec
  exec-OneRuns (Call.thread_create name priority function aux page) k fresh h =
      Ends-weaken k.current (thread_create name priority function aux page k)
        ((Starts.thread_create-Exactly k.current name priority function aux page fresh).at k h)
  exec-OneRuns c k fresh h = (exec-Steady c tt).at k h

  -- The call that the running thread comes to next gets a fresh page, if it makes a thread.
  abbrev pub NextIsFresh : Machine → Type 0
  NextIsFresh m = HeadIsFresh m.kernel.current (m.stacks m.kernel.current)

  exec_outcome :
      (k : Kernel) (o : Outcome (List Call)) (left : List Call)
      → o ≡ ok left k
      → Ends (λ a. OneRuns) o
      → OneRuns k
  exec_outcome k o left e h = rw e at h

  Step-OneRuns :
      {m m' : Machine}
      → Step depth code idle_function m m'
      → NextIsFresh m
      → OneRuns m.kernel
      → OneRuns m'.kernel
  Step-OneRuns {m} (Step.call c rest left k e q) fresh h =
      exec_outcome k (exec depth code idle_function c m.kernel) left q
        (exec-OneRuns c m.kernel (rw e at fresh) h)
  Step-OneRuns {m} (Step.start e) fresh h = h
  Step-OneRuns {m} (Step.interrupt on) fresh h = record {
    most = record { cpu = refl; only = h.most.only };
    runs = h.runs;
  }

  -- Runs of the machine, on pages that palloc.c hands out.
  pub data Run (m : Machine) : Machine → Type 0 where
    here : Run m m
    next : {t u : Machine} → Run m t → NextIsFresh t → Step depth code idle_function t u → Run m u

  -- Whatever the threads call and whenever the timer interrupts them: if exactly one thread has the
  -- status of a running one at the start, the current thread, and no new thread is put on the page of
  -- the running one, then after every run exactly one thread has this status, and it is the one on
  -- whose stack the CPU is. Calls of both schedulers, of the semaphores, locks, condition variables
  -- and of the timer may stand on the stacks in any order.
  pub Run-OneRuns : {m m' : Machine} → Run m m' → OneRuns m.kernel → OneRuns m'.kernel
  Run-OneRuns here h = h
  Run-OneRuns (next r fresh step) h = Step-OneRuns step fresh (Run-OneRuns r h)
