-- ===== src/Tests/Creating.antt =====
-- The creation of threads, and the condition variables.
use os_pintos.Base.{◌≡◌, refl, true, false, arith, List, [], ◌∷◌}
use os_pintos.Base.Int.{pos, ◌+ℤ◌, wrap32}
use os_pintos.Platform.Reference.{reference}
use os_pintos.Kernel.{Kernel, undefined, ok}
use os_pintos.Call.{Call}
use os_pintos.Current.{is_thread}
use os_pintos.Locks.{cond_wait, cond_signal}
use os_pintos.Locks.Signal.{enlisted, cond_signal-cond_wait}
use os_pintos.Creation.Init.{IsLoaded, initialised}
use os_pintos.Machine.Uncontended.{Goes}
use os_pintos.Machine.Started.{Run-thread_init}
use os_pintos.Tests.Runs.{no_code}
use os_pintos.Tests.Samples.{kernel, holding, signalling}

-- Thread 2 has the CPU and is to make a thread.
abbrev creator : Kernel
creator = record kernel { ready_list = [] }

cond_signal-cond_wait_example :
    (cond_wait 30 11 23 holding
      ≡ ok
          (Call.lock_release 11
            ∷ Call.sema_down 23
            ∷ Call.lock_acquire 11
            ∷ Call.check_preemption
            ∷ [])
          (enlisted 30 23 holding))
    × (cond_signal 30 11 signalling ≡ undefined)
unfolding is_thread
cond_signal-cond_wait_example =
    cond_signal-cond_wait 30 11 23 22 [] holding signalling (omega arith) (omega arith)
      (omega arith) ((refl, refl), refl, refl) refl ((refl, refl), refl, refl) refl refl refl

-- The first code of the kernel runs at 2; the lists hold what memory happens to.
abbrev loaded : Kernel
loaded = record kernel {
  next_tid = pos 1;
  intr = record { on = false; context = false; yield_on_return = false };
}

loaded-IsLoaded : IsLoaded loaded
loaded-IsLoaded = record {
  mode = refl;
  off = refl;
  normal = refl;
  some_stack = omega arith;
  some_lock = omega arith;
  some_semaphore = omega arith;
  unlinked = refl;
}

Run-thread_init_example :
    Goes 9 no_code 100
      (λ t. [])
      loaded
      (Call.thread_init ∷ Call.set_level true ∷ [])
      (initialised loaded (pos 1) (pos 2))
      (Call.set_level true ∷ [])
unfolding wrap32 ◌+ℤ◌
Run-thread_init_example =
    Run-thread_init 9 no_code 100 (λ t. []) loaded (Call.set_level true ∷ []) loaded-IsLoaded
