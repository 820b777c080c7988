-- ===== src/Tests/Runs.antt =====
-- Runs of the machine.
use os_pintos.Base.{◌≡◌, refl, true, List, [], ◌∷◌, arith}
use os_pintos.Platform.Reference.{reference}
use os_pintos.Kernel.{Ptr, Kernel, Outcome, ok, panic, undefined, update}
use os_pintos.Call.{Call}
use os_pintos.Preemption.{check_preemption}
use os_pintos.Scheduler.{less_priority, thread_yield}
use os_pintos.Machine.{Machine, Step, exec}
use os_pintos.Machine.Invariant.{OneRuns, Run, Run-OneRuns}
use os_pintos.Tests.Samples.{kernel}

-- No thread has a program of its own.
abbrev pub no_code : Ptr → Ptr → List Call
no_code function aux = []

abbrev state_of : Outcome (List Call) → Kernel
state_of (ok left k) = k
state_of panic = kernel
state_of undefined = kernel

-- The running thread checks for preemption, and yields to thread 3, which outranks it.
abbrev pub checking : Machine
checking = record { kernel = kernel; stacks = update (λ t. []) 2 (Call.check_preemption ∷ []) }

abbrev yielding : Machine
yielding = record { kernel = kernel; stacks = update checking.stacks 2 (Call.thread_yield ∷ []) }

abbrev yielded : Machine
yielded = record {
  kernel = state_of (exec 9 no_code 100 Call.thread_yield kernel);
  stacks = update yielding.stacks 2 (Call.set_level true ∷ []);
}

first_turn : Step 9 no_code 100 checking yielding
unfolding exec check_preemption
first_turn = Step.call Call.check_preemption [] (Call.thread_yield ∷ []) kernel refl refl

second_turn : Step 9 no_code 100 yielding yielded
unfolding exec thread_yield less_priority
second_turn = Step.call Call.thread_yield [] (Call.set_level true ∷ []) yielded.kernel refl refl

kernel-OneRuns : OneRuns kernel
kernel-OneRuns = record { most = record { cpu = refl; only = λ t r. ground arith }; runs = refl }

Run-OneRuns_example : OneRuns yielded.kernel
unfolding exec
Run-OneRuns_example =
    Run-OneRuns 9 no_code 100 (Run.next (Run.next Run.here tt first_turn) tt second_turn)
      kernel-OneRuns

-- Thread 3 has the CPU.
yielded_current : yielded.kernel.current ≡ 3
unfolding exec thread_yield less_priority
yielded_current = refl
