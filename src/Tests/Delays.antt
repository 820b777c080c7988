-- ===== src/Tests/Delays.antt =====
-- The delays and the calibration of the timer on the sample kernel.
use os_pintos.Base.{ℕ, ◌*◌, ◌/◌, ◌<◌, ◌≤◌, ◌≡◌, refl, [], ◌∷◌, arith}
use os_pintos.Base.Int.{ℤ, pos}
use os_pintos.Platform.Reference.{reference}
use os_pintos.Kernel.{Outcome, ok, panic, undefined}
use os_pintos.Calibrate.{timer_calibrate}
use os_pintos.Calibrate.Precision.{LastsATick, timed, timer_calibrate_lem}
use os_pintos.Call.{Call}
use os_pintos.Delay.{real_time_sleep}
use os_pintos.Delay.Rounding.{Waits, real_time_sleep_lem}
use os_pintos.Machine.Invariant.{Run}
use os_pintos.Machine.Turns.{with_calls}
use os_pintos.Machine.Waiting.{wait_calls, Run-busy_wait}
use os_pintos.Tests.Samples.{kernel}
use os_pintos.Tests.Runs.{checking, no_code}

-- 25 milliseconds.
real_time_sleep_lem_example : Waits 25 1 kernel (real_time_sleep (pos 25) (pos 1000) kernel)
real_time_sleep_lem_example =
    real_time_sleep_lem 25 1 kernel (omega arith) (omega arith) (omega arith) (omega arith) refl

-- The second of three turns.
Run-busy_wait_example :
    Run 9 no_code 100
      (with_calls checking (Call.busy_wait (pos 3) ∷ Call.check_preemption ∷ []))
      (with_calls checking (Call.check_preemption ∷ []))
    × (wait_calls 9 no_code 100 2 (Call.busy_wait (pos 3) ∷ Call.check_preemption ∷ []) kernel
        ≡ ok (Call.busy_wait (pos 1) ∷ Call.check_preemption ∷ []) kernel)
    × (wait_calls 9 no_code 100 4 (Call.busy_wait (pos 3) ∷ Call.check_preemption ∷ []) kernel
        ≡ ok (Call.check_preemption ∷ []) kernel)
Run-busy_wait_example =
    Run-busy_wait 9 no_code 100 3 2 checking (Call.check_preemption ∷ []) (omega arith)
      (omega arith)

-- A machine that gets through 3000 turns of the busy wait in a tick.
abbrev turns_3000 : ℕ → ℕ
turns_3000 n = n / 3000

turns_3000-LastsATick : LastsATick turns_3000 3000
turns_3000-LastsATick n h = ground arith

timer_calibrate_lem_example :
    (n : ℕ) × (z : ℤ) × (timer_calibrate turns_3000 kernel ≡ ok tt (timed kernel n z))
    × (n < 3000)
    × (3000 * 512 ≤ n * 513)
timer_calibrate_lem_example =
    timer_calibrate_lem turns_3000 3000 turns_3000-LastsATick kernel (omega arith) (omega arith)
      refl

abbrev loops_of : Outcome (Unit {0}) → ℕ
loops_of (ok x k) = k.loops_per_tick
loops_of panic = 0
loops_of undefined = 0

abbrev calibrated : ℕ
calibrated = loops_of (timer_calibrate turns_3000 kernel)

calibrated_loops : calibrated ≡ 2996
unfolding timer_calibrate
calibrated_loops = refl
