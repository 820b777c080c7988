-- ===== src/Delay.antt =====
-- devices/timer.c: sleeping and busy waiting for a time in seconds.
pub mod Rounding
use os_pintos.Base.{Bool, Option, none, some, List, [], ◌∷◌, ◌*◌, ◌^◌, if◌then◌else◌}
use os_pintos.Base.Int.{ℤ, pos, ◌-ℤ◌, ◌*ℤ◌, ◌/ℤ◌, ◌%ℤ◌, is_zero, ltb_ℤ, wrap64}
use os_pintos.Platform.{Platform}
use os_pintos.Kernel.{Kernel, M, ◌>>=◌, ◌>>◌, gets, assert, or_trap, pure}
use os_pintos.Call.{Call}
use os_pintos.Timer.{timer_freq}

-- a / b on int64_t; a division by 0 traps.
abbrev pub div64 : ℤ → ℤ → Option ℤ
div64 a b = if is_zero b then none else some (wrap64 (a /ℤ b))

-- A turn of the loop, between whose turns the thread may be interrupted.
unfoldable pub busy_wait : (loops : ℤ) → M (List Call)
unfolding ◌-ℤ◌
busy_wait loops =
    pure (if ltb_ℤ (pos 0) loops then Call.busy_wait (wrap64 (loops -ℤ pos 1)) ∷ [] else [])

unfoldable pub real_time_delay : (num denom : ℤ) → M (List Call)
unfolding ◌*ℤ◌ ◌/ℤ◌ ◌%ℤ◌
real_time_delay num denom = do
  assert (is_zero (denom %ℤ pos 1000))
  loops_per_tick ← gets (λ k. k.loops_per_tick)
  let scaled = wrap64 (wrap64 (pos loops_per_tick *ℤ num) /ℤ pos 1000 *ℤ pos timer_freq)
  loops ← or_trap (div64 scaled (denom /ℤ pos 1000))
  pure (Call.busy_wait loops ∷ [])

unfoldable pub real_time_sleep : (num denom : ℤ) → M (List Call)
unfolding ◌*ℤ◌ ◌/ℤ◌ real_time_delay
real_time_sleep num denom = do
  ticks ← or_trap (div64 (wrap64 (num *ℤ pos timer_freq)) denom)
  assert (← gets (λ k. k.intr.on))
  if ltb_ℤ (pos 0) ticks then pure (Call.timer_sleep ticks ∷ []) else real_time_delay num denom

unfoldable pub timer_msleep : ℤ → M (List Call)
unfolding real_time_sleep
timer_msleep ms = real_time_sleep ms (pos 1000)

unfoldable pub timer_usleep : ℤ → M (List Call)
unfolding real_time_sleep
timer_usleep us = real_time_sleep us (pos (1000 * 1000))

unfoldable pub timer_nsleep : ℤ → M (List Call)
unfolding real_time_sleep
timer_nsleep ns = real_time_sleep ns (pos (1000 * 1000 * 1000))

unfoldable pub timer_mdelay : ℤ → M (List Call)
unfolding real_time_delay
timer_mdelay ms = real_time_delay ms (pos 1000)

unfoldable pub timer_udelay : ℤ → M (List Call)
unfolding real_time_delay
timer_udelay us = real_time_delay us (pos (1000 * 1000))

unfoldable pub timer_ndelay : ℤ → M (List Call)
unfolding real_time_delay
timer_ndelay ns = real_time_delay ns (pos (1000 * 1000 * 1000))
