-- ===== src/Calibrate.antt =====
-- devices/timer.c: how many turns of the busy wait a timer tick lasts.
pub mod Precision
use os_pintos.Base.{ℕ, zero, suc, ◌+◌, ◌*◌, ◌/◌, ◌%◌, ◌^◌, Bool, not, ◌&&◌, ◌==◌, if◌then◌else◌}
use os_pintos.Base.Int.{ℤ, pos, ◌+ℤ◌, leb_ℤ, wrap64}
use os_pintos.Kernel.{Kernel, undefined, M, ◌>>=◌, ◌>>◌, gets, modify, assert, pure, skip}

-- loops | bit, for a `bit` that is a power of two.
unfoldable pub set_bit : (loops bit : ℕ) → ℕ
set_bit loops bit = if (loops / bit) % 2 == 0 then loops + bit else loops

abbrev pub same_tick : ℤ → ℤ → Bool
same_tick a b = leb_ℤ a b && leb_ℤ b a

-- `passed` is the speed of the machine: the timer interrupts that come during a busy wait of so many
-- turns that starts right after an interrupt. What else their handler does is left out here.
module _ (passed : (loops : ℕ) → ℕ) where
  unfoldable pub too_many_loops : ℕ → M Bool
  unfolding ◌+ℤ◌ wrap64
  too_many_loops loops = do
    -- the wait for a tick
    modify (λ k. record k { ticks = wrap64 (k.ticks +ℤ pos 1) })
    start ← gets (λ k. k.ticks)
    modify (λ k. record k { ticks = wrap64 (k.ticks +ℤ pos (passed loops)) })
    now ← gets (λ k. k.ticks)
    pure (not (same_tick start now))

  -- The loop that doubles, on fuel.
  unfoldable pub double_loops : ℕ → M (Unit {0})
  unfolding too_many_loops
  double_loops zero k = undefined
  double_loops (suc fuel) k =
      let next_turn = double_loops fuel in
      (do
        loops ← gets (λ s. s.loops_per_tick)
        many ← too_many_loops (loops * 2 % 2 ^ 32)
        if many then skip else do
          modify (λ s. record s { loops_per_tick = loops * 2 % 2 ^ 32 })
          assert (not (loops * 2 % 2 ^ 32 == 0))
          next_turn)
        k

  -- The loop over the bits below the high one, on fuel.
  unfoldable pub refine_loops : ℕ → (high_bit test_bit : ℕ) → M (Unit {0})
  unfolding too_many_loops set_bit
  refine_loops zero high_bit test_bit k = undefined
  refine_loops (suc fuel) high_bit test_bit k =
      let next_turn = refine_loops fuel high_bit (test_bit / 2) in
      (if test_bit == high_bit / 2 ^ 10 then skip else do
        loops ← gets (λ s. s.loops_per_tick)
        many ← too_many_loops (set_bit loops test_bit)
        (if many then skip else modify (λ s. record s { loops_per_tick = set_bit loops test_bit }))
        next_turn)
        k

  unfoldable pub timer_calibrate : M (Unit {0})
  unfolding double_loops refine_loops
  timer_calibrate = do
    assert (← gets (λ k. k.intr.on))
    modify (λ k. record k { loops_per_tick = 2 ^ 10 })
    double_loops 22
    high_bit ← gets (λ k. k.loops_per_tick)
    refine_loops 10 high_bit (high_bit / 2)
