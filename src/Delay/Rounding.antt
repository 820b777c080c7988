-- ===== src/Delay/Rounding.antt =====
-- How long `timer_msleep` and its kin wait.
use os_pintos.Base.{
  ℕ, ◌+◌, ◌*◌, ◌/◌, ◌^◌, ◌≤◌, ◌<◌, ◌≡◌, ◌∙◌, true, ltb, inl, inr, Bool-cases, arith, some, List, [],
  ◌∷◌, if◌then◌else◌,
}
use native.Mathlib.Nat.{div-mul-le_self, lt-div-mul-add, div-le_self}
use os_pintos.Base.Int.{pos, ◌*ℤ◌, ◌/ℤ◌, ◌%ℤ◌, wrap64, wrap64_id}
use os_pintos.Kernel.{Kernel, Outcome, ok}
use os_pintos.Call.{Call}
use os_pintos.Delay.{div64, real_time_delay, real_time_sleep}

times_pos : (a b : ℕ) → pos a *ℤ pos b ≡ pos (a * b)
unfolding ◌*ℤ◌
times_pos a b = ground arith

wrap64_pos : (a : ℕ) → a < 2 ^ 63 → wrap64 (pos a) ≡ pos a
wrap64_pos a h = wrap64_id (pos a) (omega arith)

div64_pos : (a b : ℕ) → 0 < b → a < 2 ^ 63 → div64 (pos a) (pos b) ≡ some (pos (a / b))
unfolding ◌/ℤ◌
div64_pos a b h bound = ground (arith, wrap64_pos (a / b), div-le_self a b)

-- The turns of the busy wait for n / (1000 * d) seconds.
abbrev pub turns : (loops_per_tick n d : ℕ) → ℕ
turns loops_per_tick n d = loops_per_tick * n / 1000 * 100 / d

turns_bounds :
    (l n d : ℕ)
    → 0 < d
    → (turns l n d * (1000 * d) ≤ l * n * 100)
      × (l * n * 100 < (turns l n d + 1) * (1000 * d) + 100_000)
turns_bounds l n d h =
    let p = l * n in
    let c = p / 1000 * 100 in
    let low : c / d * d ≤ c = div-mul-le_self c d in
    let high : c < c / d * d + d = lt-div-mul-add h in (grind arith, grind arith)

delay_run :
    (n d : ℕ) (k : Kernel)
    → 0 < d
    → k.loops_per_tick * n * 100 < 2 ^ 63
    → real_time_delay (pos n) (pos (1000 * d)) k
      ≡ ok (Call.busy_wait (pos (turns k.loops_per_tick n d)) ∷ []) k
unfolding real_time_delay ◌/ℤ◌ ◌%ℤ◌
delay_run n d k h bound =
    let p = k.loops_per_tick * n in
    ground (
      arith,
      times_pos k.loops_per_tick n,
      wrap64_pos p,
      times_pos (p / 1000) 100,
      wrap64_pos (p / 1000 * 100),
      div64_pos (p / 1000 * 100) d,
    )

sleep_run :
    (n d : ℕ) (k : Kernel)
    → 0 < d
    → n * 100 < 2 ^ 63
    → k.intr.on ≡ true
    → real_time_sleep (pos n) (pos (1000 * d)) k ≡ (
        if ltb 0 (n * 100 / (1000 * d))
        then ok (Call.timer_sleep (pos (n * 100 / (1000 * d))) ∷ []) k
        else real_time_delay (pos n) (pos (1000 * d)) k)
unfolding real_time_sleep
sleep_run n d k h bound on =
    ground (arith, times_pos n 100, wrap64_pos (n * 100), div64_pos (n * 100) (1000 * d))

-- What is left to do by a thread that waits for n / (1000 * d) seconds.
pub data Waits (n d : ℕ) (k : Kernel) (o : Outcome (List Call)) : Type 0 where
  sleeps :
      (s : ℕ)
      → 0 < s
      → s * (1000 * d) ≤ n * 100
      → n * 100 < (s + 1) * (1000 * d)
      → o ≡ ok (Call.timer_sleep (pos s) ∷ []) k
      → Waits n d k o
  turns_round :
      (r : ℕ)
      → n * 100 < 1000 * d
      → r * (1000 * d) ≤ k.loops_per_tick * n * 100
      → k.loops_per_tick * n * 100 < (r + 1) * (1000 * d) + 100_000
      → o ≡ ok (Call.busy_wait (pos r) ∷ []) k
      → Waits n d k o

short_fits : (l n d : ℕ) → l < 2 ^ 32 → d ≤ 1000 * 1000 → n * 100 < 1000 * d → l * n * 100 < 2 ^ 63
short_fits l n d hl hd short = let step : l * n ≤ 2 ^ 32 * n = grind arith in omega (arith, step)

-- With interrupts on, for a wait of n / (1000 * d) seconds with d at most a million, so of a number of
-- milliseconds, microseconds or nanoseconds, whose hundredfold is below 2^63: a wait of at least a tick, of a hundredth of a second, sleeps for the whole
-- number of ticks in the time asked for, rounded down. A shorter one is a busy wait of some number
-- of turns: times the denominator it is at most loops_per_tick * n * 100, the turns of that time at
-- the calibrated speed, and with one turn and the remainder of the scaling by 1000 (100,000) added it
-- is more.
pub real_time_sleep_lem :
    (n d : ℕ) (k : Kernel)
    → 0 < d
    → d ≤ 1000 * 1000
    → n * 100 < 2 ^ 63
    → k.loops_per_tick < 2 ^ 32
    → k.intr.on ≡ true
    → Waits n d k (real_time_sleep (pos n) (pos (1000 * d)) k)
real_time_sleep_lem n d k h small bound speed on =
    let run = sleep_run n d k h bound on in
    let s = n * 100 / (1000 * d) in
    let low : s * (1000 * d) ≤ n * 100 = div-mul-le_self (n * 100) (1000 * d) in
    let high : n * 100 < s * (1000 * d) + 1000 * d = lt-div-mul-add (omega (arith, h)) in
    elim (Bool-cases (ltb 0 s)) [
      | inl long ↦ sleeps s (ground arith) low (grind arith) (rw long at run)
      | inr brief ↦
          let none : s ≡ 0 = ground arith in
          let short : n * 100 < 1000 * d = grind arith in
          let (a, b) = turns_bounds k.loops_per_tick n d h in
          turns_round (turns k.loops_per_tick n d) short a b (
            rw brief at run ∙ delay_run n d k h (short_fits k.loops_per_tick n d speed small short))
    ]
