-- ===== src/Mlfqs/Averages.antt =====
-- The load average and the use of the CPU: no trap, no overflow, and their bounds.
use os_pintos.Base.{ℕ, ◌+◌, ◌*◌, ◌/◌, ◌^◌, ◌≤◌, ◌<◌, ◌≡◌, ◌≢◌, refl, ap, ◌∙◌, arith, some}
use os_pintos.Base.Int.{
  ℤ, pos, negsuc, pos_part, neg_part, neg, ◌+ℤ◌, ◌*ℤ◌, ◌/ℤ◌, wrap32, wrap64, IsInt32,
}
use os_pintos.Platform.{Platform}
use os_pintos.FixedPoint.{fp_add, fp_div_int, fp_mul, fp_mul_int, fp_div, fp_add_int, int_to_fp}
use os_pintos.Kernel.{Ptr, Thread, Kernel, set_thread, ok}
use os_pintos.Mlfqs.Queues.{IsCurrent, ready_count, mlfqs_ready_threads_lem}
use os_pintos.Mlfqs.{decay, mlfqs_update_recent_cpu, mlfqs_update_load_avg}

-- The value that `mlfqs_update_load_avg` stores, over the naturals: 16110 is 59/60 of 2^14 and 273
-- is 1/60 of it, rounded down.
abbrev pub next_load : (load ready : ℕ) → ℕ
next_load load ready = 16110 * load / 2 ^ 14 + 273 * ready

-- A coefficient of at most one does not make a number larger.
shrink : (c x : ℕ) → c ≤ 2 ^ 14 → c * x ≤ 2 ^ 14 * x
shrink c x h = grind arith

fp_mul-pos : (c x : ℕ) → c ≤ 2 ^ 14 → x < 2 ^ 31 → fp_mul (pos c) (pos x) ≡ pos (c * x / 2 ^ 14)
unfolding fp_mul ◌*ℤ◌ ◌/ℤ◌ wrap64 wrap32
fp_mul-pos c x h k = ground (arith, shrink c x h)

fp_mul-neg :
    (c x : ℕ) → c ≤ 2 ^ 14 → x < 2 ^ 31 → fp_mul (pos c) (negsuc x) ≡ neg (c * (x + 1) / 2 ^ 14)
unfolding fp_mul ◌*ℤ◌ ◌/ℤ◌ wrap64 wrap32
fp_mul-neg c x h k = ground (arith, shrink c (x + 1) h)

ratio_le : (a f : ℕ) → 0 < f → a * f / (a + f) ≤ f
ratio_le a f h = grind arith

-- 2 * load_avg / (2 * load_avg + 1) as a fixed-point number.
abbrev pub ratio : ℕ → ℕ
ratio load = 2 * load * 2 ^ 14 / (2 * load + 2 ^ 14)

-- The decayed use of the CPU, over the integers.
abbrev pub decayed : (load : ℕ) (recent_cpu nice : ℤ) → ℤ
decayed load recent_cpu nice =
    pos (ratio load) *ℤ recent_cpu /ℤ pos (2 ^ 14) +ℤ nice *ℤ pos (2 ^ 14)

coefficient :
    (load : ℕ)
    → load < 2 ^ 29
    → fp_div (fp_mul_int (pos load) (pos 2)) (fp_add_int (fp_mul_int (pos load) (pos 2)) (pos 1))
      ≡ some (pos (ratio load))
unfolding fp_div fp_mul_int fp_add_int ◌+ℤ◌ ◌*ℤ◌ ◌/ℤ◌ wrap32 wrap64
coefficient load h = ground (arith, ratio_le (2 * load) (2 ^ 14))

-- The product with a coefficient of at most one, and its bounds.
fp_mul-shrinks :
    (c : ℕ) (x : ℤ)
    → c ≤ 2 ^ 14
    → IsInt32 x
    → (fp_mul (pos c) x ≡ pos c *ℤ x /ℤ pos (2 ^ 14))
      × (pos_part (fp_mul (pos c) x) ≤ pos_part x)
      × (neg_part (fp_mul (pos c) x) ≤ neg_part x)
unfolding fp_mul ◌*ℤ◌ ◌/ℤ◌ wrap64 wrap32
fp_mul-shrinks c (pos x) h k = ground (arith, shrink c x h)
fp_mul-shrinks c (negsuc x) h k = ground (arith, shrink c (x + 1) h)

module _ (x n : ℤ) (hx : (pos_part x < 2 ^ 30) × (neg_part x < 2 ^ 30))
    (hn : (pos_part n ≤ 20) × (neg_part n ≤ 20)) where
  fp_add_int-fits :
      (fp_add_int x n ≡ x +ℤ n *ℤ pos (2 ^ 14))
      × (pos_part (fp_add_int x n) ≤ pos_part x + 20 * 2 ^ 14)
      × (neg_part (fp_add_int x n) ≤ neg_part x + 20 * 2 ^ 14)
  unfolding fp_add_int ◌+ℤ◌ ◌*ℤ◌ wrap32
  fp_add_int-fits = ground arith

abbrev pub with_recent_cpu : ℤ → Thread → Thread
with_recent_cpu c th = record th { recent_cpu = c }

decay_lem :
    (load : ℕ) (c n : ℤ)
    → load < 2 ^ 29
    → (pos_part c < 2 ^ 30) × (neg_part c < 2 ^ 30)
    → (pos_part n ≤ 20) × (neg_part n ≤ 20)
    → (decay (pos load) c n ≡ some (decayed load c n))
      × (pos_part (decayed load c n) ≤ pos_part c + 20 * 2 ^ 14)
      × (neg_part (decayed load c n) ≤ neg_part c + 20 * 2 ^ 14)
unfolding decay
decay_lem load c n h hc hn =
    let small : ratio load ≤ 2 ^ 14 = ratio_le (2 * load) (2 ^ 14) (omega arith) in
    let (e, p, q) = fp_mul-shrinks (ratio load) c small (omega arith) in
    let (e', p', q') = fp_add_int-fits (fp_mul (pos (ratio load)) c) n (omega arith) hn in
    let same : fp_add_int (fp_mul (pos (ratio load)) c) n ≡ decayed load c n =
      e' ∙ ap (λ z. z +ℤ n *ℤ pos (2 ^ 14)) e in
    (ground (arith, coefficient load h, same), rw (← same) (omega arith), rw (← same) (omega arith))

-- With a load average from 0 to 2^29, a use of the CPU below 2^30 in size and a nice value from -20
-- to 20, the division does not trap and nothing overflows: a thread other than the idle thread gets
-- 2 * load_avg / (2 * load_avg + 1) * recent_cpu + nice, in fixed-point numbers over the integers,
-- which has grown in neither direction by more than 20, and nothing else changes.
pub mlfqs_update_recent_cpu_lem :
    (t : Ptr) (k : Kernel) {load : ℕ}
    → t ≢ k.idle_thread
    → k.load_avg ≡ pos load
    → load < 2 ^ 29
    → (pos_part (k.threads t).recent_cpu < 2 ^ 30) × (neg_part (k.threads t).recent_cpu < 2 ^ 30)
    → (pos_part (k.threads t).nice ≤ 20) × (neg_part (k.threads t).nice ≤ 20)
    → let new_cpu = decayed load (k.threads t).recent_cpu (k.threads t).nice in
      (mlfqs_update_recent_cpu t k ≡ ok tt (set_thread t (with_recent_cpu new_cpu (k.threads t)) k))
      × (pos_part new_cpu ≤ pos_part (k.threads t).recent_cpu + 20 * 2 ^ 14)
      × (neg_part new_cpu ≤ neg_part (k.threads t).recent_cpu + 20 * 2 ^ 14)
unfolding mlfqs_update_recent_cpu
mlfqs_update_recent_cpu_lem t k {load} other e h hc hn =
    let (d, p, q) = decay_lem load (k.threads t).recent_cpu (k.threads t).nice h hc hn in
    (ground arith, p, q)

next_load_bound :
    (load ready most : ℕ)
    → load ≤ most * 2 ^ 14
    → ready ≤ most
    → next_load load ready ≤ most * 2 ^ 14
next_load_bound load ready most h k = omega arith

fixed_update :
    (load ready : ℕ)
    → load < 2 ^ 31
    → ready < 2 ^ 17
    → next_load load ready < 2 ^ 31
    → fp_add (fp_mul (pos 16110) (pos load)) (fp_mul_int (pos 273) (pos ready))
      ≡ pos (next_load load ready)
unfolding fp_mul_int fp_add ◌+ℤ◌ ◌*ℤ◌ wrap32
fixed_update load ready h k fits = ground (arith, fp_mul-pos 16110 load (omega arith) h)

fifty_nine_sixtieths : fp_div_int (int_to_fp (pos 59)) (pos 60) ≡ some (pos 16110)
unfolding fp_div_int int_to_fp ◌*ℤ◌ ◌/ℤ◌ wrap32
fifty_nine_sixtieths = refl

one_sixtieth : fp_div_int (int_to_fp (pos 1)) (pos 60) ≡ some (pos 273)
unfolding fp_div_int int_to_fp ◌*ℤ◌ ◌/ℤ◌ wrap32
one_sixtieth = refl

module _ ⦃os : Platform⦄ where
  -- While never more than `most` threads are ready or run, `most` below 2^17, a load average that is
  -- not above `most` is updated without a trap or an overflow to 59/60 of it and 1/60 of the number
  -- of these threads, with the two factors rounded down to 16110 and 273 units of 2^-14, and it is
  -- not above `most` afterwards.
  pub mlfqs_update_load_avg_lem :
      (k : Kernel) (load most : ℕ)
      → IsCurrent k
      → k.load_avg ≡ pos load
      → load ≤ most * 2 ^ 14
      → ready_count k ≤ most
      → most < 2 ^ 17
      → (mlfqs_update_load_avg k
          ≡ ok tt (record k { load_avg = pos (next_load load (ready_count k)) }))
        × (next_load load (ready_count k) ≤ most * 2 ^ 14)
  unfolding mlfqs_update_load_avg
  mlfqs_update_load_avg_lem k load most cur e h fits few =
      let ready : ℕ = ready_count k in
      let bound = next_load_bound load ready most h fits in
      (
        ground (
          arith,
          mlfqs_ready_threads_lem k cur,
          fifty_nine_sixtieths,
          one_sixtieth,
          fixed_update load ready (omega arith) (omega arith) (omega arith),
        ),
        bound,
      )
