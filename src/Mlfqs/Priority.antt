-- ===== src/Mlfqs/Priority.antt =====
-- The priority that the feedback queues compute for a thread.
use os_pintos.Base.{◌^◌, ◌≤◌, ◌≡◌, ◌≢◌, arith, if◌then◌else◌}
use os_pintos.Base.Int.{
  ℤ, pos, negsuc, pos_part, neg_part, ◌-ℤ◌, ◌*ℤ◌, ◌/ℤ◌, ◌≤ℤ◌, ltb_ℤ, wrap32, IsInt32, wrap32_id,
  -ℤ_bounds,
}
use os_pintos.FixedPoint.{fp_to_int}
use os_pintos.Kernel.{Ptr, Thread, Kernel, set_thread, ok}
use os_pintos.Mlfqs.{clamp_priority, mlfqs_update_priority}

abbrev pub with_priority : ℤ → Thread → Thread
with_priority p th = record th { priority = p }

-- A priority that is a subscript of the queues.
abbrev pub InRange : ℤ → Type 0
InRange p = (pos 0 ≤ℤ p) × (p ≤ℤ pos 63)

-- The nearest integer from 0 to 63.
abbrev pub into_range : ℤ → ℤ
into_range z = if ltb_ℤ z (pos 0) then pos 0 else if ltb_ℤ z (pos 63) then z else pos 63

-- PRI_MAX - recent_cpu / 4 - nice * 2 over the integers: `recent_cpu` stands for recent_cpu / 2^14.
abbrev pub ideal_priority : (recent_cpu nice : ℤ) → ℤ
ideal_priority recent_cpu nice = pos 63 -ℤ recent_cpu /ℤ pos (2 ^ 16) -ℤ nice *ℤ pos 2

-- The C expression, as far as the clamp.
abbrev raw_priority : ℤ → ℤ → ℤ
raw_priority quarter nice = wrap32 (wrap32 (pos 63 -ℤ fp_to_int quarter) -ℤ wrap32 (nice *ℤ pos 2))

clamp_priority-InRange : (z : ℤ) → InRange (clamp_priority z)
unfolding clamp_priority
clamp_priority-InRange (pos n) = ground arith
clamp_priority-InRange (negsuc n) = ground arith

clamp_priority_lem : (z : ℤ) → clamp_priority z ≡ into_range z
unfolding clamp_priority
clamp_priority_lem (pos n) = ground arith
clamp_priority_lem (negsuc n) = ground arith

quarter-IsInt32 : (r : ℤ) → IsInt32 r → IsInt32 (r /ℤ pos 4)
unfolding ◌/ℤ◌
quarter-IsInt32 (pos r) h = ground arith
quarter-IsInt32 (negsuc r) h = ground arith

fp_to_int-quarter : (r : ℤ) → fp_to_int (r /ℤ pos 4) ≡ r /ℤ pos (2 ^ 16)
unfolding fp_to_int ◌/ℤ◌
fp_to_int-quarter (pos r) = ground arith
fp_to_int-quarter (negsuc r) = ground arith

units_bounds :
    (r : ℤ)
    → IsInt32 r
    → (pos_part (r /ℤ pos (2 ^ 16)) ≤ 2 ^ 15) × (neg_part (r /ℤ pos (2 ^ 16)) ≤ 2 ^ 15)
unfolding ◌/ℤ◌
units_bounds (pos r) h = ground arith
units_bounds (negsuc r) h = ground arith

double_bounds :
    (n : ℤ)
    → neg_part n ≤ 20
    → pos_part n ≤ 20
    → (pos_part (n *ℤ pos 2) ≤ 40) × (neg_part (n *ℤ pos 2) ≤ 40)
unfolding ◌*ℤ◌
double_bounds (pos n) a b = ground arith
double_bounds (negsuc n) a b = ground arith

-- Nothing overflows in the C expression.
wrapped :
    (m d : ℤ)
    → (pos_part m ≤ 2 ^ 15) × (neg_part m ≤ 2 ^ 15)
    → (pos_part d ≤ 40) × (neg_part d ≤ 40)
    → wrap32 (wrap32 (pos 63 -ℤ m) -ℤ wrap32 d) ≡ pos 63 -ℤ m -ℤ d
wrapped m d hm hd =
    rw (wrap32_id (pos 63 -ℤ m) (omega (arith, -ℤ_bounds (pos 63) m)), wrap32_id d (omega arith))
      (wrap32_id (pos 63 -ℤ m -ℤ d)
        (omega (arith, -ℤ_bounds (pos 63) m, -ℤ_bounds (pos 63 -ℤ m) d)))

raw_priority_lem :
    (r n : ℤ)
    → IsInt32 r
    → neg_part n ≤ 20
    → pos_part n ≤ 20
    → raw_priority (wrap32 (r /ℤ pos 4)) n ≡ ideal_priority r n
raw_priority_lem r n h a b =
    rw (wrap32_id (r /ℤ pos 4) (quarter-IsInt32 r h), fp_to_int-quarter r)
      (wrapped (r /ℤ pos (2 ^ 16)) (n *ℤ pos 2) (units_bounds r h) (double_bounds n a b))

-- For a thread other than the idle thread, with a nice value from -20 to 20, the update stores
-- PRI_MAX - recent_cpu / 4 - nice * 2, computed over the integers and brought into the range from 0
-- to 63, as its priority, and changes nothing else.
pub mlfqs_update_priority_lem :
    (t : Ptr) (k : Kernel)
    → t ≢ k.idle_thread
    → IsInt32 (k.threads t).recent_cpu
    → neg_part (k.threads t).nice ≤ 20
    → pos_part (k.threads t).nice ≤ 20
    → mlfqs_update_priority t k
      ≡ ok tt (
          set_thread t
            (with_priority
              (into_range (ideal_priority (k.threads t).recent_cpu (k.threads t).nice))
              (k.threads t))
            k)
unfolding mlfqs_update_priority
mlfqs_update_priority_lem t k other h a b = ground (
  arith,
  raw_priority_lem (k.threads t).recent_cpu (k.threads t).nice h a b,
  clamp_priority_lem (raw_priority (wrap32 ((k.threads t).recent_cpu /ℤ pos 4)) (k.threads t).nice),
)

-- Whatever its recent_cpu and nice value, also where the C expression overflows, the update returns
-- and leaves every thread but the idle thread with a priority from 0 to 63.
pub mlfqs_update_priority-InRange :
    (t : Ptr) (k : Kernel)
    → t ≢ k.idle_thread
    → (p : ℤ) × (mlfqs_update_priority t k ≡ ok tt (set_thread t (with_priority p (k.threads t)) k))
      × InRange p
unfolding mlfqs_update_priority
mlfqs_update_priority-InRange t k other =
    let raw = raw_priority (wrap32 ((k.threads t).recent_cpu /ℤ pos 4)) (k.threads t).nice in
    (clamp_priority raw, ground arith, clamp_priority-InRange raw)
