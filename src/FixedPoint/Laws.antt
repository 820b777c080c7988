-- ===== src/FixedPoint/Laws.antt =====
-- What the fixed-point operations mean for the numbers that they stand for, and where they fit.
use os_pintos.Base.{◌+◌, ◌*◌, ◌^◌, ◌≤◌, ◌<◌, ◌≡◌, arith}
use os_pintos.Base.Int.{ℤ, pos, negsuc, pos_part, neg_part, ◌+ℤ◌, ◌-ℤ◌, ◌*ℤ◌, ◌/ℤ◌, wrap32, IsInt32}
use os_pintos.FixedPoint.{int_to_fp, fp_to_int, fp_to_int_nearest, fp_add, fp_sub}

-- Every integer of at most 17 bits has a fixed-point form, and is read back from it, rounded or not.
pub fp_to_int-int_to_fp :
    (n : ℤ) → pos_part n < 2 ^ 17 → neg_part n ≤ 2 ^ 17 → (fp_to_int (int_to_fp n) ≡ n)
unfolding fp_to_int int_to_fp ◌*ℤ◌ ◌/ℤ◌ wrap32
fp_to_int-int_to_fp (pos n) h k = ground arith
fp_to_int-int_to_fp (negsuc n) h k = ground arith

-- Sums wrap around, so a subtraction undoes an addition whatever overflows.
pub fp_sub-fp_add : (x y : ℤ) → IsInt32 x → IsInt32 y → fp_sub (fp_add x y) y ≡ x
unfolding fp_sub fp_add ◌+ℤ◌ ◌-ℤ◌ wrap32
fp_sub-fp_add (pos x) (pos y) h k = ground arith
fp_sub-fp_add (pos x) (negsuc y) h k = ground arith
fp_sub-fp_add (negsuc x) (pos y) h k = ground arith
fp_sub-fp_add (negsuc x) (negsuc y) h k = ground arith

-- The rounded value is at most half a unit away.
pub fp_to_int_nearest_bounds :
    (x : ℤ)
    → pos_part x + 2 ^ 13 < 2 ^ 31
    → neg_part x + 2 ^ 13 ≤ 2 ^ 31
    → let r = fp_to_int_nearest x in
      (2 * (pos_part r * 2 ^ 14 + neg_part x) ≤ 2 * (neg_part r * 2 ^ 14 + pos_part x) + 2 ^ 14)
      × (2 * (neg_part r * 2 ^ 14 + pos_part x) ≤ 2 * (pos_part r * 2 ^ 14 + neg_part x) + 2 ^ 14)
unfolding fp_to_int_nearest ◌+ℤ◌ ◌-ℤ◌ ◌/ℤ◌ wrap32
fp_to_int_nearest_bounds (pos x) h k = ground arith
fp_to_int_nearest_bounds (negsuc x) h k = ground arith
