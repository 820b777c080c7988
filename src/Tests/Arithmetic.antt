-- ===== src/Tests/Arithmetic.antt =====
-- Fixed-point numbers.
use os_pintos.Base.{◌≤◌, ◌+◌, ◌*◌, ◌^◌, arith}
use os_pintos.Base.Int.{negsuc, pos_part, neg_part}
use os_pintos.FixedPoint.{fp_to_int_nearest}
use os_pintos.FixedPoint.Laws.{fp_to_int_nearest_bounds}

fp_to_int_nearest_bounds_example :
    let r = fp_to_int_nearest (negsuc 24575) in
    (2 * (pos_part r * 2 ^ 14 + 24576) ≤ 2 * (neg_part r * 2 ^ 14 + 0) + 2 ^ 14)
    × (2 * (neg_part r * 2 ^ 14 + 0) ≤ 2 * (pos_part r * 2 ^ 14 + 24576) + 2 ^ 14)
fp_to_int_nearest_bounds_example =
    fp_to_int_nearest_bounds (negsuc 24575) (omega arith) (omega arith)
