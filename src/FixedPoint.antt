-- ===== src/FixedPoint.antt =====
-- threads/fixed_point.h: 17.14 fixed-point numbers in an `int`. Sums and products of `int`s are
-- stored modulo 2 ^ 32, `int64_t` products modulo 2 ^ 64; `none` is the fault of a division by 0.
pub mod Laws
use os_pintos.Base.{◌^◌, Option, zero, none, some, if◌then◌else◌}
use os_pintos.Base.Int.{ℤ, pos, negsuc, ◌+ℤ◌, ◌-ℤ◌, ◌*ℤ◌, ◌/ℤ◌, is_zero, leb_ℤ, wrap32, wrap64}

-- F
abbrev pub fp_one : ℤ
fp_one = pos (2 ^ 14)

unfoldable pub int_to_fp : ℤ → ℤ
int_to_fp n = wrap32 (n *ℤ fp_one)

unfoldable pub fp_to_int : ℤ → ℤ
fp_to_int x = x /ℤ fp_one

unfoldable pub fp_to_int_nearest : ℤ → ℤ
fp_to_int_nearest x =
    if leb_ℤ (pos 0) x
    then wrap32 (x +ℤ fp_one /ℤ pos 2) /ℤ fp_one
    else wrap32 (x -ℤ fp_one /ℤ pos 2) /ℤ fp_one

unfoldable pub fp_add : ℤ → ℤ → ℤ
fp_add x y = wrap32 (x +ℤ y)

unfoldable pub fp_sub : ℤ → ℤ → ℤ
fp_sub x y = wrap32 (x -ℤ y)

unfoldable pub fp_add_int : ℤ → ℤ → ℤ
fp_add_int x n = wrap32 (x +ℤ wrap32 (n *ℤ fp_one))

unfoldable pub fp_sub_int : ℤ → ℤ → ℤ
fp_sub_int x n = wrap32 (x -ℤ wrap32 (n *ℤ fp_one))

unfoldable pub fp_mul : ℤ → ℤ → ℤ
fp_mul x y = wrap32 (wrap64 (x *ℤ y) /ℤ fp_one)

unfoldable pub fp_mul_int : ℤ → ℤ → ℤ
fp_mul_int x n = wrap32 (x *ℤ n)

unfoldable pub fp_div : ℤ → ℤ → Option ℤ
fp_div x (pos zero) = none
fp_div x y = some (wrap32 (wrap64 (x *ℤ fp_one) /ℤ y))

unfoldable pub fp_div_int : ℤ → ℤ → Option ℤ
fp_div_int x (pos zero) = none
fp_div_int x (negsuc zero) =
    if is_zero (x +ℤ pos (2 ^ 31)) then none else some (wrap32 (x /ℤ negsuc zero))
fp_div_int x n = some (wrap32 (x /ℤ n))
