-- ===== src/Calibrate/Precision.antt =====
-- The calibration ends, and how close it comes.
use os_pintos.Base.{
  ℕ, zero, suc, ◌+◌, ◌*◌, ◌/◌, ◌%◌, ◌^◌, ◌≤◌, ◌<◌, ◌≡◌, refl, ap, sym, ◌∙◌, true, false, not, ◌==◌,
  leb, inl, inr, Bool-cases, arith, if◌then◌else◌,
}
use native.Mathlib.Nat.{mul-div_left}
use os_pintos.Base.Int.{ℤ, pos, negsuc, ◌+ℤ◌, wrap64, wrap64-IsInt64, IsInt64}
use os_pintos.Kernel.{Kernel, ok, M, ◌>>=◌, ◌>>◌, gets, modify, assert, skip}
use os_pintos.Calibrate.{
  set_bit, same_tick, too_many_loops, double_loops, refine_loops, timer_calibrate,
}

same_tick-add :
    (z : ℤ) (p : ℕ) → IsInt64 z → p < 2 ^ 64 → same_tick z (wrap64 (z +ℤ pos p)) ≡ (p == 0)
unfolding wrap64 ◌+ℤ◌
same_tick-add (pos n) p h b = ground arith
same_tick-add (negsuc n) p h b = ground arith

-- A busy wait of fewer than `t` turns ends before the next tick; a longer one does not, and is short
-- enough for the count of ticks.
abbrev pub LastsATick : (passed : ℕ → ℕ) (t : ℕ) → Type 0
LastsATick passed t = (n : ℕ) → n < 2 ^ 32 → (leb t n ≡ not (passed n == 0)) × (passed n < 2 ^ 64)

unfoldable pow2 : ℕ → ℕ
pow2 zero = 1
pow2 (suc n) = 2 * pow2 n

set_bit_free : (q b : ℕ) → 0 < b → set_bit (q * (2 * b)) b ≡ q * (2 * b) + b
unfolding set_bit
set_bit_free q b h =
    let shape : q * (2 * b) ≡ 2 * q * b = grind arith in
    let quotient : q * (2 * b) / b ≡ 2 * q = rw shape (mul-div_left (2 * q) h) in
    rw quotient (ground arith)

pow2-large : (j m : ℕ) → m ≤ pow2 j * m
unfolding pow2
pow2-large zero m = omega arith
pow2-large (suc j) m = let one = pow2-large j m in grind arith

halved :
    (q b l c : ℕ)
    → l ≡ q * (2 * b)
    → b ≡ 2 * c
    → (l ≡ 2 * q * (2 * c)) × (l + b ≡ (2 * q + 1) * (2 * c))
halved q b l c e f = (grind arith, grind arith)

abbrev pub timed : Kernel → (loops : ℕ) (z : ℤ) → Kernel
timed k loops z = record k { loops_per_tick = loops; ticks = z }

module _ (passed : ℕ → ℕ) (t : ℕ) (speed : LastsATick passed t) where
  too_many_lem :
      (n l : ℕ) (z : ℤ) (k : Kernel)
      → n < 2 ^ 32
      → (z' : ℤ) × (too_many_loops passed n (timed k l z) ≡ ok (leb t n) (timed k l z'))
  unfolding too_many_loops
  too_many_lem n l z k h =
      let z1 = wrap64 (z +ℤ pos 1) in
      (
        wrap64 (z1 +ℤ pos (passed n)),
        ground (arith, speed n h, same_tick-add z1 (passed n) (wrap64-IsInt64 (z +ℤ pos 1))),
      )

  double_block :
      (next_turn : M (Unit {0})) (l : ℕ) (z : ℤ) (k : Kernel)
      → 0 < l
      → l < 2 ^ 31
      → (z' : ℤ) × ((do
        loops ← gets (λ s. s.loops_per_tick)
        many ← too_many_loops passed (loops * 2 % 2 ^ 32)
        if many then skip else do
          modify (λ s. record s { loops_per_tick = loops * 2 % 2 ^ 32 })
          assert (not (loops * 2 % 2 ^ 32 == 0))
          next_turn)
            (timed k l z)
          ≡ (if leb t (2 * l) then ok tt (timed k l z') else next_turn (timed k (2 * l) z')))
  double_block next_turn l z k h bound =
      let fits : l * 2 % 2 ^ 32 ≡ 2 * l = omega arith in
      let (z', tried) = too_many_lem (2 * l) l z k (omega arith) in
      (z', rw fits (rw tried (ground arith)))

  double_lem :
      (fuel l : ℕ) (z : ℤ) (k : Kernel)
      → 0 < l
      → l < t
      → t ≤ 2 ^ 31
      → t ≤ l * pow2 fuel
      → (n : ℕ) × (z' : ℤ) × (double_loops passed fuel (timed k l z)
          ≡ ok tt (timed k (l * pow2 n) z'))
        × (l * pow2 n < t)
        × (t ≤ 2 * (l * pow2 n))
  unfolding double_loops pow2
  double_lem zero l z k h low bound fuel_bound = ground arith
  double_lem (suc fuel) l z k h low bound fuel_bound =
      let (z', run) = double_block (double_loops passed fuel) l z k h (omega arith) in
      elim (Bool-cases (leb t (2 * l))) [
        | inl many ↦ (0, z', grind (arith, run), omega arith, ground arith)
        | inr few ↦
            let (n, z'', run', low', high) =
              double_lem fuel (2 * l) z' k (omega arith) (ground arith) bound (grind arith) in
            let same : l * pow2 (suc n) ≡ 2 * l * pow2 n = grind arith in
            (
              suc n,
              z'',
              (rw few at run) ∙ run' ∙ ap (λ x. ok tt (timed k x z'')) (sym same),
              rw same low',
              rw same high,
            )
      ]

  refine_block :
      (next_turn : M (Unit {0})) (l q b : ℕ) (z : ℤ) (k : Kernel)
      → 0 < b
      → l + b < 2 ^ 32
      → l ≡ q * (2 * b)
      → (z' : ℤ) × ((do
        loops ← gets (λ s. s.loops_per_tick)
        many ← too_many_loops passed (set_bit loops b)
        (if many then skip else modify (λ s. record s { loops_per_tick = set_bit loops b }))
        next_turn)
            (timed k l z)
          ≡ next_turn (timed k (if leb t (l + b) then l else l + b) z'))
  refine_block next_turn l q b z k h fits shape =
      let free : set_bit l b ≡ l + b = rw shape (set_bit_free q b h) in
      let (z', tried) = too_many_lem (l + b) l z k fits in
      (
        z',
        rw free (
            rw tried (elim (Bool-cases (leb t (l + b))) [
              | inl many ↦ rw many refl
              | inr few ↦ rw few refl
            ])),
      )

  refine_lem :
      (j m q b l : ℕ) (z : ℤ) (k : Kernel)
      → 0 < m
      → b ≡ pow2 j * m
      → l ≡ q * (2 * b)
      → b ≤ l
      → t ≤ 2 ^ 31
      → 1024 * m ≤ l
      → l < t
      → t ≤ l + 2 * b
      → (n : ℕ) × (z' : ℤ) × (refine_loops passed (suc j) (1024 * m) b (timed k l z)
          ≡ ok tt (timed k n z'))
        × (1024 * m ≤ n)
        × (n < t)
        × (t ≤ n + 2 * m)
  unfolding refine_loops pow2
  refine_lem zero m q b l z k h bit shape small bound big low high =
      (l, z, ground arith, big, low, ground arith)
  refine_lem (suc j) m q b l z k h bit shape small bound big low high =
      let twice : b ≡ 2 * (pow2 j * m) = bit ∙ grind arith in
      let large : m ≤ pow2 j * m = pow2-large j m in
      let half : b ≡ 2 * (b / 2) = omega arith in
      let (same, grown) = halved q b l (b / 2) shape half in
      let more : (b == 1024 * m / 2 ^ 10) ≡ false = ground arith in
      let (z', run) =
        refine_block (refine_loops passed (suc j) (1024 * m) (b / 2)) l q b z k (omega arith)
          (omega arith) shape in
      elim (Bool-cases (leb t (l + b))) [
        | inl many ↦
            let (n, z'', run', high_bits, below, above) =
              refine_lem j m (2 * q) (b / 2) l z' k h (omega arith) same (omega arith) bound big low
                (ground arith) in
            (
              n,
              z'',
              rw more (◌∙◌ {c = ok tt (timed k n z'')} run (rw many run')),
              high_bits,
              below,
              above,
            )
        | inr few ↦
            let (n, z'', run', high_bits, below, above) =
              refine_lem j m (2 * q + 1) (b / 2) (l + b) z' k h (omega arith) grown (omega arith)
                bound (omega arith) (ground arith) (omega arith) in
            (
              n,
              z'',
              rw more (◌∙◌ {c = ok tt (timed k n z'')} run (rw few run')),
              high_bits,
              below,
              above,
            )
      ]

  calibrate_run :
      (h n : ℕ) (z z' : ℤ) (k : Kernel)
      → k.intr.on ≡ true
      → double_loops passed 22 (timed k 1024 k.ticks) ≡ ok tt (timed k h z)
      → refine_loops passed 10 h (h / 2) (timed k h z) ≡ ok tt (timed k n z')
      → timer_calibrate passed k ≡ ok tt (timed k n z')
  unfolding timer_calibrate
  calibrate_run h n z z' k on doubled refined =
      let refine : M (Unit {0}) = do
        high_bit ← gets (λ s. s.loops_per_tick)
        refine_loops passed 10 high_bit (high_bit / 2)
      in let start : timer_calibrate passed k
            ≡ (double_loops passed 22 >> refine) (timed k 1024 k.ticks) =
          rw on refl in
        start ∙ rw doubled refined

  -- Where `t`, over 1024 and at most 2^31, is the least number of turns of the busy wait within which
  -- the next tick comes, and less than 2^64 ticks come in any wait, the calibration with interrupts on
  -- ends with no assertion failed. Its result is below `t`, by at most a 512th part of the result, and
  -- it has changed nothing else but the count of ticks.
  pub timer_calibrate_lem :
      (k : Kernel)
      → 1024 < t
      → t ≤ 2 ^ 31
      → k.intr.on ≡ true
      → (n : ℕ) × (z : ℤ) × (timer_calibrate passed k ≡ ok tt (timed k n z))
        × (n < t)
        × (t * 512 ≤ n * 513)
  unfolding pow2
  timer_calibrate_lem k low bound on =
      let (e, z, run, below, above) =
        double_lem 22 1024 k.ticks k (omega arith) low bound (omega arith) in
      let one = pow2-large e 1 in
      let h = 1024 * pow2 e in
      let (n, z', run', big, below', above') =
        refine_lem 9 (pow2 e) 1 (h / 2) h z k (omega arith) (omega arith) (omega arith)
          (omega arith) bound (omega arith) below (omega arith) in
      (n, z', calibrate_run h n z z' k on run run', below', omega arith)
