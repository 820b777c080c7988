-- ===== src/Machine/Waiting.antt =====
-- A busy wait on the machine.
use os_pintos.Base.{ℕ, zero, suc, ◌-◌, ◌^◌, ◌<◌, ◌≤◌, ◌≡◌, refl, ap, ◌∙◌, arith, List, [], ◌∷◌}
use os_pintos.Base.Int.{pos, ◌-ℤ◌, wrap64, wrap64_id}
use os_pintos.Platform.{Platform}
use os_pintos.Kernel.{Ptr, Kernel, M, ok}
use os_pintos.Call.{Call}
use os_pintos.Delay.{busy_wait}
use os_pintos.Machine.{Machine, exec}
use os_pintos.Machine.Invariant.{Run}
use os_pintos.Machine.Turns.{with_calls, make_calls, Run-call, Run-trans}

minus_one : (n : ℕ) → suc n < 2 ^ 63 → wrap64 (pos (suc n) -ℤ pos 1) ≡ pos n
unfolding ◌-ℤ◌
minus_one n h = ground (arith, wrap64_id (pos n))

busy_wait-suc :
    (n : ℕ) (k : Kernel)
    → suc n < 2 ^ 63
    → busy_wait (pos (suc n)) k ≡ ok (Call.busy_wait (pos n) ∷ []) k
unfolding busy_wait
busy_wait-suc n k h = ground (arith, minus_one n h)

module _ ⦃os : Platform⦄ (depth : ℕ) (code : (function aux : Ptr) → List Call)
    (idle_function : Ptr) where
  -- The turns of a busy wait, one call each.
  abbrev pub wait_calls : ℕ → List Call → M (List Call)
  wait_calls = make_calls depth code idle_function

  make_calls-busy_wait :
      (j n : ℕ) (k : Kernel) (rest : List Call)
      → n < 2 ^ 63
      → j ≤ n
      → wait_calls j (Call.busy_wait (pos n) ∷ rest) k ≡ ok (Call.busy_wait (pos (n - j)) ∷ rest) k
  unfolding make_calls exec
  make_calls-busy_wait zero n k rest h l =
      ap (λ m. ok (Call.busy_wait (pos m) ∷ rest) k) (omega arith)
  make_calls-busy_wait (suc j) zero k rest h l = absurd (omega arith)
  make_calls-busy_wait (suc j) (suc n) k rest h l = rw (busy_wait-suc n k h) (
      make_calls-busy_wait j n k rest (omega arith) (omega arith)
      ∙ ap (λ m. ok (Call.busy_wait (pos m) ∷ rest) k) (omega arith))

  waits_to_end :
      (n : ℕ) (m : Machine) (rest : List Call)
      → n < 2 ^ 63
      → Run depth code idle_function
          (with_calls m (Call.busy_wait (pos n) ∷ rest))
          (with_calls m rest)
  unfolding busy_wait exec
  waits_to_end zero m rest h =
      Run-call depth code idle_function (Call.busy_wait (pos 0)) [] rest m.kernel m.kernel m.stacks
        tt refl refl
  waits_to_end (suc n) m rest h =
      Run-trans depth code idle_function
        (Run-call depth code idle_function (Call.busy_wait (pos (suc n)))
          (Call.busy_wait (pos n) ∷ []) rest m.kernel m.kernel m.stacks tt refl
          (busy_wait-suc n m.kernel h))
        (waits_to_end n m rest (omega arith))

  last_turn :
      (n : ℕ) (k : Kernel) (rest : List Call)
      → n < 2 ^ 63
      → wait_calls (suc n) (Call.busy_wait (pos n) ∷ rest) k ≡ ok rest k
  unfolding make_calls busy_wait exec
  last_turn zero k rest h = refl
  last_turn (suc n) k rest h = rw (busy_wait-suc n k h) (last_turn n k rest (omega arith))

  -- A busy wait of `n` turns, below 2^63, comes to its end if the thread is let run: the machine gets to
  -- the calls that follow it, with nothing else changed. It takes all its turns: uninterrupted, the
  -- wait has `n - j` turns left after any number `j` of them up to `n`, and only the test after the
  -- last of them goes on to the calls that follow.
  pub Run-busy_wait :
      (n j : ℕ) (m : Machine) (rest : List Call)
      → n < 2 ^ 63
      → j ≤ n
      → Run depth code idle_function
          (with_calls m (Call.busy_wait (pos n) ∷ rest))
          (with_calls m rest)
        × (wait_calls j (Call.busy_wait (pos n) ∷ rest) m.kernel
            ≡ ok (Call.busy_wait (pos (n - j)) ∷ rest) m.kernel)
        × (wait_calls (suc n) (Call.busy_wait (pos n) ∷ rest) m.kernel ≡ ok rest m.kernel)
  Run-busy_wait n j m rest h l = (
    waits_to_end n m rest h,
    make_calls-busy_wait j n m.kernel rest h l,
    last_turn n m.kernel rest h,
  )
