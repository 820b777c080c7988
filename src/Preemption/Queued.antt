-- ===== src/Preemption/Queued.antt =====
-- `mlfqs_check_preemption`: the CPU is given up if and only if a higher queue holds a thread.
use os_pintos.Base.{
  ℕ, zero, suc, ◌<◌, ◌≡◌, ◌⊎◌, refl, ◌∙◌, if◌then◌else◌, Bool-cases, inl, inr, arith, List, [], ◌∷◌,
}
use os_pintos.Base.Int.{ℤ, pos, negsuc, ◌≤ℤ◌, ◌<ℤ◌, ltb_ℤ}
use os_pintos.Platform.{Platform}
use os_pintos.Kernel.{Ptr, Kernel, Outcome, ok}
use os_pintos.Call.{Call}
use os_pintos.Mlfqs.{highest_below, queue_count}
use os_pintos.Mlfqs.Queues.{IsCurrent, NoneBetween, List-cases, extend}
use os_pintos.Preemption.{mlfqs_check_preemption}
use os_pintos.Preemption.Outranks.{given_up, own_priority}

-- What the search below queue `n` finds: the highest queue that holds a thread, or -1.
data Highest (k : Kernel) (n : ℕ) (result : ℤ) : Type 0 where
  queue :
      (i : ℕ) (t : Ptr) (rest : List Ptr)
      → i < n
      → NoneBetween k (suc i) n
      → k.mlfqs_list i ≡ t ∷ rest
      → result ≡ pos i
      → Highest k n result
  none_queued : NoneBetween k 0 n → result ≡ negsuc 0 → Highest k n result

Highest-suc :
    (k : Kernel) (n : ℕ) (result : ℤ)
    → k.mlfqs_list n ≡ []
    → Highest k n result
    → Highest k (suc n) result
Highest-suc k n result e (queue i t rest below none_above q r) =
    queue i t rest (omega arith) (extend k (suc i) n none_above e) q r
Highest-suc k n result e (none_queued none_at_all r) = none_queued (extend k 0 n none_at_all e) r

-- The check kept the running thread, or gave up the CPU for a thread in a higher queue.
abbrev pub KeptOff : Kernel → Outcome (List Call) → Type 0
KeptOff k o =
    (o ≡ ok [] k) × ((i : ℕ) → i < queue_count → own_priority k <ℤ pos i → k.mlfqs_list i ≡ [])

abbrev pub GivenUpFor : Kernel → Outcome (List Call) → Type 0
GivenUpFor k o =
    (o ≡ given_up k)
    × (i : ℕ) × (t : Ptr) × (rest : List Ptr) × (i < queue_count)
    × (k.mlfqs_list i ≡ t ∷ rest)
    × (own_priority k <ℤ pos i)

module _ ⦃os : Platform⦄ where
  highest_below-Highest : (n : ℕ) (k : Kernel) → Highest k n (highest_below n k)
  unfolding highest_below
  highest_below-Highest zero k = none_queued (λ j a b. ground arith) refl
  highest_below-Highest (suc n) k = elim (List-cases (k.mlfqs_list n)) [
    | inl e ↦
        let q : highest_below (suc n) k ≡ highest_below n k =
          ground (arith, os.list_empty_lem (k.mlfqs_list n)) in
        rw q (Highest-suc k n (highest_below n k) e (highest_below-Highest n k))
    | inr (t, rest, e) ↦
        queue n t rest (omega arith) (λ j a b. absurd (omega arith)) e
          (ground (arith, os.list_empty_lem (k.mlfqs_list n)))
  ]

  mlfqs_check_preemption_run :
      (k : Kernel)
      → IsCurrent k
      → mlfqs_check_preemption k
        ≡ (if ltb_ℤ (own_priority k) (highest_below queue_count k) then given_up k else ok [] k)
  unfolding mlfqs_check_preemption
  mlfqs_check_preemption_run k cur = ground (arith, os.intr_yield_on_return_lem k.intr)

  -- The running thread, whose priority is not negative, under the feedback queues: either every
  -- queue of a higher priority is empty, and the check does nothing, or one of them holds a thread,
  -- and the check gives up the CPU, in a handler by asking for a yield on its return.
  pub mlfqs_check_preemption_lem :
      (k : Kernel)
      → IsCurrent k
      → pos 0 ≤ℤ own_priority k
      → KeptOff k (mlfqs_check_preemption k) ⊎ GivenUpFor k (mlfqs_check_preemption k)
  mlfqs_check_preemption_lem k cur natural =
      let run = mlfqs_check_preemption_run k cur in
      elim (highest_below-Highest queue_count k) [
        | none_queued none_at_all r ↦
            inl (rw r at run ∙ ground arith, λ i below higher. none_at_all i (omega arith) below)
        | queue i t rest below none_above e r ↦ elim (Bool-cases (ltb_ℤ (own_priority k) (pos i))) [
          | inl up ↦ inr (rw (r, up) at run, i, t, rest, below, e, ground arith)
          | inr level ↦ inl (rw (r, level) at run, λ j b higher. none_above j (ground arith) b)
        ]
      ]
