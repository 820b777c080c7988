-- ===== src/Preemption/Outranks.antt =====
-- `check_preemption` in the priority scheduler: the CPU is given up if and only if a thread that
-- is ready has a higher priority than the running one.
use os_pintos.Base.{
  ◌≡◌, ◌⊎◌, refl, true, Bool-cases, inl, inr, arith, List, [], ◌∷◌, All, has, if◌then◌else◌,
}
use os_pintos.Base.Int.{ℤ, ◌≤ℤ◌, ◌<ℤ◌, ltb_ℤ}
use os_pintos.Base.Sorted.{IsSorted}
use os_pintos.Platform.{Platform}
use os_pintos.Kernel.{Ptr, Thread, Kernel, Outcome, ok}
use os_pintos.Call.{Call}
use os_pintos.Mlfqs.Queues.{IsCurrent}
use os_pintos.Scheduler.{less_priority}
use os_pintos.Scheduler.Ready.{front_highest}
use os_pintos.Preemption.{outranked, check_preemption}

-- Gives up the CPU: at once, or in a handler on its return.
abbrev pub given_up : Kernel → Outcome (List Call)
given_up k =
    if k.intr.context
    then ok [] (record k { intr = record k.intr { yield_on_return = true } })
    else ok (Call.thread_yield ∷ []) k

abbrev pub own_priority : Kernel → ℤ
own_priority k = (k.threads k.current).priority

All-le_trans :
    (s : Ptr → Thread) (p q : ℤ) (l : List Ptr)
    → p ≤ℤ q
    → All (λ t. (s t).priority ≤ℤ p) l
    → All (λ t. (s t).priority ≤ℤ q) l
All-le_trans s p q [] h a = tt
All-le_trans s p q (t ∷ l) h a = (ground arith, All-le_trans s p q l h a.1)

-- The check kept the running thread, or gave up the CPU for a thread that is ready.
abbrev pub Kept : Kernel → Outcome (List Call) → Type 0
Kept k o = (o ≡ ok [] k) × All (λ t. (k.threads t).priority ≤ℤ own_priority k) k.ready_list

abbrev pub GivenUp : Kernel → Outcome (List Call) → Type 0
GivenUp k o =
    (o ≡ given_up k)
    × (t : Ptr) × (has t k.ready_list ≡ true)
    × (own_priority k <ℤ (k.threads t).priority)

module _ ⦃os : Platform⦄ where
  check_preemption-empty : (k : Kernel) → k.ready_list ≡ [] → check_preemption k ≡ ok [] k
  unfolding check_preemption
  check_preemption-empty k e = ground (arith, os.list_empty_lem k.ready_list)

  check_preemption-front :
      (k : Kernel) (t : Ptr) (l : List Ptr)
      → IsCurrent k
      → k.ready_list ≡ t ∷ l
      → check_preemption k
        ≡ (if ltb_ℤ (own_priority k) (k.threads t).priority then given_up k else ok [] k)
  unfolding check_preemption outranked
  check_preemption-front k t l cur e = ground (
    arith,
    os.list_empty_lem k.ready_list,
    os.list_front_lem t l,
    os.intr_yield_on_return_lem k.intr,
  )

  -- The running thread, with a ready list in order of priority: either no ready thread has a higher
  -- priority than the running one, and the check does nothing, or one has, and the check gives up
  -- the CPU, in a handler by asking for a yield on its return.
  pub check_preemption_lem :
      (k : Kernel)
      → IsCurrent k
      → IsSorted (less_priority k.threads) k.ready_list
      → Kept k (check_preemption k) ⊎ GivenUp k (check_preemption k)
  check_preemption_lem k cur sorted = go k.ready_list refl
    where
      go :
          (l : List Ptr)
          → k.ready_list ≡ l
          → Kept k (check_preemption k) ⊎ GivenUp k (check_preemption k)
      go [] e = inl (check_preemption-empty k e, rw e tt)
      go (t ∷ l) e =
          let run = check_preemption-front k t l cur e in
          elim (Bool-cases (ltb_ℤ (own_priority k) (k.threads t).priority)) [
            | inl up ↦ inr (rw up at run, t, ground arith, ground arith)
            | inr level ↦ inl (
              rw level at run,
              rw e (
                ground arith,
                All-le_trans k.threads (k.threads t).priority (own_priority k) l (ground arith)
                    (front_highest k.threads t l (rw e at sorted)),
              ),
            )
          ]
