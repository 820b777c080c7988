-- ===== src/Machine/Schedule.antt =====
-- `schedule` and the functions that end in it: afterwards exactly one thread is running.
use os_pintos.Base.{
  ap, subst, ◌≡◌, refl, sym, Bool, true, false, not, arith, ◌==◌, ◌&&◌, inl, inr, Bool-cases, ◌∷◌,
  if◌then◌else◌,
}
use os_pintos.Platform.{Platform}
use os_pintos.Kernel.{
  Ptr, null, ThreadStatus, Kernel, is_running, is_dying, set_thread, M, and_then, ◌>>=◌, ◌>>◌, gets,
  modify, skip, assert,
}
use os_pintos.Machine.Quiet.{Ends, Quiet, quiet_rules}
use os_pintos.Machine.Calls.{
  next_thread_to_run-Quiet, insert_ready-Quiet, mlfqs_insert-Quiet, current_rules,
}
use os_pintos.Machine.Switch.{
  AtMost, Exactly, Settles, Ends-keeps, Ends-Same, ExactlyOne-Same, AtMost-Quiet, AtMost-write,
  Keeps-bind, Keeps-if, Settles-after, Settles-before,
}
use os_pintos.Current.{is_thread}
use os_pintos.Scheduler.{
  schedule, thread_schedule_tail, thread_block, thread_yield, thread_exit, next_thread_to_run,
}

abbrev Settled : Kernel → Type 0
Settled k = Exactly k.current k

-- No thread has the status of a running one.
abbrev NoneRuns : Kernel → Type 0
NoneRuns k = (t : Ptr) → is_running (k.threads t).status ≡ false

free_block :
    (prev cur : Ptr)
    → Quiet (do
      modify (λ k. record k { thread_ticks = 0 })
      status ← gets (λ k. (k.threads prev).status)
      initial ← gets (λ k. k.initial_thread)
      if not (prev == null) && is_dying status && not (prev == initial)
          then (assert (not (prev == cur)) >> modify (λ k. record k { freed = prev ∷ k.freed }))
          else skip)
free_block prev cur = search quiet_rules depth 20

-- What follows an assertion may use it.
asserted :
    {A : Type 0} (Q : A → Kernel → Type 0) (b : Bool) (m : M A) (k : Kernel)
    → (b ≡ true → Ends Q (m k))
    → Ends Q ((assert b >> m) k)
asserted Q true m k h = h refl
asserted Q false m k h = tt

either :
    {A : Type 0} (Q : A → Kernel → Type 0) (b : Bool) (m n : M A) (k : Kernel)
    → Ends Q (m k)
    → Ends Q (n k)
    → Ends Q ((if b then m else n) k)
either Q true m n k p q = p
either Q false m n k p q = q

module _ ⦃os : Platform⦄ where
  started_Settled :
      (k : Kernel)
      → NoneRuns k
      → Settled
          (set_thread k.current (record (k.threads k.current) { status = ThreadStatus.running }) k)
  started_Settled k h = record {
    most = record { cpu = refl; only = λ t r. ground (arith, h t) };
    runs = ground arith;
  }

  tail-Settled :
      (prev : Ptr) (k : Kernel) → NoneRuns k → Ends (λ u. Settled) (thread_schedule_tail prev k)
  unfolding thread_schedule_tail
  tail-Settled prev k h =
      let k' =
        set_thread k.current (record (k.threads k.current) { status = ThreadStatus.running }) k in
      asserted (λ u. Settled) (not k.intr.on) _ k
        λ off.
          Ends-Same Settled ExactlyOne-Same k' (started_Settled k h) _
            ((free_block prev k.current).at k')

  -- The second half of `schedule`.
  switch_block : (cur next : Ptr) → M (Unit {0})
  switch_block cur next = do
    assert (not (← gets (λ k. k.intr.on)))
    assert (not (is_running (← gets (λ k. (k.threads cur).status))))
    assert (← gets (is_thread next))
    if not (cur == next)
        then (modify (λ k. record k { current = next }) >> thread_schedule_tail cur)
        else thread_schedule_tail null

  none_runs :
      (c : Ptr) (k : Kernel)
      → AtMost c k
      → not (is_running (k.threads c).status) ≡ true
      → NoneRuns k
  none_runs c k h stopped t = elim (Bool-cases (is_running (k.threads t).status)) [
    | inl r ↦ ground (arith, ap (λ u. is_running (k.threads u).status) (h.only t r))
    | inr q ↦ q
  ]

  switch_block-Settled :
      (c next : Ptr) (k : Kernel) → AtMost c k → Ends (λ u. Settled) (switch_block c next k)
  unfolding switch_block
  switch_block-Settled c next k h =
      asserted (λ u. Settled) (not k.intr.on) _ k
        λ off.
          asserted (λ u. Settled) (not (is_running (k.threads c).status)) _ k
            λ stopped.
              asserted (λ u. Settled) (is_thread next k) _ k
                λ valid.
                  let none = none_runs c k h stopped in
                  either (λ u. Settled) (not (c == next))
                    (modify (λ k. record k { current = next }) >> thread_schedule_tail c)
                    (thread_schedule_tail null) k
                    (tail-Settled c (record k { current = next }) none) (tail-Settled null k none)

  schedule-switch_block :
      (k : Kernel)
      → schedule k ≡ and_then (next_thread_to_run k) (λ next. switch_block k.current next)
  unfolding schedule switch_block
  schedule-switch_block k = refl

  pub schedule-Settles : Settles schedule
  schedule-Settles = record {
    at = λ c k h. rw (schedule-switch_block k) (
        subst
          (λ d. Ends (λ u. Settled) (and_then (next_thread_to_run k) (λ next. switch_block d next)))
          (sym h.cpu)
          (Ends-keeps (AtMost c) Settled (switch_block c) (switch_block-Settled c)
            (next_thread_to_run k)
            ((AtMost-Quiet c next_thread_to_run next_thread_to_run-Quiet).at k h)));
  }

  ruleset settling = (
    Keeps-bind, Keeps-if, AtMost-Quiet, AtMost-write, Settles-after, Settles-before,
    schedule-Settles, current_rules, insert_ready-Quiet, mlfqs_insert-Quiet,
  )

  pub thread_block-Settles : Settles thread_block
  unfolding thread_block
  thread_block-Settles = search settling depth 20

  pub thread_yield-Settles : Settles thread_yield
  unfolding thread_yield
  thread_yield-Settles = search settling depth 20

  pub thread_exit-Settles : Settles thread_exit
  unfolding thread_exit
  thread_exit-Settles = search settling depth 20
