-- ===== src/SelfTest/Passes.antt =====
-- When a call of the self-test passes: `sema_up` and `sema_down`, to where they return.
use os_pintos.Base.{
  ℕ, suc, ◌≤◌, ◌≡◌, ◌≢◌, refl, Bool, false, Option, none, some, List, [], ◌∷◌, arith,
}
use os_pintos.Platform.{Platform}
use os_pintos.Kernel.{
  Ptr, null, Semaphore, set_semaphore, Kernel, Outcome, ok, panic, undefined, M, and_then, ◌>>=◌,
  ◌>>◌, gets, modify, pure,
}
use os_pintos.Call.{Call}
use os_pintos.Scheduler.{intr_set_level, less_priority, thread_block}
use os_pintos.Elem.{insert_elem}
use os_pintos.Current.{thread_current}
use os_pintos.Synch.{sema_up, sema_down, sema_down_loop}
use os_pintos.Locks.Free.{closed, with_value, sema_up_alone, sema_down_run, sema_down_loop_free}

abbrev pub state_of : {A : Type 0} → Outcome A → Option Kernel
state_of (ok a k) = some k
state_of panic = none
state_of undefined = none

module _ ⦃os : Platform⦄ where
  -- A turn of the loop that leaves it has only the interrupts to restore.
  abbrev left_loop : Outcome (List Call) → Option Kernel
  left_loop (ok (Call.set_level b ∷ []) k) = state_of (intr_set_level b k)
  left_loop o = none

  abbrev entered_loop : Outcome (List Call) → Option Kernel
  entered_loop (ok (Call.sema_down_loop s b ∷ []) k) = left_loop (sema_down_loop s b k)
  entered_loop o = none

  -- A call passes or has to wait. Who runs next is left to the game, and a thread that has to wait
  -- makes its call again instead of sleeping.
  unfoldable pub pass : Call → Kernel → Option Kernel
  unfolding sema_up
  pass (Call.sema_up s) k = state_of (sema_up s k)
  pass (Call.sema_down s) k = entered_loop (sema_down s k)
  pass c k = none

  abbrev pub counted : ℕ → Semaphore
  counted v = record { value = v; waiters = [] }

  pub up_passes :
      (s : Ptr) (v : ℕ) (k : Kernel)
      → s ≢ null
      → k.thread_mlfqs ≡ false
      → k.semaphores s ≡ counted v
      → v ≤ 1
      → pass (Call.sema_up s) k ≡ some (with_value s (suc v) k)
  unfolding pass
  up_passes s v k sn mode e small =
      rw (sema_up_alone s v k sn mode (rw e refl) (rw e refl) (omega (arith, small))) refl

  pub down_passes :
      (s : Ptr) (v : ℕ) (k : Kernel)
      → s ≢ null
      → k.intr.context ≡ false
      → k.semaphores s ≡ counted (suc v)
      → pass (Call.sema_down s) k ≡ some (with_value s v k)
  unfolding pass
  down_passes s v k sn normal e =
      let run = sema_down_run s k sn normal in
      let turn = sema_down_loop_free s k.intr.on v (closed k) (rw e refl) in
      rw (run, turn, os.intr_set_level_lem k.intr.on (record k.intr { on = false })) refl

  -- What does not leave the loop, wherever it is run.
  record Stays (m : M (List Call)) : Type 0 where
    at : (k : Kernel) → left_loop (m k) ≡ none

  Stays-and_then :
      {A : Type 0} (o : Outcome A) (f : A → M (List Call))
      → ((a : A) → Stays (f a))
      → left_loop (and_then o f) ≡ none
  Stays-and_then (ok a k) f h = (h a).at k
  Stays-and_then panic f h = refl
  Stays-and_then undefined f h = refl

  Stays-bind :
      {A : Type 0} (m : M A) (f : A → M (List Call)) → ((a : A) → Stays (f a)) → Stays (m >>= f)
  Stays-bind m f h = record { at = λ k. Stays-and_then (m k) f h }

  -- The turn of a thread that finds no unit.
  abbrev asleep : Ptr → Bool → Semaphore → M (List Call)
  asleep s b sem = do
    cur ← thread_current
    threads ← gets (λ k. k.threads)
    waiters ← insert_elem sem.waiters cur (less_priority threads)
    modify (set_semaphore s (record sem { waiters = waiters }))
    thread_block
    pure (Call.sema_down_loop s b ∷ [])

  loop-Stays : (s : Ptr) (b : Bool) → Stays (pure (Call.sema_down_loop s b ∷ []))
  loop-Stays s b = record { at = λ k. refl }

  asleep-Stays : (s : Ptr) (b : Bool) (sem : Semaphore) → Stays (asleep s b sem)
  asleep-Stays s b sem = search (Stays-bind, loop-Stays) depth 12

  pub down_waits :
      (s : Ptr) (k : Kernel)
      → s ≢ null
      → k.intr.context ≡ false
      → k.semaphores s ≡ counted 0
      → pass (Call.sema_down s) k ≡ none
  unfolding pass sema_down_loop
  down_waits s k sn normal e =
      rw (sema_down_run s k sn normal, e) ((asleep-Stays s k.intr.on (counted 0)).at (closed k))
