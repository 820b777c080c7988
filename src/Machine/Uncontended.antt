-- ===== src/Machine/Uncontended.antt =====
-- A thread that takes a free lock and releases it again.
use os_pintos.Base.{ℕ, Bool, ◌≡◌, refl, false, arith, List, [], ◌∷◌}
use os_pintos.Platform.{Platform}
use os_pintos.Kernel.{Ptr, Kernel}
use os_pintos.Call.{Call}
use os_pintos.Locks.Free.{
  CanTake, taken, closed, with_value, owned, lock_acquire_free, sema_down_run, sema_down_loop_free,
  lock_taken_run, lock_release-taken, sema_up-taken, closed-IsCurrent, check_preemption_idle,
  lock_released_run,
}
use os_pintos.Machine.{Machine, exec}
use os_pintos.Machine.Invariant.{Run}
use os_pintos.Machine.Turns.{at, Run-call, Run-trans}

module _ ⦃os : Platform⦄ (depth : ℕ) (code : (function aux : Ptr) → List Call)
    (idle_function : Ptr) where
  infixr 30 ◌then◌
  ◌then◌ :
      {m t u : Machine}
      → Run depth code idle_function m t
      → Run depth code idle_function t u
      → Run depth code idle_function m u
  p then q = Run-trans depth code idle_function p q

  module _ (stacks : Ptr → List Call) where
    abbrev pub Goes : (k : Kernel) (calls : List Call) (k' : Kernel) (calls' : List Call) → Type 0
    Goes k calls k' calls' = Run depth code idle_function (at stacks k calls) (at stacks k' calls')

    set_level_turn :
        (k : Kernel) (b : Bool) (rest : List Call)
        → Goes k (Call.set_level b ∷ rest) (record k { intr = record k.intr { on = b } }) rest
    unfolding exec
    set_level_turn k b rest =
        Run-call depth code idle_function (Call.set_level b) [] rest k
          (record k { intr = record k.intr { on = b } }) stacks tt refl
          (rw (os.intr_set_level_lem b k.intr) refl)

    module _ (k : Kernel) (l : Ptr) (v : ℕ) (c : CanTake l v k) where
      acquire_turn :
          (rest : List Call)
          → Goes k
              (Call.lock_acquire l ∷ rest)
              (closed k)
              (Call.sema_down (k.locks l).semaphore ∷ Call.lock_taken l k.current k.intr.on ∷ rest)
      unfolding exec
      acquire_turn rest =
          Run-call depth code idle_function (Call.lock_acquire l)
            (Call.sema_down (k.locks l).semaphore ∷ Call.lock_taken l k.current k.intr.on ∷ []) rest
            k (closed k) stacks tt refl
            (lock_acquire_free depth l k c.running c.normal c.some_lock c.free)

      down_turns :
          (rest : List Call)
          → Goes
              (closed k)
              (Call.sema_down (k.locks l).semaphore ∷ rest)
              (closed (with_value (k.locks l).semaphore v k))
              rest
      unfolding exec
      down_turns rest =
          let s = (k.locks l).semaphore in
          let k' = closed (with_value s v k) in
          Run-call depth code idle_function (Call.sema_down s) (Call.sema_down_loop s false ∷ [])
            rest (closed k) (closed k) stacks tt refl
            (sema_down_run s (closed k) c.some_semaphore c.normal)
          then Run-call depth code idle_function (Call.sema_down_loop s false)
              (Call.set_level false ∷ []) rest (closed k) k' stacks tt refl
              (sema_down_loop_free s false v (closed k) c.value)
          then set_level_turn k' false rest

      pub acquire_turns :
          (rest : List Call) → Goes k (Call.lock_acquire l ∷ rest) (taken l v k) rest
      unfolding exec
      acquire_turns rest =
          let k' = closed (with_value (k.locks l).semaphore v k) in
          acquire_turn rest
          then down_turns (Call.lock_taken l k.current k.intr.on ∷ rest)
          then Run-call depth code idle_function (Call.lock_taken l k.current k.intr.on)
              (Call.set_level k.intr.on ∷ []) rest k' (owned l k') stacks tt refl
              (lock_taken_run l k.intr.on k' c.unlinked)
          then set_level_turn (owned l k') k.intr.on rest

      release_turn :
          (rest : List Call)
          → Goes
              (taken l v k)
              (Call.lock_release l ∷ rest)
              (closed (with_value (k.locks l).semaphore v k))
              (Call.sema_up (k.locks l).semaphore ∷ Call.lock_released k.current k.intr.on ∷ rest)
      unfolding exec
      release_turn rest =
          let k' = with_value (k.locks l).semaphore v k in
          Run-call depth code idle_function (Call.lock_release l)
            (Call.sema_up (k.locks l).semaphore ∷ Call.lock_released k.current k.intr.on ∷ []) rest
            (taken l v k) (closed k') stacks tt refl (lock_release-taken l v k c)

      up_turns :
          (rest : List Call)
          → Goes
              (closed (with_value (k.locks l).semaphore v k))
              (Call.sema_up (k.locks l).semaphore ∷ rest)
              (closed k)
              rest
      unfolding exec
      up_turns rest =
          let s = (k.locks l).semaphore in
          let k' = closed (with_value s v k) in
          Run-call depth code idle_function (Call.sema_up s) (Call.check_preemption ∷ []) rest k'
            (closed k) stacks tt refl (sema_up-taken l v k c)
          then Run-call depth code idle_function Call.check_preemption [] rest (closed k) (closed k)
              stacks tt refl
              (check_preemption_idle (closed k) (closed-IsCurrent k c.running) c.highest).0

      pub release_turns :
          (rest : List Call) → Goes (taken l v k) (Call.lock_release l ∷ rest) k rest
      unfolding exec
      release_turns rest =
          release_turn rest
          then up_turns (Call.lock_released k.current k.intr.on ∷ rest)
          then Run-call depth code idle_function (Call.lock_released k.current k.intr.on)
              (Call.thread_yield_if_necessary ∷ Call.set_level k.intr.on ∷ []) rest (closed k)
              (closed k) stacks tt refl (lock_released_run (closed k) k.intr.on c.fresh)
          then Run-call depth code idle_function Call.thread_yield_if_necessary []
              (Call.set_level k.intr.on ∷ rest) (closed k) (closed k) stacks tt refl
              (check_preemption_idle (closed k) (closed-IsCurrent k c.running) c.highest).1
          then set_level_turn (closed k) k.intr.on rest

  -- A running thread of the priority scheduler, outside a handler, that no ready thread outranks,
  -- takes a free lock that no thread waits for, and holds it: the machine gets to the calls that
  -- follow the `lock_acquire`, the thread is the holder, and the value of the semaphore is one
  -- less. If the thread then releases the lock, the machine gets to the calls that follow, in the
  -- very state of the kernel before, if the priority of the thread was what `refresh_priority`
  -- makes of it.
  pub lock_release-lock_acquire :
      (stacks : Ptr → List Call) (k : Kernel) (l : Ptr) (v : ℕ) (rest : List Call)
      → CanTake l v k
      → Goes stacks k
          (Call.lock_acquire l ∷ Call.lock_release l ∷ rest)
          (taken l v k)
          (Call.lock_release l ∷ rest)
        × (((taken l v k).locks l).holder ≡ k.current)
        × (((taken l v k).semaphores (k.locks l).semaphore).value ≡ v)
        × Goes stacks (taken l v k) (Call.lock_release l ∷ rest) k rest
  lock_release-lock_acquire stacks k l v rest c = (
    acquire_turns stacks k l v c (Call.lock_release l ∷ rest),
    ground arith,
    ground arith,
    release_turns stacks k l v c rest,
  )
