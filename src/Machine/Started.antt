-- ===== src/Machine/Started.antt =====
-- `thread_init` as a whole, with the lock that `allocate_tid` takes.
use os_pintos.Base.{ℕ, refl, List, [], ◌∷◌}
use os_pintos.Base.Int.{pos, ◌+ℤ◌, wrap32}
use os_pintos.Platform.{Platform}
use os_pintos.Kernel.{Ptr, Kernel}
use os_pintos.Call.{Call}
use os_pintos.Locks.Free.{taken}
use os_pintos.Creation.{main_tid_taken}
use os_pintos.Creation.FirstTid.{initialised-CanTake, main_tid_given_run}
use os_pintos.Creation.Init.{IsLoaded, initialised, thread_init_run}
use os_pintos.Machine.{exec}
use os_pintos.Machine.Turns.{Run-call, Run-trans}
use os_pintos.Machine.Uncontended.{Goes, acquire_turns, release_turns}

module _ ⦃os : Platform⦄ (depth : ℕ) (code : (function aux : Ptr) → List Call)
    (idle_function : Ptr) where
  -- On a kernel that has just been loaded, with interrupts off, no handler running, the priority
  -- scheduler chosen and the `elem` of the lock for tids on no list, `thread_init` returns, with
  -- this lock taken and released on the way. The code that called it is then the main thread:
  -- running, of the default priority, the only one on the list of all threads, with the tid that
  -- comes next, and this is counted up. No thread is ready, and the lock is free.
  pub Run-thread_init :
      (stacks : Ptr → List Call) (k : Kernel) (rest : List Call)
      → IsLoaded k
      → Goes depth code idle_function stacks k
          (Call.thread_init ∷ rest)
          (initialised k k.next_tid (wrap32 (k.next_tid +ℤ pos 1)))
          rest
  unfolding exec main_tid_taken
  Run-thread_init stacks k rest c =
      let l = k.tid_lock in
      let tid = k.next_tid in
      let next = wrap32 (tid +ℤ pos 1) in
      let before = initialised k (pos 0) tid in
      let after = initialised k (pos 0) next in
      let call = Run-call depth code idle_function in
      Run-trans depth code idle_function
        (call Call.thread_init (Call.lock_acquire l ∷ Call.main_tid_taken ∷ []) rest k before stacks
          tt refl (thread_init_run k c))
        (Run-trans depth code idle_function
          (acquire_turns depth code idle_function stacks before l 0 (initialised-CanTake k tid c)
            (Call.main_tid_taken ∷ rest))
          (Run-trans depth code idle_function
            (call Call.main_tid_taken (Call.lock_release l ∷ Call.main_tid_given tid ∷ []) rest
              (taken l 0 before) (taken l 0 after) stacks tt refl refl)
            (Run-trans depth code idle_function
              (release_turns depth code idle_function stacks after l 0
                (initialised-CanTake k next c) (Call.main_tid_given tid ∷ rest))
              (call (Call.main_tid_given tid) [] rest after (initialised k tid next) stacks tt refl
                (main_tid_given_run k tid next)))))
