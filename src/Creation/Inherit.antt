-- ===== src/Creation/Inherit.antt =====
-- `thread_create` under the feedback queues: what a thread takes over from the one that creates it.
use os_pintos.Base.{◌≤◌, ◌≡◌, ◌≢◌, true, false, arith, ℕ, List, [], ◌∷◌, ◌++◌}
use os_pintos.Base.Int.{ℤ, pos, pos_part, neg_part, IsInt32, ◌≤ℤ◌}
use os_pintos.Platform.{Platform}
use os_pintos.Kernel.{Ptr, null, Thread, Kernel, ok, update-update, set_thread}
use os_pintos.Call.{Call}
use os_pintos.Current.{is_thread}
use os_pintos.Mlfqs.Priority.{into_range, ideal_priority, mlfqs_update_priority_lem}
use os_pintos.Mlfqs.Queues.{IsCurrent}
use os_pintos.Creation.{blank, inherit, init_thread, thread_create}
use os_pintos.Creation.Threads.{unborn}

-- The thread before `allocate_tid`, with what it has of its parent.
abbrev pub child : Thread → (t : Ptr) → List ℕ → (p : ℤ) → Thread
child parent t name p = record (unborn t name p) {
  nice = parent.nice;
  recent_cpu = parent.recent_cpu;
  priority = into_range (ideal_priority parent.recent_cpu parent.nice);
}

abbrev heir : Thread → (t : Ptr) → List ℕ → (p : ℤ) → Thread
heir parent t name p = record (child parent t name p) { effective_priority = pos 0 }

module _ ⦃os : Platform⦄ where
  inherit_run :
      (t : Ptr) (name : List ℕ) (p : ℤ) (k : Kernel)
      → IsCurrent k
      → t ≢ k.current
      → t ≢ k.initial_thread
      → t ≢ k.idle_thread
      → IsInt32 (k.threads k.current).recent_cpu
      → neg_part (k.threads k.current).nice ≤ 20
      → pos_part (k.threads k.current).nice ≤ 20
      → inherit t (set_thread t (blank t name p) k)
        ≡ ok tt (set_thread t (heir (k.threads k.current) t name p) k)
  unfolding inherit is_thread
  inherit_run t name p k cur other later busy h low high =
      let parent = k.threads k.current in
      let given = record (blank t name p) { nice = parent.nice; recent_cpu = parent.recent_cpu } in
      ground (
        arith,
        update-update k.threads t (blank t name p) given,
        mlfqs_update_priority_lem t (set_thread t given k),
        update-update k.threads t given (heir parent t name p),
      )

  init_thread_run :
      (t : Ptr) (name : List ℕ) (p : ℤ) (k k' : Kernel)
      → k.thread_mlfqs ≡ true
      → t ≢ null
      → pos 0 ≤ℤ p
      → p ≤ℤ pos 63
      → inherit t (set_thread t (blank t name p) k) ≡ ok tt k'
      → init_thread t name p k ≡ ok tt (record k' { all_list = k'.all_list ++ t ∷ [] })
  unfolding init_thread
  init_thread_run t name p k k' mode nn low high run = ground (
    arith,
    run,
    os.list_push_back_lem k'.all_list t,
    os.intr_disable_lem k'.intr,
    os.intr_set_level_lem k'.intr.on (record k'.intr { on = false }),
  )

  -- A running thread with a nice value from -20 to 20 creates one, under the feedback queues, on a
  -- page that is not its own nor that of the initial or the idle thread, with a given priority from 0
  -- to 63: the new thread has the nice value and the recent_cpu of the running one, and for its
  -- priority what the formula gives for these; the given one is its base and effective priority. It
  -- is blocked, and the last of all threads; what is left is to fetch its tid and to start it.
  pub thread_create-inherit :
      (name : List ℕ) (p : ℤ) (function aux t : Ptr) (k : Kernel)
      → k.thread_mlfqs ≡ true
      → function ≢ null
      → t ≢ null
      → pos 0 ≤ℤ p
      → p ≤ℤ pos 63
      → IsCurrent k
      → t ≢ k.current
      → t ≢ k.initial_thread
      → t ≢ k.idle_thread
      → IsInt32 (k.threads k.current).recent_cpu
      → neg_part (k.threads k.current).nice ≤ 20
      → pos_part (k.threads k.current).nice ≤ 20
      → thread_create name p function aux t k
        ≡ ok
            (Call.lock_acquire k.tid_lock ∷ Call.tid_taken t function aux ∷ [])
            (record (set_thread t (child (k.threads k.current) t name p) k) {
              all_list = k.all_list ++ t ∷ [];
            })
  unfolding thread_create
  thread_create-inherit name p function aux t k mode fn nn lo hi cur other later busy h low high =
      let parent = k.threads k.current in
      let run = inherit_run t name p k cur other later busy h low high in
      let k' = set_thread t (heir parent t name p) k in
      ground (
        arith,
        init_thread_run t name p k k' mode nn lo hi run,
        update-update k.threads t (heir parent t name p) (child parent t name p),
      )
