-- ===== src/Scheduler/Yield.antt =====
-- `thread_yield` in the priority scheduler: after it a thread of the highest priority runs.
use os_pintos.Base.{◌≡◌, ◌≢◌, sym, true, false, arith, List, [], ◌∷◌, ◌++◌, All, subst}
use mathlib.Core.List.{Perm}
use os_pintos.Base.Int.{◌≤ℤ◌}
use os_pintos.Base.Sorted.{IsSorted}
use os_pintos.Platform.{Platform}
use os_pintos.Kernel.{
  Ptr, Thread, ThreadStatus, Kernel, ok, update, update-update, is_running, is_dying,
}
use os_pintos.Current.{is_thread}
use os_pintos.Scheduler.{less_priority, thread_yield, schedule}
use os_pintos.Scheduler.Ready.{
  inserted, inserted-IsSorted, inserted-perm, less_priority_same, front_highest,
}

-- The threads after `cur` has gone to the ready list and `next` has come from it.
abbrev pub linked_ready : Thread → Thread
linked_ready th = record th { status = ThreadStatus.ready; elem_linked = true }

abbrev pub started : Thread → Thread
started th = record th { status = ThreadStatus.running; elem_linked = false }

abbrev pub switched : (Ptr → Thread) → (cur next : Ptr) → Ptr → Thread
switched s cur next =
    let s' = update s cur (linked_ready (s cur)) in update s' next (started (s' next))

module _ ⦃os : Platform⦄ where
  pub schedule_run :
      (k : Kernel) (next : Ptr) (rest : List Ptr)
      → k.thread_mlfqs ≡ false
      → k.intr.on ≡ false
      → is_running (k.threads k.current).status ≡ false
      → is_dying (k.threads k.current).status ≡ false
      → k.ready_list ≡ next ∷ rest
      → is_thread next k ≡ true
      → schedule k
        ≡ ok tt (record k {
          threads = update k.threads next (started (k.threads next));
          ready_list = rest;
          current = next;
          thread_ticks = 0;
        })
  unfolding schedule
  schedule_run k next rest mode off stopped alive front valid = ground (
    arith,
    os.list_empty_lem k.ready_list,
    os.list_pop_front_lem next rest,
    update-update k.threads next (record (k.threads next) { elem_linked = false })
        (started (k.threads next)),
  )

  -- What `thread_yield` needs of the priority scheduler: a running thread, other than the idle
  -- thread, whose `elem` is on no list, and a ready list of valid threads in order of priority.
  pub record CanYield (k : Kernel) : Type 0 where
    pub mode : k.thread_mlfqs ≡ false
    pub normal : k.intr.context ≡ false
    pub valid : is_thread k.current k ≡ true
    pub running : (k.threads k.current).status ≡ ThreadStatus.running
    pub not_idle : k.current ≢ k.idle_thread
    pub free : (k.threads k.current).elem_linked ≡ false
    pub threads_valid : All (λ t. is_thread t k ≡ true) k.ready_list
    pub sorted : IsSorted (less_priority k.threads) k.ready_list

  abbrev pub after_yield : Kernel → (next : Ptr) (rest : List Ptr) → Kernel
  after_yield k next rest = record k {
    threads = switched k.threads k.current next;
    ready_list = rest;
    current = next;
    thread_ticks = 0;
    intr = record k.intr { on = false };
  }

  thread_yield_run :
      (k : Kernel) (next : Ptr) (rest : List Ptr)
      → CanYield k
      → inserted k k.current ≡ next ∷ rest
      → is_thread next k ≡ true
      → thread_yield k ≡ ok k.intr.on (after_yield k next rest)
  unfolding thread_yield is_thread
  thread_yield_run k next rest c front next_valid =
      let s = k.threads in
      let s' = update s k.current (linked_ready (s k.current)) in
      let k' = record k {
        threads = s';
        ready_list = next ∷ rest;
        intr = record k.intr { on = false };
      } in
      let linked = record (s k.current) { elem_linked = true } in
      ground (
        arith,
        os.intr_disable_lem k.intr,
        update-update s k.current linked (linked_ready (s k.current)),
        schedule_run k' next rest,
      )

  -- What is left of a sorted list behind its front, and how it compares with the front.
  pub first_of_IsSorted :
      (s s' : Ptr → Thread) (next : Ptr) (rest : List Ptr)
      → ((t : Ptr) → (s' t).priority ≡ (s t).priority)
      → IsSorted (less_priority s) (next ∷ rest)
      → All (λ t. (s' t).priority ≤ℤ (s' next).priority) rest × IsSorted (less_priority s') rest
  first_of_IsSorted s s' next rest same h =
      let order = less_priority_same s s' same in
      let h' = subst (λ less. IsSorted less (next ∷ rest)) (sym order) h in
      (front_highest s' next rest h', h'.1)

  -- Some thread comes first, once the running thread is on the ready list, and it is valid.
  first_after_insert :
      (k : Kernel)
      → CanYield k
      → (next : Ptr) × (rest : List Ptr) × (inserted k k.current ≡ next ∷ rest)
        × (is_thread next k ≡ true)
  first_after_insert k c =
      let (before, after, e, q) =
        os.list_insert_ordered_splits k.ready_list k.current (less_priority k.threads) in
      go before after q (subst (All (λ t. is_thread t k ≡ true)) e c.threads_valid)
    where
      go :
          (before after : List Ptr)
          → inserted k k.current ≡ before ++ k.current ∷ after
          → All (λ t. is_thread t k ≡ true) (before ++ after)
          → (next : Ptr) × (rest : List Ptr) × (inserted k k.current ≡ next ∷ rest)
            × (is_thread next k ≡ true)
      go [] after q h = (k.current, after, q, c.valid)
      go (b ∷ before) after q h = (b, before ++ k.current ∷ after, q, h.0)

  -- In the priority scheduler, a running thread that yields, whose `elem` is free while the ready
  -- list is in order of priority: the switch is made, and the thread that runs then has at least the
  -- priority of every thread on the ready list, which is in order; the running thread and the ready
  -- threads are the same threads as before, and no priority has changed.
  pub thread_yield_lem :
      (k : Kernel)
      → CanYield k
      → (next : Ptr) × (rest : List Ptr) × (thread_yield k ≡ ok k.intr.on (after_yield k next rest))
        × (let s' = switched k.threads k.current next in
            All (λ t. (s' t).priority ≤ℤ (s' next).priority) rest
            × IsSorted (less_priority s') rest
            × ((s' next).status ≡ ThreadStatus.running)
            × ((t : Ptr) → (s' t).priority ≡ (k.threads t).priority))
        × Perm (next ∷ rest) (k.current ∷ k.ready_list)
  thread_yield_lem k c =
      let (next, rest, front, valid) = first_after_insert k c in
      let s' = switched k.threads k.current next in
      let same : (t : Ptr) → (s' t).priority ≡ (k.threads t).priority = λ t. ground arith in
      let sorted : IsSorted (less_priority k.threads) (next ∷ rest) =
        rw front at (inserted-IsSorted k k.current c.sorted) in
      let (highest, ordered) = first_of_IsSorted k.threads s' next rest same sorted in
      (
        next,
        rest,
        thread_yield_run k next rest c front valid,
        (highest, ordered, ground arith, same),
        rw front at (inserted-perm k k.current),
      )
