-- ===== src/Scheduler/Ready.antt =====
-- The ready list of the priority scheduler: its order, and what `thread_unblock` does to it.
use os_pintos.Base.{◌≡◌, fun_ext, true, false, arith, List, [], ◌∷◌, ◌++◌, All}
use mathlib.Core.List.{Perm, perm_middle}
use os_pintos.Base.Int.{◌≤ℤ◌}
use os_pintos.Base.Sorted.{IsSorted, IsAsym}
use os_pintos.Platform.{Platform}
use os_pintos.Kernel.{Ptr, Thread, ThreadStatus, Kernel, ok, update, update-update, set_thread}
use os_pintos.Current.{is_thread}
use os_pintos.Scheduler.{less_priority, thread_unblock}

pub less_priority-IsAsym : (s : Ptr → Thread) → IsAsym (less_priority s)
unfolding less_priority
less_priority-IsAsym s a b h = ground arith

-- A sorted list without its second element is sorted.
skip_second :
    (s : Ptr → Thread) (x y : Ptr) (l : List Ptr)
    → IsSorted (less_priority s) (x ∷ y ∷ l)
    → IsSorted (less_priority s) (x ∷ l)
unfolding less_priority
skip_second s x y [] h = (tt, tt)
skip_second s x y (z ∷ l) h = ground arith

-- In a sorted list nothing has a higher priority than the front.
pub front_highest :
    (s : Ptr → Thread) (x : Ptr) (l : List Ptr)
    → IsSorted (less_priority s) (x ∷ l)
    → All (λ t. (s t).priority ≤ℤ (s x).priority) l
unfolding less_priority
front_highest s x [] h = tt
front_highest s x (y ∷ l) h = (ground arith, front_highest s x l (skip_second s x y l h))

-- The order depends on the priorities alone.
pub less_priority_same :
    (s s' : Ptr → Thread)
    → ((t : Ptr) → (s' t).priority ≡ (s t).priority)
    → less_priority s' ≡ less_priority s
unfolding less_priority
less_priority_same s s' h = fun_ext λ a. fun_ext λ b. rw (h a, h b)

abbrev pub made_ready : Thread → Thread
made_ready th = record th { status = ThreadStatus.ready; elem_linked = true }

pub perm_of_split :
    (t : Ptr) (before after : List Ptr) {l l' : List Ptr}
    → l ≡ before ++ after
    → l' ≡ before ++ t ∷ after
    → Perm l' (t ∷ l)
perm_of_split t before after e q = rw (q, e) (perm_middle before after)

module _ ⦃os : Platform⦄ where
  abbrev pub inserted : Kernel → Ptr → List Ptr
  inserted k t = os.list_insert_ordered k.ready_list t (less_priority k.threads)

  pub thread_unblock_run :
      (t : Ptr) (k : Kernel)
      → k.thread_mlfqs ≡ false
      → is_thread t k ≡ true
      → (k.threads t).status ≡ ThreadStatus.blocked
      → (k.threads t).elem_linked ≡ false
      → thread_unblock t k
        ≡ ok tt (record (set_thread t (made_ready (k.threads t)) k) { ready_list = inserted k t })
  unfolding thread_unblock
  thread_unblock_run t k mode valid asleep free =
      let s = k.threads in
      let awake = record (s t) { status = ThreadStatus.ready } in
      ground (
        arith,
        os.intr_disable_lem k.intr,
        os.intr_set_level_lem k.intr.on (record k.intr { on = false }),
        less_priority_same s (update s t awake) (λ u. ground arith),
        update-update s t awake (made_ready (s t)),
      )

  pub inserted-perm : (k : Kernel) (t : Ptr) → Perm (inserted k t) (t ∷ k.ready_list)
  inserted-perm k t =
      let (before, after, e, q) =
        os.list_insert_ordered_splits k.ready_list t (less_priority k.threads) in
      perm_of_split t before after e q

  pub inserted-IsSorted :
      (k : Kernel) (t : Ptr)
      → IsSorted (less_priority k.threads) k.ready_list
      → IsSorted (less_priority k.threads) (inserted k t)
  inserted-IsSorted k t sorted =
      os.list_insert_ordered-IsSorted k.ready_list t (less_priority k.threads)
        (less_priority-IsAsym k.threads) sorted

  -- In the priority scheduler, a blocked thread whose `elem` is on no list becomes ready: the call
  -- returns, the ready list holds the thread and what it held before and is still in order of
  -- priority, and nothing has changed but this list, the status of the thread and the links of its
  -- `elem`. The interrupt level is as before, and the running thread runs on.
  pub thread_unblock_lem :
      (t : Ptr) (k : Kernel)
      → k.thread_mlfqs ≡ false
      → is_thread t k ≡ true
      → (k.threads t).status ≡ ThreadStatus.blocked
      → (k.threads t).elem_linked ≡ false
      → IsSorted (less_priority k.threads) k.ready_list
      → let k' = record (set_thread t (made_ready (k.threads t)) k) { ready_list = inserted k t } in
        (thread_unblock t k ≡ ok tt k')
        × IsSorted (less_priority k'.threads) k'.ready_list
        × Perm k'.ready_list (t ∷ k.ready_list)
  thread_unblock_lem t k mode valid asleep free sorted =
      let s = k.threads in
      let same = less_priority_same s (update s t (made_ready (s t))) (λ u. ground arith) in
      (
        thread_unblock_run t k mode valid asleep free,
        rw same (inserted-IsSorted k t sorted),
        inserted-perm k t,
      )
