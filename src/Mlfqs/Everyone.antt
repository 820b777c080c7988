-- ===== src/Mlfqs/Everyone.antt =====
-- The priorities of all threads and the queues, as the timer has them recomputed.
use os_pintos.Base.{
  ℕ, ◌<◌, ◌≤◌, ◌≡◌, ◌≢◌, refl, sym, ap, fun_ext, ◌∙◌, true, false, not, ◌&&◌, ◌==◌, Bool-cases, inl,
  inr, arith, if◌then◌else◌, List, [], ◌∷◌, All, has, keep,
}
use os_pintos.Base.Int.{ℤ, pos_part, neg_part, IsInt32}
use os_pintos.Platform.{Platform}
use os_pintos.Kernel.{Ptr, Thread, Kernel, M, ok, update, set_thread}
use os_pintos.Current.{foreach_from, thread_foreach}
use os_pintos.Mlfqs.{queue_count, mlfqs_update_priority, mlfqs_update_priority_all}
use os_pintos.Mlfqs.Priority.{
  InRange, into_range, ideal_priority, with_priority, mlfqs_update_priority_lem,
}
use os_pintos.Mlfqs.Reorganize.{CanQueue, gather, mlfqs_reorganize_queues_lem}

-- A recent_cpu that fits in an `int` and a nice value in its range.
abbrev pub IsFair : Thread → Type 0
IsFair th = IsInt32 th.recent_cpu × (neg_part th.nice ≤ 20) × (pos_part th.nice ≤ 20)

abbrev pub due_priority : Thread → ℤ
due_priority th = into_range (ideal_priority th.recent_cpu th.nice)

-- The threads with those on `l`, but for the idle thread, at the priority due to them.
abbrev pub at_due : (idle : Ptr) (l : List Ptr) → (Ptr → Thread) → Ptr → Thread
at_due idle l s t =
    if has t l && not (t == idle) then with_priority (due_priority (s t)) (s t) else s t

into_range-InRange : (z : ℤ) → InRange (into_range z)
into_range-InRange z = ground arith

at_due-idle :
    (idle t : Ptr) (l : List Ptr) (s : Ptr → Thread)
    → (t == idle) ≡ true
    → at_due idle (t ∷ l) s ≡ at_due idle l s
at_due-idle idle t l s same = fun_ext λ u. ground arith

mlfqs_update_priority-idle :
    (t : Ptr) (k : Kernel) → (t == k.idle_thread) ≡ true → mlfqs_update_priority t k ≡ ok tt k
unfolding mlfqs_update_priority
mlfqs_update_priority-idle t k same = rw same refl

at_due-update :
    (idle t : Ptr) (l : List Ptr) (s : Ptr → Thread)
    → t ≢ idle
    → at_due idle l (update s t (with_priority (due_priority (s t)) (s t))) ≡ at_due idle (t ∷ l) s
at_due-update idle t l s other = fun_ext λ u. ground arith

IsFair-update :
    (s : Ptr → Thread) (t : Ptr) (p : ℤ) (l : List Ptr)
    → All (λ u. IsFair (s u)) l
    → All (λ u. IsFair (update s t (with_priority p (s t)) u)) l
IsFair-update s t p [] h = tt
IsFair-update s t p (u ∷ l) (hu, h) = (ground (arith, hu), IsFair-update s t p l h)

foreach_from-mlfqs_update_priority :
    (l : List Ptr) (k : Kernel)
    → All (λ t. IsFair (k.threads t)) l
    → foreach_from l mlfqs_update_priority k
      ≡ ok tt (record k { threads = at_due k.idle_thread l k.threads })
unfolding foreach_from
foreach_from-mlfqs_update_priority [] k h = refl
foreach_from-mlfqs_update_priority (t ∷ l) k (ht, h) = elim (Bool-cases (t == k.idle_thread)) [
  | inl idle ↦ rw (mlfqs_update_priority-idle t k idle) (
      foreach_from-mlfqs_update_priority l k h
      ∙ ap (λ s. ok tt (record k { threads = s }))
          (sym (at_due-idle k.idle_thread t l k.threads idle)))
  | inr other ↦
      let busy : t ≢ k.idle_thread = ground arith in
      let k' = set_thread t (with_priority (due_priority (k.threads t)) (k.threads t)) k in
      rw (mlfqs_update_priority_lem t k busy ht.0 ht.1 ht.2) (
        foreach_from-mlfqs_update_priority l k'
          (IsFair-update k.threads t (due_priority (k.threads t)) l h)
        ∙ ap (λ s. ok tt (record k { threads = s }))
            (at_due-update k.idle_thread t l k.threads busy))
]

thread_foreach_closed :
    (func : Ptr → M (Unit {0})) (k : Kernel)
    → k.intr.on ≡ false
    → thread_foreach func k ≡ foreach_from k.all_list func k
unfolding thread_foreach
thread_foreach_closed func k off = ground arith

-- A thread of a queue: its `elem` is on a list, it is among all threads and not the idle thread.
abbrev pub IsQueued : Kernel → Ptr → Type 0
IsQueued k t = ((k.threads t).elem_linked ≡ true) × (has t k.all_list ≡ true) × (t ≢ k.idle_thread)

queued-CanQueue :
    (k : Kernel) (l : List Ptr)
    → All (IsQueued k) l
    → All (λ t. CanQueue (at_due k.idle_thread k.all_list k.threads t)) l
queued-CanQueue k [] h = tt
queued-CanQueue k (t ∷ l) (ht, h) = (
  ground (arith, into_range-InRange (ideal_priority (k.threads t).recent_cpu (k.threads t).nice)),
  queued-CanQueue k l h,
)

-- The queue of a thread after the update.
abbrev pub due_queue : Kernel → Ptr → ℕ
due_queue k t = pos_part (due_priority (k.threads t))

keep-due_queue :
    (k : Kernel) (j : ℕ) (l : List Ptr)
    → All (IsQueued k) l
    → keep (λ t. pos_part (at_due k.idle_thread k.all_list k.threads t).priority == j) l
      ≡ keep (λ t. due_queue k t == j) l
keep-due_queue k j [] h = refl
keep-due_queue k j (t ∷ l) (ht, h) = ground (arith, keep-due_queue k j l h)

module _ ⦃os : Platform⦄ where
  -- With interrupts off, every recent_cpu an `int` and every nice value from -20 to 20, and the queues
  -- holding linked threads that are on the list of all threads, without the idle thread: the update of
  -- all priorities returns. Every thread on the list of all threads but the idle one then has the
  -- priority that its recent_cpu and nice value give it over the integers, from 0 to 63, and each queue
  -- holds exactly the threads that were queued before and have its number for their new priority, in
  -- the order in which they stood in the queues from 0 to 63. Nothing else has changed.
  pub mlfqs_update_priority_all_lem :
      (k : Kernel) (j : ℕ)
      → k.intr.on ≡ false
      → All (λ t. IsFair (k.threads t)) k.all_list
      → All (IsQueued k) (gather queue_count 0 k.mlfqs_list)
      → j < queue_count
      → (lists : ℕ → List Ptr) × (mlfqs_update_priority_all k
          ≡ ok tt (record k {
            threads = at_due k.idle_thread k.all_list k.threads;
            mlfqs_list = lists;
          }))
        × (lists j ≡ keep (λ t. due_queue k t == j) (gather queue_count 0 k.mlfqs_list))
  unfolding mlfqs_update_priority_all
  mlfqs_update_priority_all_lem k j off fair queued bound =
      let ts = gather queue_count 0 k.mlfqs_list in
      let k' = record k { threads = at_due k.idle_thread k.all_list k.threads } in
      let (lists, run, sorted) = mlfqs_reorganize_queues_lem k' (queued-CanQueue k ts queued) in
      (
        lists,
        rw (thread_foreach_closed mlfqs_update_priority k off)
            (rw (foreach_from-mlfqs_update_priority k.all_list k fair) run),
        sorted j bound ∙ keep-due_queue k j ts queued,
      )
