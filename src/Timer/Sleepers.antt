-- ===== src/Timer/Sleepers.antt =====
-- The sleep list: its order, and which sleepers a tick wakes.
use os_pintos.Base.{
  ℕ, zero, suc, ◌≡◌, refl, ap, sym, ◌∙◌, subst, Bool, true, false, not, Bool-cases, inl, inr, arith,
  if◌then◌else◌, List, [], ◌∷◌, ◌++◌, length, keep,
}
use mathlib.Core.List.{Perm, perm_middle}
use mathlib.Core.List.Perm
use os_pintos.Base.Int.{ℤ, ltb_ℤ}
use os_pintos.Base.Sorted.{IsSorted, IsAsym}
use os_pintos.Platform.{Platform}
use os_pintos.Kernel.{Ptr, Thread, Kernel, Outcome, ok, set_thread}
use os_pintos.Call.{Call}
use os_pintos.Current.{is_thread}
use os_pintos.Scheduler.{less_priority, thread_unblock}
use os_pintos.Scheduler.Ready.{made_ready, inserted, thread_unblock_lem}
use os_pintos.Timer.Due.{due, early, due_same, woken, woken_cons, AllAsleep, AllAsleep-after}
use os_pintos.Timer.{wakeup_less, wakeup_from, timer_wakeup}

pub wakeup_less-IsAsym : (s : Ptr → Thread) → IsAsym (wakeup_less s)
unfolding wakeup_less
wakeup_less-IsAsym s a b h = ground arith

module _ ⦃os : Platform⦄ where
  wakeup_stop :
      (fuel : ℕ) (now : ℤ) (k : Kernel) (t : Ptr) (l : List Ptr)
      → k.sleep_list ≡ t ∷ l
      → ltb_ℤ now (k.threads t).wakeup_tick ≡ true
      → wakeup_from (suc fuel) now k ≡ ok [] k
  unfolding wakeup_from
  wakeup_stop fuel now k t l e h =
      ground (arith, os.list_empty_lem k.sleep_list, os.list_front_lem t l)

  wakeup_step :
      (fuel : ℕ) (now : ℤ) (k k' : Kernel) (t : Ptr) (l : List Ptr)
      → k.sleep_list ≡ t ∷ l
      → ltb_ℤ now (k.threads t).wakeup_tick ≡ false
      → thread_unblock t (record k { sleep_list = l }) ≡ ok tt k'
      → k'.intr.context ≡ true
      → wakeup_from (suc fuel) now k ≡ wakeup_from fuel now k'
  unfolding wakeup_from
  wakeup_step fuel now k k' t l e h q c =
      ground
        (arith, os.list_empty_lem k.sleep_list, os.list_front_lem t l, os.list_pop_front_lem t l)

  -- That the sleepers `d` have been woken and `e` are left, with the ready list `r`.
  abbrev after_wakeup : Kernel → (d e r : List Ptr) → Kernel
  after_wakeup k d e r = record k { threads = woken d k.threads; sleep_list = e; ready_list = r }

  abbrev pub Wakes : Kernel → (d e : List Ptr) → Outcome (List Call) → Type 0
  Wakes k d e result =
      (r : List Ptr) × (result ≡ ok [] (after_wakeup k d e r))
      × IsSorted (less_priority (woken d k.threads)) r
      × Perm r (d ++ k.ready_list)

  Wakes-none :
      (k : Kernel) (e : List Ptr)
      → k.sleep_list ≡ e
      → IsSorted (less_priority k.threads) k.ready_list
      → Wakes k [] e (ok [] k)
  Wakes-none k e same sorted =
      (k.ready_list, ap (λ l. ok [] (record k { sleep_list = l })) same, sorted, Perm.refl _)

  abbrev woke_one : Kernel → Ptr → (l r : List Ptr) → Kernel
  woke_one k t l r = record (set_thread t (made_ready (k.threads t)) k) {
    ready_list = r;
    sleep_list = l;
  }

  -- One sleeper more, in front of those that the rest of the loop wakes.
  Wakes-more :
      (k : Kernel) (t : Ptr) (l r0 d e : List Ptr) (result : Outcome (List Call))
      → Perm r0 (t ∷ k.ready_list)
      → Wakes (woke_one k t l r0) d e result
      → Wakes k (t ∷ d) e result
  Wakes-more k t l r0 d e result perm (r, q, sorted, p) =
      let same = woken_cons t d k.threads in
      (
        r,
        q ∙ ap (λ s. ok [] (record k { threads = s; sleep_list = e; ready_list = r })) same,
        subst (λ s. IsSorted (less_priority s) r) same sorted,
        Perm.trans p (Perm.trans (Perm.append_left d perm) (perm_middle d k.ready_list)),
      )

  wakeup_end : (now : ℤ) (k : Kernel) → wakeup_from zero now k ≡ ok [] k
  unfolding wakeup_from
  wakeup_end now k = refl

  -- The two ways in which the loop goes on, by the test on the first sleeper.
  abbrev ByTest : Kernel → ℤ → Ptr → List Ptr → Outcome (List Call) → Bool → Type 0
  ByTest k now t l result late =
      Wakes k (if late then [] else t ∷ due k.threads now l)
        (if late then t ∷ l else early k.threads now l) result

  wakeup_from_lem :
      (l : List Ptr) (now : ℤ) (k : Kernel)
      → k.sleep_list ≡ l
      → k.thread_mlfqs ≡ false
      → k.intr.context ≡ true
      → AllAsleep k l
      → IsSorted (less_priority k.threads) k.ready_list
      → Wakes k (due k.threads now l) (early k.threads now l) (wakeup_from (length l) now k)
  unfolding is_thread
  wakeup_from_lem [] now k same mode handler asleep sorted =
      subst (Wakes k [] []) (sym (wakeup_end now k)) (Wakes-none k [] same sorted)
  wakeup_from_lem (t ∷ l) now k same mode handler asleep sorted =
      let all = wakeup_from (suc (length l)) now k in
      elim (Bool-cases (ltb_ℤ now (k.threads t).wakeup_tick)) [
        | inl late ↦ subst (ByTest k now t l all) (sym late) (
            subst (Wakes k [] (t ∷ l)) (sym (wakeup_stop (length l) now k t l same late))
              (Wakes-none k (t ∷ l) same sorted))
        | inr on_time ↦
            let (woke, ordered, perm) =
              thread_unblock_lem t (record k { sleep_list = l }) mode asleep.0.0 asleep.0.1
                asleep.0.2 sorted in
            let r0 = inserted k t in
            let k2 = woke_one k t l r0 in
            let (d, e) = due_same k.threads k2.threads now l (λ u. ground arith) in
            let result = wakeup_from (length l) now k2 in
            let rest =
              wakeup_from_lem l now k2 refl mode handler
                (AllAsleep-after k t r0 l l asleep.1 asleep.2) ordered in
            let rest' =
              subst (λ x. Wakes k2 x (early k.threads now l) result) d
                (subst (λ x. Wakes k2 (due k2.threads now l) x result) e rest) in
            subst (ByTest k now t l all) (sym on_time) (
              subst (Wakes k (t ∷ due k.threads now l) (early k.threads now l))
                (sym (wakeup_step (length l) now k k2 t l same on_time woke handler))
                (Wakes-more k t l r0 (due k.threads now l) (early k.threads now l) result perm
                  rest'))
      ]

-- In a list in order of wakeup ticks, behind a sleeper that is early all are.
later_early :
    (s : Ptr → Thread) (now : ℤ) (t : Ptr) (l : List Ptr)
    → IsSorted (wakeup_less s) (t ∷ l)
    → ltb_ℤ now (s t).wakeup_tick ≡ true
    → (keep (λ u. not (ltb_ℤ now (s u).wakeup_tick)) l ≡ [])
      × (keep (λ u. ltb_ℤ now (s u).wakeup_tick) l ≡ l)
unfolding wakeup_less
later_early s now t [] sorted h = (refl, refl)
later_early s now t (u ∷ l) sorted h =
    let after : ltb_ℤ now (s u).wakeup_tick ≡ true = ground arith in
    ground (arith, later_early s now u l sorted.1 after)

due_lem :
    (s : Ptr → Thread) (now : ℤ) (l : List Ptr)
    → IsSorted (wakeup_less s) l
    → (due s now l ≡ keep (λ u. not (ltb_ℤ now (s u).wakeup_tick)) l)
      × (early s now l ≡ keep (λ u. ltb_ℤ now (s u).wakeup_tick) l)
due_lem s now [] sorted = (refl, refl)
due_lem s now (t ∷ l) sorted =
    ground (arith, due_lem s now l sorted.1, later_early s now t l sorted)

-- The sleepers whose tick has come, and those whose tick is still ahead.
abbrev pub sleepers_due : Kernel → List Ptr
sleepers_due k = keep (λ t. not (ltb_ℤ k.ticks (k.threads t).wakeup_tick)) k.sleep_list

abbrev pub sleepers_early : Kernel → List Ptr
sleepers_early k = keep (λ t. ltb_ℤ k.ticks (k.threads t).wakeup_tick) k.sleep_list

module _ ⦃os : Platform⦄ where
  timer_wakeup_run : (k : Kernel) → timer_wakeup k ≡ wakeup_from (length k.sleep_list) k.ticks k
  unfolding timer_wakeup
  timer_wakeup_run k = ground (
    arith,
    os.intr_disable_lem k.intr,
    os.intr_set_level_lem k.intr.on (record k.intr { on = false }),
  )

  -- In the handler of the timer interrupt and under the priority scheduler, with the sleep list in
  -- order of wakeup ticks, every sleeper blocked, on no other list and listed once, and the ready
  -- list in order of priority: `timer_wakeup` returns with no call left to make. It has made ready
  -- exactly the sleepers whose wakeup tick has come, all at once; the others stay on the sleep list.
  -- The ready list is in order of priority and holds the woken threads and what it held before.
  pub timer_wakeup_lem :
      (k : Kernel)
      → k.thread_mlfqs ≡ false
      → k.intr.context ≡ true
      → AllAsleep k k.sleep_list
      → IsSorted (wakeup_less k.threads) k.sleep_list
      → IsSorted (less_priority k.threads) k.ready_list
      → (r : List Ptr) × (timer_wakeup k
          ≡ ok [] (record k {
            threads = woken (sleepers_due k) k.threads;
            sleep_list = sleepers_early k;
            ready_list = r;
          }))
        × IsSorted (less_priority (woken (sleepers_due k) k.threads)) r
        × Perm r (sleepers_due k ++ k.ready_list)
  timer_wakeup_lem k mode handler asleep by_tick by_priority =
      let (d, e) = due_lem k.threads k.ticks k.sleep_list by_tick in
      subst (λ x. Wakes k x (sleepers_early k) (timer_wakeup k)) d
        (subst (λ x. Wakes k (due k.threads k.ticks k.sleep_list) x (timer_wakeup k)) e
          (subst
            (Wakes k (due k.threads k.ticks k.sleep_list) (early k.threads k.ticks k.sleep_list))
            (sym (timer_wakeup_run k))
            (wakeup_from_lem k.sleep_list k.ticks k refl mode handler asleep by_priority)))
