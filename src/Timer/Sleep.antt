-- ===== src/Timer/Sleep.antt =====
-- `timer_sleep` in the priority scheduler: the sleep list that it leaves, and who runs instead.
use os_pintos.Base.{
  ◌≡◌, refl, ◌∙◌, ap, true, false, inl, inr, Bool-cases, arith, List, [], ◌∷◌, All, has,
}
use mathlib.Core.List.{Perm}
use os_pintos.Base.Int.{ℤ, pos, ◌+ℤ◌, ◌≤ℤ◌, ◌<ℤ◌, leb_ℤ, wrap64}
use os_pintos.Base.Sorted.{IsSorted}
use os_pintos.Platform.{Platform}
use os_pintos.Kernel.{
  is_running, M, ◌>>=◌, ◌>>◌, Ptr, Thread, Kernel, Outcome, ok, update, and_then, pure,
}
use os_pintos.Call.{Call}
use os_pintos.Current.{thread_current, modify_thread, is_thread}
use os_pintos.Scheduler.{intr_disable, thread_block}
use os_pintos.Scheduler.Ready.{less_priority_same, perm_of_split}
use os_pintos.Scheduler.Block.{CanBlock, Switched, blocked, thread_block_lem}
use os_pintos.Timer.{wakeup_less, insert_sleeper, timer_sleep}
use os_pintos.Timer.Sleepers.{wakeup_less-IsAsym}

abbrev sleeping : ℤ → Kernel → Thread → Thread
sleeping ticks k th = record th { wakeup_tick = wrap64 (k.ticks +ℤ ticks) }

-- Changing a thread that is not on the list keeps the order.
IsSorted-update :
    (s : Ptr → Thread) (t : Ptr) (th : Thread) (l : List Ptr)
    → has t l ≡ false
    → IsSorted (wakeup_less s) l
    → IsSorted (wakeup_less (update s t th)) l
unfolding wakeup_less
IsSorted-update s t th [] h a = tt
IsSorted-update s t th (x ∷ []) h a = (tt, tt)
IsSorted-update s t th (x ∷ y ∷ l) h a =
    (ground arith, IsSorted-update s t th (y ∷ l) (ground arith) a.1)

-- The interrupts off, as `thread_block` finds them.
abbrev pub closed : Kernel → Kernel
closed k = record k { intr = record k.intr { on = false } }

module _ ⦃os : Platform⦄ where
  -- The running thread on the sleep list, still to be blocked.
  abbrev pub lying : ℤ → Kernel → Kernel
  lying ticks k =
      let th = sleeping ticks k (k.threads k.current) in
      let s = update k.threads k.current th in
      record (closed k) {
        threads = s;
        sleep_list = os.list_insert_ordered k.sleep_list k.current (wakeup_less s);
      }

  restored : (k : Kernel) → os.intr_set_level k.intr.on (os.intr_disable k.intr) ≡ k.intr
  restored k = ground (
    arith,
    os.intr_disable_lem k.intr,
    os.intr_set_level_lem k.intr.on (record k.intr { on = false }),
  )

  timer_sleep-at_once :
      (ticks : ℤ) (k : Kernel)
      → k.intr.on ≡ true
      → leb_ℤ ticks (pos 0) ≡ true
      → timer_sleep ticks k ≡ ok [] k
  unfolding timer_sleep
  timer_sleep-at_once ticks k on h = ground (
    arith,
    os.intr_disable_lem k.intr,
    os.intr_set_level_lem k.intr.on (record k.intr { on = false }),
  )

  -- The rest of `timer_sleep` behind its test of the ticks.
  abbrev lie_down : (start ticks : ℤ) → M (List Call)
  lie_down start ticks = do
    old_level ← intr_disable
    cur ← thread_current
    modify_thread cur (λ r. record r { wakeup_tick = wrap64 (start +ℤ ticks) })
    insert_sleeper cur
    thread_block
    pure (Call.set_level old_level ∷ [])

  timer_sleep-lie_down :
      (ticks : ℤ) (k : Kernel)
      → k.intr.on ≡ true
      → leb_ℤ ticks (pos 0) ≡ false
      → timer_sleep ticks k ≡ lie_down k.ticks ticks k
  unfolding timer_sleep
  timer_sleep-lie_down ticks k on h = rw (restored k) (ground arith)

  lie_down_run :
      (ticks : ℤ) (k : Kernel)
      → k.intr.on ≡ true
      → is_thread k.current k ≡ true
      → is_running (k.threads k.current).status ≡ true
      → lie_down k.ticks ticks k
        ≡ and_then (thread_block (lying ticks k)) (λ _. pure (Call.set_level true ∷ []))
  unfolding thread_current insert_sleeper
  lie_down_run ticks k on valid running = rw (os.intr_disable_lem k.intr, on) (ground arith)

  lying-CanBlock : (ticks : ℤ) (k : Kernel) → CanBlock (closed k) → CanBlock (lying ticks k)
  unfolding is_thread
  lying-CanBlock ticks k c =
      let s = k.threads in
      let s' = update s k.current (sleeping ticks k (s k.current)) in
      let order = less_priority_same s s' (λ u. ground arith) in
      record {
        mode = c.mode;
        normal = c.normal;
        off = refl;
        valid = ground arith;
        running = ground arith;
        idle_valid = ground arith;
        threads_valid = threads_valid_after k.ready_list c.threads_valid;
        sorted = rw order c.sorted;
      }
    where
      threads_valid_after :
          (l : List Ptr)
          → All (λ t. is_thread t k ≡ true) l
          → All (λ t. is_thread t (lying ticks k) ≡ true) l
      threads_valid_after [] a = tt
      threads_valid_after (t ∷ l) a = (ground arith, threads_valid_after l a.1)

  -- What a call does: it returns at once, or the thread is on the sleep list and the CPU switched.
  pub data Slept (ticks : ℤ) (k : Kernel) (o : Outcome (List Call)) : Type 0 where
    at_once : ticks ≤ℤ pos 0 → o ≡ ok [] k → Slept ticks k o
    asleep :
        (switch : Outcome (Unit {0}))
        → pos 0 <ℤ ticks
        → o ≡ and_then switch (λ _. pure (Call.set_level true ∷ []))
        → Switched (lying ticks k) (blocked (lying ticks k)) switch
        → IsSorted (wakeup_less (lying ticks k).threads) (lying ticks k).sleep_list
        → Perm (lying ticks k).sleep_list (k.current ∷ k.sleep_list)
        → Slept ticks k o

  -- The running thread, in the priority scheduler, with interrupts on, calls for a sleep while it is
  -- not on the sleep list: with no ticks to sleep, or a negative number, the call returns at once and
  -- changes nothing. Otherwise the thread is blocked and on the sleep list, with the present tick and
  -- the given number, added modulo 2^64, as the tick to wake at; this list is in order of these ticks
  -- if it was before; a ready thread that no other outranks runs instead, or the idle thread; and the
  -- interrupts are to be on again when the thread returns.
  pub timer_sleep_lem :
      (ticks : ℤ) (k : Kernel)
      → k.intr.on ≡ true
      → CanBlock (closed k)
      → has k.current k.sleep_list ≡ false
      → IsSorted (wakeup_less k.threads) k.sleep_list
      → Slept ticks k (timer_sleep ticks k)
  unfolding is_thread
  timer_sleep_lem ticks k on c out sorted =
      let th = sleeping ticks k (k.threads k.current) in
      let s = update k.threads k.current th in
      let less = wakeup_less s in
      let (before, after, e, q) = os.list_insert_ordered_splits k.sleep_list k.current less in
      elim (Bool-cases (leb_ℤ ticks (pos 0))) [
        | inl h ↦ at_once (ground arith) (timer_sleep-at_once ticks k on h)
        | inr h ↦
            asleep (thread_block (lying ticks k)) (ground arith)
              (timer_sleep-lie_down ticks k on h
                ∙ lie_down_run ticks k on c.valid (ap is_running c.running))
              (thread_block_lem (lying ticks k) (lying-CanBlock ticks k c))
              (os.list_insert_ordered-IsSorted k.sleep_list k.current less (wakeup_less-IsAsym s)
                (IsSorted-update k.threads k.current th k.sleep_list out sorted))
              (perm_of_split k.current before after e q)
      ]
