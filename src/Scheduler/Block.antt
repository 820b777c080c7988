-- ===== src/Scheduler/Block.antt =====
-- `thread_block` in the priority scheduler: which thread runs instead.
use os_pintos.Base.{◌≡◌, refl, true, false, arith, List, [], ◌∷◌, All}
use os_pintos.Base.Int.{◌≤ℤ◌}
use os_pintos.Base.Sorted.{IsSorted}
use os_pintos.Platform.{Platform}
use os_pintos.Kernel.{
  Ptr, Thread, ThreadStatus, Kernel, Outcome, ok, update, set_thread, is_running, is_dying,
}
use os_pintos.Current.{is_thread}
use os_pintos.Scheduler.{less_priority, schedule, thread_block}
use os_pintos.Scheduler.Ready.{front_highest}
use os_pintos.Scheduler.Yield.{started, schedule_run}

abbrev pub runs : Thread → Thread
runs th = record th { status = ThreadStatus.running }

abbrev pub blocks : Thread → Thread
blocks th = record th { status = ThreadStatus.blocked }

-- A running thread outside a handler, with interrupts off and only valid threads to switch to.
pub record CanBlock (k : Kernel) : Type 0 where
  pub mode : k.thread_mlfqs ≡ false
  pub normal : k.intr.context ≡ false
  pub off : k.intr.on ≡ false
  pub valid : is_thread k.current k ≡ true
  pub running : (k.threads k.current).status ≡ ThreadStatus.running
  pub idle_valid : is_thread k.idle_thread k ≡ true
  pub threads_valid : All (λ t. is_thread t k ≡ true) k.ready_list
  pub sorted : IsSorted (less_priority k.threads) k.ready_list

-- The state with the running thread blocked, and then `next` or the idle thread on the CPU.
abbrev pub blocked : Kernel → Kernel
blocked k = set_thread k.current (blocks (k.threads k.current)) k

abbrev pub dispatched : Kernel → (next : Ptr) → List Ptr → Kernel
dispatched k next rest = record (set_thread next (started (k.threads next)) k) {
  ready_list = rest;
  current = next;
  thread_ticks = 0;
}

abbrev pub idled : Kernel → Kernel
idled k = record (set_thread k.idle_thread (runs (k.threads k.idle_thread)) k) {
  current = k.idle_thread;
  thread_ticks = 0;
}

-- The switch from the running thread of `k`, which is in `b` all but gone: to a ready thread that no
-- other outranks, or to the idle thread.
pub data Switched (k b : Kernel) (o : Outcome (Unit {0})) : Type 0 where
  to_next :
      (next : Ptr) (rest : List Ptr)
      → k.ready_list ≡ next ∷ rest
      → o ≡ ok tt (dispatched b next rest)
      → All (λ t. (k.threads t).priority ≤ℤ (k.threads next).priority) rest
      → Switched k b o
  to_idle : k.ready_list ≡ [] → o ≡ ok tt (idled b) → Switched k b o

module _ ⦃os : Platform⦄ where
  pub schedule-idle :
      (k : Kernel)
      → k.thread_mlfqs ≡ false
      → k.intr.on ≡ false
      → is_running (k.threads k.current).status ≡ false
      → is_dying (k.threads k.current).status ≡ false
      → k.ready_list ≡ []
      → is_thread k.idle_thread k ≡ true
      → schedule k
        ≡ ok tt (record k {
          threads = update k.threads k.idle_thread (runs (k.threads k.idle_thread));
          current = k.idle_thread;
          thread_ticks = 0;
        })
  unfolding schedule
  schedule-idle k mode off stopped alive none valid = ground (arith, os.list_empty_lem k.ready_list)

  block_to_next :
      (k : Kernel) (next : Ptr) (rest : List Ptr)
      → CanBlock k
      → k.ready_list ≡ next ∷ rest
      → is_thread next k ≡ true
      → thread_block k ≡ ok tt (dispatched (blocked k) next rest)
  unfolding thread_block is_thread
  block_to_next k next rest c e v = ground (arith, schedule_run (blocked k) next rest)

  block_to_idle :
      (k : Kernel) → CanBlock k → k.ready_list ≡ [] → thread_block k ≡ ok tt (idled (blocked k))
  unfolding thread_block is_thread
  block_to_idle k c e = ground (arith, schedule-idle (blocked k))

  -- A running thread that blocks in the priority scheduler, outside a handler, with interrupts off
  -- and the ready list in order: the switch is made, to a ready thread that no other one outranks,
  -- which leaves the ready list, or to the idle thread if none is ready.
  pub thread_block_lem : (k : Kernel) → CanBlock k → Switched k (blocked k) (thread_block k)
  unfolding is_thread
  thread_block_lem k c = go k.ready_list refl
    where
      go : (l : List Ptr) → k.ready_list ≡ l → Switched k (blocked k) (thread_block k)
      go [] e = to_idle e (block_to_idle k c e)
      go (next ∷ rest) e =
          to_next next rest e (block_to_next k next rest c e (rw e at c.threads_valid).0)
            (front_highest k.threads next rest (rw e at c.sorted))
