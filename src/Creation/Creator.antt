-- ===== src/Creation/Creator.antt =====
-- What `thread_create` needs of the thread that calls it, and the lock for tids within it.
use os_pintos.Base.{ℕ, ◌≡◌, ◌≢◌, sym, ap, ◌∙◌, false, arith, List, [], ◌∷◌, All, has}
use os_pintos.Base.Int.{ℤ, ◌≤ℤ◌}
use os_pintos.Base.Sorted.{IsSorted}
use os_pintos.Platform.{Platform}
use os_pintos.Kernel.{Ptr, null, Thread, Kernel, update}
use os_pintos.Current.{is_thread}
use os_pintos.Mlfqs.Queues.{IsCurrent}
use os_pintos.Scheduler.{less_priority}
use os_pintos.Locks.Free.{CanTake, closed}
use os_pintos.Creation.Frames.{FramesFit}
use os_pintos.Creation.Threads.{conceived, unborn}
use os_pintos.Creation.FirstTid.{refresh_priority_same}

-- A thread that can take the lock for tids, holds no lock, and has its base priority; and the page
-- `t`, which is neither its own nor that of a ready thread, while the ready list is in order.
pub record CanCreate ⦃os : Platform⦄ (t : Ptr) (v : ℕ) (k : Kernel) : Type 0 where
  pub lock : CanTake k.tid_lock v k
  pub no_locks : (k.threads k.current).locks_held ≡ []
  pub base : (k.threads k.current).base_priority ≡ (k.threads k.current).priority
  pub page : t ≢ null
  pub other : t ≢ k.current
  pub out : has t k.ready_list ≡ false
  pub sorted : IsSorted (less_priority k.threads) k.ready_list
  pub fit : FramesFit t

highest-update :
    (s : Ptr → Thread) (t c : Ptr) (th : Thread) (l : List Ptr)
    → t ≢ c
    → has t l ≡ false
    → All (λ u. (s u).priority ≤ℤ (s c).priority) l
    → All (λ u. (update s t th u).priority ≤ℤ (update s t th c).priority) l
highest-update s t c th [] other out h = tt
highest-update s t c th (u ∷ l) other out h =
    (ground (arith, h.0), highest-update s t c th l other (ground arith) h.1)

unchanged : (s : Ptr → Thread) (t c : Ptr) (th : Thread) → t ≢ c → update s t th c ≡ s c
unchanged s t c th other = ground arith

IsCurrent-conceived :
    ⦃os : Platform⦄ (name : List ℕ) (p : ℤ) (t : Ptr) (next : ℤ) (k : Kernel)
    → t ≢ k.current
    → IsCurrent k
    → IsCurrent (conceived name p t next k)
unfolding is_thread
IsCurrent-conceived name p t next k other cur = (ground (arith, cur), ground (arith, cur))

some_current : (k : Kernel) → IsCurrent k → k.current ≢ null
unfolding is_thread
some_current k cur e = ground (arith, cur)

module _ ⦃os : Platform⦄ where
  -- The lock can be taken once the new thread is there.
  pub conceived-CanTake :
      (name : List ℕ) (p : ℤ) (t : Ptr) (next : ℤ) (v : ℕ) (k : Kernel)
      → CanCreate t v k
      → CanTake k.tid_lock v (conceived name p t next k)
  conceived-CanTake name p t next v k c =
      let k' = conceived name p t next k in
      let same = unchanged k.threads t k.current (unborn t name p) c.other in
      record {
        mode = c.lock.mode;
        normal = c.lock.normal;
        running = IsCurrent-conceived name p t next k c.other c.lock.running;
        highest =
            highest-update k.threads t k.current (unborn t name p) k.ready_list c.other c.out
              c.lock.highest;
        fresh =
            refresh_priority_same k.current (closed k') (some_current k c.lock.running)
              (ap (λ th. th.base_priority) same ∙ c.base ∙ sym (ap (λ th. th.priority) same))
              (ap (λ th. th.locks_held) same ∙ c.no_locks);
        some_lock = c.lock.some_lock;
        some_semaphore = c.lock.some_semaphore;
        free = c.lock.free;
        unlinked = c.lock.unlinked;
        alone = c.lock.alone;
        new = ap (λ th. has k.tid_lock th.locks_held) same ∙ c.lock.new;
        value = c.lock.value;
        small = c.lock.small;
        no_sleeper = c.lock.no_sleeper;
      }
