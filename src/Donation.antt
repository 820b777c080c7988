-- ===== src/Donation.antt =====
-- threads/thread.c: priority donation along the locks that threads wait for.
pub mod Highest
pub mod Refresh
pub mod Raised
pub mod Chain
use os_pintos.Base.{ℕ, zero, suc, Bool, not, ◌&&◌, List, [], ◌∷◌, ◌==◌, if◌then◌else◌}
use os_pintos.Base.Int.{ℤ, ltb_ℤ}
use os_pintos.Platform.{Platform}
use os_pintos.Kernel.{
  Ptr, null, Thread, Lock, Kernel, Outcome, panic, undefined, M, ◌>>=◌, ◌>>◌, gets, assert, pure,
  skip,
}
use os_pintos.Current.{modify_thread}

-- `donate_priority`, with `depth` nested calls at most: its recursion follows the holders of the
-- locks waited for. `undefined` stands for a stack that has run out.
unfoldable pub donate_priority : (depth : ℕ) → (donor receiver : Ptr) → M (Unit {0})
donate_priority zero donor receiver k = undefined
donate_priority (suc depth) donor receiver k =
    let nested = donate_priority depth receiver in
    (do
      assert (not (donor == null))
      assert (not (receiver == null))
      priority ← gets (λ s. (s.threads donor).priority)
      own ← gets (λ s. (s.threads receiver).priority)
      if ltb_ℤ own priority
          then (do
            modify_thread receiver (λ r. record r { priority = priority })
            lock ← gets (λ s. (s.threads receiver).waiting_lock)
            holder ← gets (λ s. (s.locks lock).holder)
            if not (lock == null) && not (holder == null) then nested holder else skip)
          else skip)
      k

-- The inner loop of `refresh_priority`, over the waiters from `w` on.
unfoldable pub raise_to_waiters : Ptr → List Ptr → M (Unit {0})
raise_to_waiters t [] = skip
raise_to_waiters t (waiter ∷ w) = do
  priority ← gets (λ k. (k.threads waiter).priority)
  modify_thread t (λ r. if ltb_ℤ r.priority priority then record r { priority = priority } else r)
  raise_to_waiters t w

module _ ⦃os : Platform⦄ where
  -- The outer loop, over the held locks from `e` on.
  unfoldable pub raise_to_locks : Ptr → List Ptr → M (Unit {0})
  unfolding raise_to_waiters
  raise_to_locks t [] = skip
  raise_to_locks t (lock ∷ e) = do
    waiters ← gets (λ k. (k.locks lock).waiters)
    (if not (os.list_empty waiters) then raise_to_waiters t waiters else skip)
    raise_to_locks t e

  unfoldable pub refresh_priority : Ptr → M (Unit {0})
  unfolding raise_to_locks
  refresh_priority t = do
    assert (not (t == null))
    modify_thread t (λ r. record r { priority = r.base_priority })
    raise_to_locks t (← gets (λ k. (k.threads t).locks_held))
