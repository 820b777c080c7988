-- ===== src/Scheduler/Refinement.antt =====
-- The ready list, kept in order, implements the scheduler of Scheduler.Abstract.
use os_pintos.Base.{
  ◌≡◌, refl, sym, ap, subst, fun_ext, ◌∙◌, inl, inr, true, false, some, List, ◌∷◌, All, arith,
}
use mathlib.Core.List.{Perm}
use os_pintos.Base.Int.{ℤ, ◌≤ℤ◌}
use os_pintos.Base.Sorted.{IsSorted}
use os_pintos.Base.Bag.{bag_of, put, occurrences-All, bag_of-Perm, put-bag_of}
use os_pintos.Platform.{Platform}
use os_pintos.Kernel.{Ptr, ThreadStatus, Kernel, set_thread}
use os_pintos.Current.{is_thread}
use os_pintos.Scheduler.{less_priority}
use os_pintos.Scheduler.Ready.{made_ready, inserted, thread_unblock_lem}
use os_pintos.Scheduler.Yield.{CanYield, after_yield, switched, thread_yield_lem, first_of_IsSorted}
use os_pintos.Scheduler.Block.{CanBlock, Switched, blocked, dispatched, idled, thread_block_lem}
use os_pintos.Scheduler.Abstract.{view, Operation, Does, IsHighest, perform, state_of}

-- What `thread_unblock` needs: a blocked thread whose `elem` is free.
pub record CanUnblock (t : Ptr) (k : Kernel) : Type 0 where
  pub mode : k.thread_mlfqs ≡ false
  pub valid : is_thread t k ≡ true
  pub asleep : (k.threads t).status ≡ ThreadStatus.blocked
  pub free : (k.threads t).elem_linked ≡ false
  pub sorted : IsSorted (less_priority k.threads) k.ready_list

IsHighest-All :
    (priority : Ptr → ℤ) (t : Ptr) (l : List Ptr)
    → All (λ u. priority u ≤ℤ priority t) l
    → IsHighest priority t (bag_of l)
IsHighest-All priority t l h u n = occurrences-All (λ u. priority u ≤ℤ priority t) l u h n

put_of_Perm :
    (x : Ptr) (xs : List Ptr) (y : Ptr) (ys : List Ptr)
    → Perm (x ∷ xs) (y ∷ ys)
    → put x (bag_of xs) ≡ put y (bag_of ys)
put_of_Perm x xs y ys h = put-bag_of x xs ∙ bag_of-Perm (x ∷ xs) (y ∷ ys) h ∙ sym (put-bag_of y ys)

-- The operation `op` from `k` to some state as its specification says, which keeps the ready list in
-- order and all priorities.
pub record Refines ⦃os : Platform⦄ (op : Operation) (k : Kernel) : Type 0 where
  pub after : Kernel
  pub run : perform op k ≡ some after
  pub does : Does (λ t. (k.threads t).priority) k.idle_thread op (view k) (view after)
  pub sorted : IsSorted (less_priority after.threads) after.ready_list
  pub same : (t : Ptr) → (after.threads t).priority ≡ (k.threads t).priority

module _ ⦃os : Platform⦄ where
  abbrev pub CanDo : Operation → Kernel → Type 0
  CanDo (Operation.unblock t) k = CanUnblock t k
  CanDo Operation.yield k = CanYield k
  CanDo Operation.block k = CanBlock k

  unblock-Refines : (t : Ptr) (k : Kernel) → CanUnblock t k → Refines (Operation.unblock t) k
  unblock-Refines t k c =
      let (run, sorted, items) = thread_unblock_lem t k c.mode c.valid c.asleep c.free c.sorted in
      record {
        after = record (set_thread t (made_ready (k.threads t)) k) { ready_list = inserted k t };
        run = ap state_of run;
        does = (refl, bag_of-Perm _ _ items ∙ sym (put-bag_of t k.ready_list));
        sorted = sorted;
        same = λ u. ground arith;
      }

  yield-Refines : (k : Kernel) → CanYield k → Refines Operation.yield k
  yield-Refines k c =
      let (next, rest, run, (highest, sorted, running, same), items) = thread_yield_lem k c in
      let p = λ (t : Ptr). (k.threads t).priority in
      let s' = switched k.threads k.current next in
      let highest' : All (λ t. p t ≤ℤ p next) rest =
        subst (λ q. All (λ t. q t ≤ℤ q next) rest) (fun_ext same) highest in
      record {
        after = after_yield k next rest;
        run = ap state_of run;
        does = (
          put_of_Perm next rest k.current k.ready_list items,
          IsHighest-All p next rest highest',
        );
        sorted = sorted;
        same = same;
      }

  block-Refines : (k : Kernel) → CanBlock k → Refines Operation.block k
  block-Refines k c = elim (thread_block_lem k c) [
    | Switched.to_next next rest e run highest ↦
        let s' = (dispatched (blocked k) next rest).threads in
        let same : (t : Ptr) → (s' t).priority ≡ (k.threads t).priority = λ t. ground arith in
        record {
          after = dispatched (blocked k) next rest;
          run = ap state_of run;
          does = inl (
            put-bag_of next rest ∙ ap bag_of (sym e),
            IsHighest-All (λ t. (k.threads t).priority) next rest highest,
          );
          sorted = (first_of_IsSorted k.threads s' next rest same (rw e at c.sorted)).1;
          same = same;
        }
    | Switched.to_idle e run ↦ record {
      after = idled (blocked k);
      run = ap state_of run;
      does = inr (ap bag_of e, (refl, ap bag_of e));
      sorted = rw e tt;
      same = λ t. ground arith;
    }
  ]

  -- In the priority scheduler, with the ready list in order and the threads as each operation needs
  -- them, unblocking a thread, yielding and blocking are carried out as the abstract scheduler says:
  -- by what they do to the CPU and to the bag of the ready threads. They leave the ready list in order
  -- and all priorities as they were.
  pub perform-Refines : (op : Operation) (k : Kernel) → CanDo op k → Refines op k
  perform-Refines (Operation.unblock t) k c = unblock-Refines t k c
  perform-Refines Operation.yield k c = yield-Refines k c
  perform-Refines Operation.block k c = block-Refines k c
