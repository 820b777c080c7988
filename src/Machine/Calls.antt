-- ===== src/Machine/Calls.antt =====
-- The functions of threads/thread.c that leave the CPU where it is, one lemma for each.
use os_pintos.Base.{ℕ, zero, suc, ◌+◌, ◌&&◌, not, ◌==◌, List, [], ◌∷◌, if◌then◌else◌}
use os_pintos.Base.Int.{ltb_ℤ}
use os_pintos.Platform.{Platform}
use os_pintos.Kernel.{Ptr, M, pure, skip, gets, modify, assert, null, set_queue, ◌>>=◌, ◌>>◌}
use os_pintos.Elem.{pop_elem, push_back_elem}
use os_pintos.Machine.Quiet.{
  Quiet, Quiet-bind, Quiet-if, Quiet-test, Quiet-skip, Quiet-pure, Quiet-gets, Same-refl,
  Quiet-write, quiet_rules,
}
use os_pintos.Current.{modify_thread, thread_current, running_thread, foreach_from, thread_foreach}
use os_pintos.Mlfqs.{
  queue_count, mlfqs_init_from, mlfqs_init, mlfqs_insert, mlfqs_update_priority,
  mlfqs_update_recent_cpu, next_below, mlfqs_next_thread_to_run, mlfqs_ready_threads,
  mlfqs_update_load_avg, mlfqs_update_rcpu_la, drain, drain_from, refill, mlfqs_reorganize_queues,
  mlfqs_update_priority_all,
}
use os_pintos.Scheduler.{insert_ready, next_thread_to_run}
use os_pintos.Donation.{donate_priority, raise_to_waiters, raise_to_locks, refresh_priority}

pub running_thread-Quiet : Quiet running_thread
unfolding running_thread
running_thread-Quiet = search quiet_rules depth 20

pub thread_current-Quiet : Quiet thread_current
unfolding thread_current
thread_current-Quiet = search quiet_rules depth 20

pub ruleset current_rules = (quiet_rules, running_thread-Quiet, thread_current-Quiet)

foreach_from-Quiet :
    (e : List Ptr) (func : Ptr → M (Unit {0}))
    → ((t : Ptr) → Quiet (func t))
    → Quiet (foreach_from e func)
unfolding foreach_from
foreach_from-Quiet [] func q = Quiet-skip
foreach_from-Quiet (t ∷ e) func q = Quiet-bind _ _ (q t) (λ u. foreach_from-Quiet e func q)

pub thread_foreach-Quiet :
    (func : Ptr → M (Unit {0})) → ((t : Ptr) → Quiet (func t)) → Quiet (thread_foreach func)
unfolding thread_foreach
thread_foreach-Quiet func q = search (current_rules, foreach_from-Quiet) depth 20

mlfqs_init_from-Quiet : (rounds i : ℕ) → Quiet (mlfqs_init_from rounds i)
unfolding mlfqs_init_from
mlfqs_init_from-Quiet zero i = Quiet-skip
mlfqs_init_from-Quiet (suc rounds) i = search (quiet_rules, mlfqs_init_from-Quiet rounds) depth 20

pub mlfqs_init-Quiet : Quiet mlfqs_init
unfolding mlfqs_init
mlfqs_init-Quiet = search (quiet_rules, mlfqs_init_from-Quiet) depth 20

pub mlfqs_update_priority-Quiet : (t : Ptr) → Quiet (mlfqs_update_priority t)
unfolding mlfqs_update_priority
mlfqs_update_priority-Quiet t = search quiet_rules depth 20

mlfqs_update_recent_cpu-Quiet : (t : Ptr) → Quiet (mlfqs_update_recent_cpu t)
unfolding mlfqs_update_recent_cpu
mlfqs_update_recent_cpu-Quiet t = search quiet_rules depth 20

raise_block :
    (t waiter : Ptr) (rest : M (Unit {0}))
    → Quiet rest
    → Quiet (do
      priority ← gets (λ k. (k.threads waiter).priority)
      modify_thread t
          (λ r. if ltb_ℤ r.priority priority then record r { priority = priority } else r)
      rest)
raise_block t waiter rest q = search quiet_rules depth 20

raise_to_waiters-Quiet : (t : Ptr) (w : List Ptr) → Quiet (raise_to_waiters t w)
unfolding raise_to_waiters
raise_to_waiters-Quiet t [] = Quiet-skip
raise_to_waiters-Quiet t (waiter ∷ w) =
    raise_block t waiter (raise_to_waiters t w) (raise_to_waiters-Quiet t w)

donate_block :
    (donor receiver : Ptr) (nested : Ptr → M (Unit {0}))
    → ((holder : Ptr) → Quiet (nested holder))
    → Quiet (do
      assert (not (donor == null))
      assert (not (receiver == null))
      priority ← gets (λ s. (s.threads donor).priority)
      own ← gets (λ s. (s.threads receiver).priority)
      if ltb_ℤ own priority
          then (do
            modify_thread receiver (λ r. record r { priority = priority })
            lock ← gets (λ s. (s.threads receiver).waiting_lock)
            holder ← gets (λ s. (s.locks lock).holder)
            if not (lock == null) && not (holder == null) then nested holder else skip)
          else skip)
donate_block donor receiver nested q = search quiet_rules depth 20

pub donate_priority-Quiet :
    (depth : ℕ) (donor receiver : Ptr) → Quiet (donate_priority depth donor receiver)
unfolding donate_priority
donate_priority-Quiet zero donor receiver = record { at = λ k. tt }
donate_priority-Quiet (suc depth) donor receiver = record {
  at =
      (donate_block donor receiver (donate_priority depth receiver)
        (donate_priority-Quiet depth receiver)).at;
}

module _ ⦃os : Platform⦄ where
  pub insert_ready-Quiet : (t : Ptr) → Quiet (insert_ready t)
  unfolding insert_ready
  insert_ready-Quiet t = search quiet_rules depth 20

  pub mlfqs_insert-Quiet : (t : Ptr) → Quiet (mlfqs_insert t)
  unfolding mlfqs_insert
  mlfqs_insert-Quiet t = search quiet_rules depth 20

  next_below-Quiet : (i : ℕ) → Quiet (next_below i)
  unfolding next_below
  next_below-Quiet zero = record { at = Same-refl }
  next_below-Quiet (suc i) =
      Quiet-test (λ k. not (os.list_empty (k.mlfqs_list i)))
        (do
          popped ← pop_elem (← gets (λ s. s.mlfqs_list i))
          modify (set_queue i popped.1)
          pure popped.0)
        (next_below i) (search quiet_rules depth 20) (next_below-Quiet i)

  pub mlfqs_next_thread_to_run-Quiet : Quiet mlfqs_next_thread_to_run
  unfolding mlfqs_next_thread_to_run
  mlfqs_next_thread_to_run-Quiet = next_below-Quiet queue_count

  drain-Quiet : (fuel i : ℕ) (temp : List Ptr) → Quiet (drain fuel i temp)
  unfolding drain
  drain-Quiet zero i temp = record { at = Same-refl }
  drain-Quiet (suc fuel) i temp =
      Quiet-test (λ k. not (os.list_empty (k.mlfqs_list i)))
        (do
          popped ← pop_elem (← gets (λ s. s.mlfqs_list i))
          modify (set_queue i popped.1)
          temp' ← push_back_elem temp popped.0
          drain fuel i temp')
        (pure temp) (search (quiet_rules, drain-Quiet fuel i) depth 20) (Quiet-pure temp)

  drain_from-Quiet : (rounds i : ℕ) (temp : List Ptr) → Quiet (drain_from rounds i temp)
  unfolding drain_from
  drain_from-Quiet zero i temp = Quiet-pure temp
  drain_from-Quiet (suc rounds) i temp =
      search (quiet_rules, drain-Quiet, drain_from-Quiet rounds (i + 1)) depth 20

  refill-Quiet : (fuel : ℕ) (temp : List Ptr) → Quiet (refill fuel temp)
  unfolding refill
  refill-Quiet zero temp = record { at = Same-refl }
  refill-Quiet (suc fuel) temp =
      Quiet-test (λ k. not (os.list_empty temp))
        (do popped ← pop_elem temp; mlfqs_insert popped.0; refill fuel popped.1) skip
        (search (quiet_rules, mlfqs_insert-Quiet, refill-Quiet fuel) depth 20) Quiet-skip

  mlfqs_reorganize_queues-Quiet : Quiet mlfqs_reorganize_queues
  unfolding mlfqs_reorganize_queues
  mlfqs_reorganize_queues-Quiet = search (quiet_rules, drain_from-Quiet, refill-Quiet) depth 20

  pub mlfqs_update_priority_all-Quiet : Quiet mlfqs_update_priority_all
  unfolding mlfqs_update_priority_all
  mlfqs_update_priority_all-Quiet =
      search
        (
          quiet_rules, thread_foreach-Quiet, mlfqs_update_priority-Quiet,
          mlfqs_reorganize_queues-Quiet,
        )
        depth 20

  locks_block :
      (t lock : Ptr) (rest : M (Unit {0}))
      → Quiet rest
      → Quiet (do
        waiters ← gets (λ k. (k.locks lock).waiters)
        (if not (os.list_empty waiters) then raise_to_waiters t waiters else skip)
        rest)
  locks_block t lock rest q = search (quiet_rules, raise_to_waiters-Quiet) depth 20

  raise_to_locks-Quiet : (t : Ptr) (e : List Ptr) → Quiet (raise_to_locks t e)
  unfolding raise_to_locks
  raise_to_locks-Quiet t [] = Quiet-skip
  raise_to_locks-Quiet t (lock ∷ e) =
      locks_block t lock (raise_to_locks t e) (raise_to_locks-Quiet t e)

  pub refresh_priority-Quiet : (t : Ptr) → Quiet (refresh_priority t)
  unfolding refresh_priority
  refresh_priority-Quiet t = search (quiet_rules, raise_to_locks-Quiet) depth 20

  pub next_thread_to_run-Quiet : Quiet next_thread_to_run
  unfolding next_thread_to_run
  next_thread_to_run-Quiet =
      Quiet-test (λ k. k.thread_mlfqs) mlfqs_next_thread_to_run
        (λ k.
          if os.list_empty k.ready_list
          then gets (λ s. s.idle_thread) k
          else (do
            popped ← pop_elem (← gets (λ s. s.ready_list))
            modify (λ s. record s { ready_list = popped.1 })
            pure popped.0)
              k)
        mlfqs_next_thread_to_run-Quiet
        (Quiet-test (λ k. os.list_empty k.ready_list) (gets (λ s. s.idle_thread))
          (do
            popped ← pop_elem (← gets (λ s. s.ready_list))
            modify (λ s. record s { ready_list = popped.1 })
            pure popped.0)
          (Quiet-gets _) (search quiet_rules depth 20))

  pub mlfqs_ready_threads-Quiet : Quiet mlfqs_ready_threads
  unfolding mlfqs_ready_threads
  mlfqs_ready_threads-Quiet = search current_rules depth 20

  mlfqs_update_load_avg-Quiet : Quiet mlfqs_update_load_avg
  unfolding mlfqs_update_load_avg
  mlfqs_update_load_avg-Quiet = search (current_rules, mlfqs_ready_threads-Quiet) depth 20

  pub mlfqs_update_rcpu_la-Quiet : Quiet mlfqs_update_rcpu_la
  unfolding mlfqs_update_rcpu_la
  mlfqs_update_rcpu_la-Quiet =
      search
        (
          quiet_rules, thread_foreach-Quiet, mlfqs_update_recent_cpu-Quiet,
          mlfqs_update_load_avg-Quiet,
        )
        depth 20
