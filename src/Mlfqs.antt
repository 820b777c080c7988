-- ===== src/Mlfqs.antt =====
-- threads/thread.c: the multi-level feedback queues, their priorities and averages.
pub mod Averages
pub mod Queues
pub mod Level
pub mod Reorganize
pub mod Everyone
pub mod Priority
use os_pintos.Base.{
  ℕ, zero, suc, ◌+◌, ◌-◌, Bool, true, false, not, ◌&&◌, Option, none, some, List, [], ◌∷◌, ◌++◌,
  ◌==◌, leb, if◌then◌else◌, length,
}
use os_pintos.Base.Int.{ℤ, pos, negsuc, ◌+ℤ◌, ◌-ℤ◌, ◌*ℤ◌, ltb_ℤ, wrap32}
use os_pintos.FixedPoint.{
  int_to_fp, fp_to_int, fp_to_int_nearest, fp_add, fp_add_int, fp_mul, fp_mul_int, fp_div,
  fp_div_int,
}
use os_pintos.Platform.{Platform}
use os_pintos.Kernel.{
  Ptr, Thread, Kernel, pri_min, pri_max, set_queue, M, ◌>>=◌, ◌>>◌, gets, modify, require, or_trap,
  pure, skip,
}
use os_pintos.Elem.{push_back_elem, pop_elem}
use os_pintos.Current.{thread_current, modify_thread, thread_foreach}

-- PRI_MAX - PRI_MIN + 1, the length of `mlfqs_list`.
abbrev pub queue_count : ℕ
queue_count = 64

-- The loop of `mlfqs_init`, with `rounds` left from `i` on.
unfoldable pub mlfqs_init_from : ℕ → ℕ → M (Unit {0})
mlfqs_init_from zero i = skip
mlfqs_init_from (suc rounds) i = do modify (set_queue i []); mlfqs_init_from rounds (i + 1)

unfoldable pub mlfqs_init : M (Unit {0})
unfolding mlfqs_init_from
mlfqs_init = do mlfqs_init_from queue_count pri_min; modify (λ k. record k { load_avg = pos 0 })

-- A subscript of `mlfqs_list` that is in bounds.
abbrev pub subscript : ℤ → Option ℕ
subscript (pos n) = if leb n pri_max then some n else none
subscript (negsuc n) = none

-- Brings `new_priority` into the range of priorities.
unfoldable pub clamp_priority : ℤ → ℤ
clamp_priority new_priority =
    if ltb_ℤ (pos pri_max) new_priority
    then pos pri_max
    else if ltb_ℤ new_priority (pos pri_min)
    then pos pri_min
    else new_priority

unfoldable pub mlfqs_update_priority : Ptr → M (Unit {0})
unfolding clamp_priority fp_to_int fp_div_int
mlfqs_update_priority t = do
  idle ← gets (λ k. k.idle_thread)
  th ← gets (λ k. k.threads t)
  if t == idle then skip else do
    quarter ← or_trap (fp_div_int th.recent_cpu (pos 4))
    let middle = fp_to_int quarter
    let new_priority = wrap32 (wrap32 (pos pri_max -ℤ middle) -ℤ wrap32 (th.nice *ℤ pos 2))
    modify_thread t (λ r. record r { priority = clamp_priority new_priority })

-- recent_cpu = 2 * load_avg / (2 * load_avg + 1) * recent_cpu + nice; the division traps at 0.
unfoldable pub decay : (load_avg recent_cpu nice : ℤ) → Option ℤ
unfolding fp_mul_int fp_add_int fp_mul fp_div
decay load_avg recent_cpu nice =
    let two_load = fp_mul_int load_avg (pos 2) in
    let denom = fp_add_int two_load (pos 1) in
    elim (fp_div two_load denom) [
      | none ↦ none
      | some coef ↦ some (fp_add_int (fp_mul coef recent_cpu) nice)
    ]

unfoldable pub mlfqs_update_recent_cpu : Ptr → M (Unit {0})
unfolding decay
mlfqs_update_recent_cpu t = do
  idle ← gets (λ k. k.idle_thread)
  th ← gets (λ k. k.threads t)
  load ← gets (λ k. k.load_avg)
  if t == idle then skip else do
    new_cpu ← or_trap (decay load th.recent_cpu th.nice)
    modify_thread t (λ r. record r { recent_cpu = new_cpu })

module _ ⦃os : Platform⦄ where
  unfoldable pub mlfqs_insert : Ptr → M (Unit {0})
  mlfqs_insert t = do
    th ← gets (λ k. k.threads t)
    i ← or_trap (subscript th.priority)
    queue ← push_back_elem (← gets (λ k. k.mlfqs_list i)) t
    modify (set_queue i queue)

  -- The loop of `mlfqs_next_thread_to_run`: the queues below `i`, from the highest.
  unfoldable pub next_below : ℕ → M Ptr
  next_below zero k = gets (λ s. s.idle_thread) k
  next_below (suc i) k =
      if not (os.list_empty (k.mlfqs_list i))
      then (do
        popped ← pop_elem (← gets (λ s. s.mlfqs_list i))
        modify (set_queue i popped.1)
        pure popped.0)
          k
      else next_below i k

  unfoldable pub mlfqs_next_thread_to_run : M Ptr
  unfolding next_below
  mlfqs_next_thread_to_run = next_below queue_count

  -- The loop of `mlfqs_ready_threads`: the sizes of the queues below `i`.
  unfoldable pub ready_below : ℕ → Kernel → ℕ
  ready_below zero k = 0
  ready_below (suc i) k = ready_below i k + os.list_size (k.mlfqs_list i)

  unfoldable pub mlfqs_ready_threads : M ℤ
  unfolding ready_below thread_current
  mlfqs_ready_threads = do
    counter ← gets (ready_below queue_count)
    t ← thread_current
    idle ← gets (λ k. k.idle_thread)
    pure (if t == idle then pos counter else pos (counter + 1))

  unfoldable pub mlfqs_update_load_avg : M (Unit {0})
  unfolding mlfqs_ready_threads int_to_fp fp_div_int fp_mul fp_mul_int fp_add
  mlfqs_update_load_avg = do
    ready_threads ← mlfqs_ready_threads
    coef ← or_trap (fp_div_int (int_to_fp (pos 59)) (pos 60))
    a ← gets (λ k. fp_mul coef k.load_avg)
    sec_coef ← or_trap (fp_div_int (int_to_fp (pos 1)) (pos 60))
    let b = fp_mul_int sec_coef ready_threads
    modify (λ k. record k { load_avg = fp_add a b })

  unfoldable pub mlfqs_update_rcpu_la : M (Unit {0})
  unfolding thread_foreach mlfqs_update_recent_cpu mlfqs_update_load_avg
  mlfqs_update_rcpu_la = do thread_foreach mlfqs_update_recent_cpu; mlfqs_update_load_avg

  -- The inner loop of `mlfqs_reorganize_queues`: the rest of queue `i` goes to the end of `temp`.
  unfoldable pub drain : ℕ → ℕ → List Ptr → M (List Ptr)
  drain zero i temp k = pure temp k
  drain (suc fuel) i temp k =
      if not (os.list_empty (k.mlfqs_list i))
      then (do
        popped ← pop_elem (← gets (λ s. s.mlfqs_list i))
        modify (set_queue i popped.1)
        temp' ← push_back_elem temp popped.0
        drain fuel i temp')
          k
      else pure temp k

  -- The outer loop, with `rounds` left from queue `i` on. A queue takes a round for each element.
  unfoldable pub drain_from : ℕ → ℕ → List Ptr → M (List Ptr)
  unfolding drain
  drain_from zero i temp = pure temp
  drain_from (suc rounds) i temp = do
    temp' ← drain (← gets (λ k. length (k.mlfqs_list i))) i temp
    drain_from rounds (i + 1) temp'

  -- The loop that puts the threads back, a round for each.
  unfoldable pub refill : ℕ → List Ptr → M (Unit {0})
  unfolding mlfqs_insert
  refill zero temp k = skip k
  refill (suc fuel) temp k =
      if not (os.list_empty temp)
      then (do popped ← pop_elem temp; mlfqs_insert popped.0; refill fuel popped.1) k
      else skip k

  unfoldable pub mlfqs_reorganize_queues : M (Unit {0})
  unfolding drain_from refill
  mlfqs_reorganize_queues = do temp ← drain_from queue_count pri_min []; refill (length temp) temp

  unfoldable pub mlfqs_update_priority_all : M (Unit {0})
  unfolding thread_foreach mlfqs_update_priority mlfqs_reorganize_queues
  mlfqs_update_priority_all = do thread_foreach mlfqs_update_priority; mlfqs_reorganize_queues

  -- The search of `mlfqs_check_preemption`: the highest queue below `i` that holds a thread, or -1.
  unfoldable pub highest_below : ℕ → Kernel → ℤ
  highest_below zero k = negsuc 0
  highest_below (suc i) k =
      if not (os.list_empty (k.mlfqs_list i)) then pos i else highest_below i k

unfoldable pub thread_get_load_avg : M ℤ
unfolding fp_to_int_nearest fp_mul_int
thread_get_load_avg = gets (λ k. fp_to_int_nearest (fp_mul_int k.load_avg (pos 100)))

unfoldable pub thread_get_recent_cpu : M ℤ
unfolding thread_current fp_to_int_nearest fp_mul_int
thread_get_recent_cpu = do
  cur ← thread_current
  gets (λ k. fp_to_int_nearest (fp_mul_int (k.threads cur).recent_cpu (pos 100)))
