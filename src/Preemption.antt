-- ===== src/Preemption.antt =====
-- threads/thread.c: the functions that yield the CPU to a thread of higher priority. Each returns
-- the calls that are left to make.
pub mod Outranks
pub mod Queued
pub mod Nice
use os_pintos.Base.{Bool, List, [], ◌∷◌, if◌then◌else◌}
use os_pintos.Base.Int.{ℤ, ltb_ℤ}
use os_pintos.Platform.{Platform}
use os_pintos.Kernel.{Kernel, nice_min, nice_max, M, ◌>>=◌, ◌>>◌, gets, pure}
use os_pintos.Call.{Call}
use os_pintos.Current.{thread_current, modify_thread}
use os_pintos.Mlfqs.{queue_count, highest_below, mlfqs_update_priority}
use os_pintos.Scheduler.{intr_yield_on_return}

-- The two tests on NEW_NICE.
abbrev pub clamp_nice : ℤ → ℤ
clamp_nice new_nice =
    let low = if ltb_ℤ nice_max new_nice then nice_max else new_nice in
    if ltb_ℤ low nice_min then nice_min else low

module _ ⦃os : Platform⦄ where
  -- thread_yield (), or intr_yield_on_return () in a handler
  abbrev pub yield_now : M (List Call)
  yield_now = do
    context ← gets (λ k. k.intr.context)
    if context then (intr_yield_on_return >> pure []) else pure (Call.thread_yield ∷ [])

  -- Is the front of the ready list of higher priority than the running thread?
  unfoldable pub outranked : Kernel → Bool
  outranked k =
      ltb_ℤ (k.threads k.current).priority (k.threads (os.list_front k.ready_list)).priority

  unfoldable pub check_preemption : M (List Call)
  unfolding thread_current outranked
  check_preemption = do
    empty ← gets (λ k. os.list_empty k.ready_list)
    if empty
        then pure []
        else do cur ← thread_current; higher ← gets outranked; if higher then yield_now else pure []

  unfoldable pub thread_yield_if_necessary : M (List Call)
  unfolding thread_current outranked
  thread_yield_if_necessary = do
    empty ← gets (λ k. os.list_empty k.ready_list)
    if empty then pure [] else do
      cur ← thread_current
      higher ← gets outranked
      pure (if higher then Call.thread_yield ∷ [] else [])

  unfoldable pub mlfqs_check_preemption : M (List Call)
  unfolding thread_current highest_below
  mlfqs_check_preemption = do
    highest_priority ← gets (highest_below queue_count)
    cur ← thread_current
    own ← gets (λ k. (k.threads cur).priority)
    if ltb_ℤ own highest_priority then yield_now else pure []

  unfoldable pub thread_set_priority : ℤ → M (List Call)
  unfolding thread_current
  thread_set_priority new_priority = do
    cur ← thread_current
    modify_thread cur (λ r. record r { priority = new_priority })
    pure (Call.check_preemption ∷ [])

  unfoldable pub thread_set_nice : ℤ → M (List Call)
  unfolding thread_current mlfqs_update_priority
  thread_set_nice new_nice = do
    cur ← thread_current
    modify_thread cur (λ r. record r { nice = clamp_nice new_nice })
    mlfqs_update_priority cur
    pure (Call.mlfqs_check_preemption ∷ [])
