-- ===== src/Call.antt =====
-- What a thread has still to do. A C function that may switch threads in its middle is cut there:
-- its first part runs at once, and what follows the switch is a call of its own, which stays on the
-- stack of the thread until the thread runs again.
use os_pintos.Base.{ℕ, Bool, List}
use os_pintos.Base.Int.{ℤ}
use os_pintos.Kernel.{Ptr}

pub data Call : Type 0 where
  thread_yield : Call
  -- intr_set_level (old_level), the last act of many functions
  set_level : (old_level : Bool) → Call
  check_preemption : Call
  mlfqs_check_preemption : Call
  thread_yield_if_necessary : Call
  thread_set_priority : ℤ → Call
  thread_set_nice : ℤ → Call
  thread_exit : Call
  sema_down : (sema : Ptr) → Call
  -- the head of the loop of `sema_down`
  sema_down_loop : (sema : Ptr) → (old_level : Bool) → Call
  sema_up : (sema : Ptr) → Call
  lock_acquire : (lock : Ptr) → Call
  -- `lock_acquire` behind its `sema_down`: where the lock was free, and where it was held
  lock_taken : (lock cur : Ptr) → (old_level : Bool) → Call
  lock_granted : (lock cur : Ptr) → Call
  lock_release : (lock : Ptr) → Call
  -- `lock_release` behind its `sema_up`
  lock_released : (cur : Ptr) → (old_level : Bool) → Call
  cond_wait : (cond lock waiter : Ptr) → Call
  cond_signal : (cond lock : Ptr) → Call
  cond_broadcast : (cond lock : Ptr) → Call
  -- The last argument is what `palloc_get_page` returns. The next two are `thread_create` within its
  -- `allocate_tid`, once the lock is held, and behind it.
  thread_create : (name : List ℕ) → (priority : ℤ) → (function aux page : Ptr) → Call
  tid_taken : (t function aux : Ptr) → Call
  tid_given : (t : Ptr) → (tid : ℤ) → (function aux : Ptr) → Call
  thread_init : Call
  -- The same parts of `thread_init`.
  main_tid_taken : Call
  main_tid_given : (tid : ℤ) → Call
  thread_start : (idle_started page : Ptr) → Call
  kernel_thread : (function aux : Ptr) → Call
  idle : (idle_started : Ptr) → Call
  -- the head of the loop of `idle`
  idle_loop : Call
  timer_sleep : (ticks : ℤ) → Call
  timer_msleep timer_usleep timer_nsleep timer_mdelay timer_udelay timer_ndelay : ℤ → Call
  -- the head of the loop of `busy_wait`
  busy_wait : (loops : ℤ) → Call
  -- the head of the loop of `timer_wakeup`
  timer_wakeup_loop : (now : ℤ) → Call
  timer_interrupt : Call
  -- `timer_interrupt` behind its `timer_wakeup`: every fourth tick, and every second
  timer_priorities : Call
  timer_averages : Call
  -- the return from the handler, in interrupt.c
  interrupt_return : Call
