-- ===== src/Creation.antt =====
-- threads/thread.c: the start of the threads, new threads, and the idle thread. `allocate_tid` takes a
-- lock, where the thread may have to wait, so its callers are cut there.
pub mod Frames
pub mod Threads
pub mod Init
pub mod FirstTid
pub mod Creator
pub mod Inherit
use os_pintos.Base.{
  ℕ, ◌+◌, ◌-◌, ◌%◌, ◌^◌, Bool, true, false, not, ◌&&◌, List, [], ◌∷◌, ◌++◌, ◌==◌, take,
  if◌then◌else◌,
}
use os_pintos.Base.Int.{ℤ, pos, leb_ℤ, ◌+ℤ◌, wrap32}
use os_pintos.Platform.{Platform}
use os_pintos.Kernel.{
  Ptr, null, Thread, ThreadStatus, KernelThreadFrame, Kernel, pri_min, pri_max, pri_default,
  nice_default, recent_cpu_default, thread_magic, pgsize, update, set_thread, M, ◌>>=◌, ◌>>◌, gets,
  modify, assert, pure, skip,
}
use os_pintos.Call.{Call}
use os_pintos.Current.{is_thread, running_thread, thread_current, modify_thread}
use os_pintos.Mlfqs.{mlfqs_init, mlfqs_update_priority}
use os_pintos.Scheduler.{intr_disable, intr_set_level, thread_unblock, thread_block}
use os_pintos.Synch.{sema_init}
use os_pintos.Locks.{lock_init}

-- The page of `t` after the memset and the assignments of `init_thread` to single members. A string
-- of `name` has up to 15 characters.
abbrev pub blank : (t : Ptr) → (name : List ℕ) → (priority : ℤ) → Thread
blank t name priority = record {
  wakeup_tick = pos 0;
  tid = pos 0;
  status = ThreadStatus.blocked;
  name = take 15 name;
  stack = (t + pgsize) % 2 ^ 32;
  priority = priority;
  base_priority = priority;
  effective_priority = pos 0;
  waiting_lock = null;
  locks_held = [];
  nice = pos 0;
  recent_cpu = pos 0;
  elem_linked = false;
  pagedir = null;
  magic = thread_magic;
}

unfoldable pub alloc_frame : Ptr → (size : ℕ) → M (Unit {0})
unfolding is_thread
alloc_frame t size = do
  assert (← gets (is_thread t))
  assert (size % 4 == 0)
  modify_thread t (λ r. record r { stack = (r.stack + 2 ^ 32 - size) % 2 ^ 32 })

-- `allocate_tid` between its lock_acquire and its lock_release.
unfoldable pub take_tid : M ℤ
take_tid = do
  tid ← gets (λ k. k.next_tid)
  modify (λ k. record k { next_tid = wrap32 (k.next_tid +ℤ pos 1) })
  pure tid

module _ ⦃os : Platform⦄ where
  unfoldable pub inherit : Ptr → M (Unit {0})
  unfolding thread_current mlfqs_update_priority
  inherit t = do
    initial ← gets (λ k. k.initial_thread)
    (if t == initial
        then modify_thread t
            (λ r. record r { nice = nice_default; recent_cpu = recent_cpu_default })
        else (do
          cur ← thread_current
          parent ← gets (λ k. k.threads cur)
          modify_thread t (λ r. record r { nice = parent.nice; recent_cpu = parent.recent_cpu })))
    mlfqs_update_priority t

  unfoldable pub init_thread : Ptr → List ℕ → ℤ → M (Unit {0})
  unfolding inherit
  init_thread t name priority = do
    assert (not (t == null))
    assert (leb_ℤ (pos pri_min) priority && leb_ℤ priority (pos pri_max))
    modify (set_thread t (blank t name priority))
    mlfqs ← gets (λ k. k.thread_mlfqs)
    (if mlfqs then inherit t else skip)
    old_level ← intr_disable
    modify (λ k. record k { all_list = os.list_push_back k.all_list t })
    intr_set_level old_level

  -- Without a page it fails, and leaves nothing to do.
  unfoldable pub thread_create : List ℕ → ℤ → (function aux page : Ptr) → M (List Call)
  unfolding init_thread
  thread_create name priority function aux t = do
    assert (not (function == null))
    if t == null then pure [] else do
      init_thread t name priority
      modify_thread t (λ r. record r { base_priority = priority; effective_priority = priority })
      lock ← gets (λ k. k.tid_lock)
      pure (Call.lock_acquire lock ∷ Call.tid_taken t function aux ∷ [])

  unfoldable pub tid_taken : (t function aux : Ptr) → M (List Call)
  unfolding take_tid
  tid_taken t function aux = do
    tid ← take_tid
    lock ← gets (λ k. k.tid_lock)
    pure (Call.lock_release lock ∷ Call.tid_given t tid function aux ∷ [])

  unfoldable pub tid_given : Ptr → ℤ → (function aux : Ptr) → M (List Call)
  unfolding alloc_frame thread_unblock
  tid_given t tid function aux = do
    modify_thread t (λ r. record r { tid = tid })
    alloc_frame t 12
    modify (λ k. record k {
      frames = update k.frames t (record { eip = null; function = function; aux = aux });
    })
    alloc_frame t os.switch_entry_frame
    modify (λ k. record k {
      entry_frames = update k.entry_frames t (record { eip = os.kernel_thread });
    })
    alloc_frame t os.switch_threads_frame
    modify (λ k. record k {
      switch_frames = update k.switch_frames t (record { eip = os.switch_entry; ebp = null });
    })
    thread_unblock t
    mlfqs ← gets (λ k. k.thread_mlfqs)
    pure ((if mlfqs then Call.mlfqs_check_preemption else Call.check_preemption) ∷ [])

  unfoldable pub thread_init : M (List Call)
  unfolding lock_init mlfqs_init running_thread init_thread
  thread_init = do
    assert (not (← gets (λ k. k.intr.on)))
    lock ← gets (λ k. k.tid_lock)
    lock_init lock
    modify (λ k. record k { ready_list = []; all_list = [] })
    mlfqs ← gets (λ k. k.thread_mlfqs)
    (if mlfqs then mlfqs_init else skip)
    t ← running_thread
    modify (λ k. record k { initial_thread = t })
    -- "main"
    init_thread t (109 ∷ 97 ∷ 105 ∷ 110 ∷ []) pri_default
    modify_thread t (λ r. record r { status = ThreadStatus.running })
    pure (Call.lock_acquire lock ∷ Call.main_tid_taken ∷ [])

  unfoldable pub main_tid_taken : M (List Call)
  unfolding take_tid
  main_tid_taken = do
    tid ← take_tid
    lock ← gets (λ k. k.tid_lock)
    pure (Call.lock_release lock ∷ Call.main_tid_given tid ∷ [])

  unfoldable pub main_tid_given : ℤ → M (List Call)
  main_tid_given tid = do
    t ← gets (λ k. k.initial_thread)
    modify_thread t (λ r. record r { tid = tid })
    pure []

  -- `idle_function` is the address of `idle`.
  unfoldable pub thread_start : (idle_function idle_started page : Ptr) → M (List Call)
  unfolding sema_init
  thread_start idle_function idle_started page = do
    sema_init idle_started 0
    pure (
        -- "idle"
        Call.thread_create (105 ∷ 100 ∷ 108 ∷ 101 ∷ []) (pos pri_min) idle_function idle_started
          page
        ∷ Call.set_level true
        ∷ Call.sema_down idle_started
        ∷ [])

  -- Up to the call of `function`, whose calls are `body`.
  unfoldable pub kernel_thread : (function : Ptr) → (body : List Call) → M (List Call)
  kernel_thread function body = do
    assert (not (function == null))
    pure (Call.set_level true ∷ body ++ Call.thread_exit ∷ [])

  unfoldable pub idle : (idle_started : Ptr) → M (List Call)
  unfolding thread_current
  idle idle_started = do
    cur ← thread_current
    modify (λ k. record k { idle_thread = cur })
    pure (Call.sema_up idle_started ∷ Call.idle_loop ∷ [])

  -- A turn of the loop, up to its `sti; hlt`.
  unfoldable pub idle_loop : M (List Call)
  unfolding thread_block
  idle_loop = do
    old_level ← intr_disable
    thread_block
    pure (Call.set_level true ∷ Call.idle_loop ∷ [])
