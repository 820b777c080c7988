-- ===== src/Tests/Samples.antt =====
-- Threads and kernels for the tests: pointers 1 to 9 are threads, 1 the idle thread, 2 the running
-- one; 11 and 12 are locks with the semaphores 21 and 22.
use os_pintos.Base.{ℕ, ◌+◌, Bool, true, false, [], ◌∷◌, if◌then◌else◌, ◌==◌}
use os_pintos.Base.Int.{pos}
use os_pintos.Kernel.{Ptr, Thread, ThreadStatus, Lock, Kernel, thread_magic, update}

abbrev pub thread : ThreadStatus → (priority : ℕ) → (linked : Bool) → Thread
thread status priority linked = record {
  wakeup_tick = pos 0;
  tid = pos 1;
  status = status;
  name = [];
  stack = 4096;
  priority = pos priority;
  base_priority = pos priority;
  effective_priority = pos priority;
  waiting_lock = 0;
  locks_held = [];
  nice = pos 0;
  recent_cpu = pos 0;
  elem_linked = linked;
  pagedir = 0;
  magic = thread_magic;
}

abbrev pub sleeper : (priority tick : ℕ) → Thread
sleeper priority tick = record (thread ThreadStatus.blocked priority false) {
  wakeup_tick = pos tick;
}

-- Thread 2 runs at priority 31; 3 and 4 are ready at 40 and 20; 5, 6 and 7 sleep until the ticks 8,
-- 10 and 15.
abbrev pub threads : Ptr → Thread
threads t =
    if t == 2
    then thread ThreadStatus.running 31 false
    else if t == 3
    then thread ThreadStatus.ready 40 true
    else if t == 4
    then thread ThreadStatus.ready 20 true
    else if t == 5
    then sleeper 10 8
    else if t == 6
    then sleeper 50 10
    else if t == 7
    then sleeper 30 15
    else thread ThreadStatus.blocked 0 false

-- The locks are free; their semaphores are 1.
abbrev pub free_lock : Ptr → Lock
free_lock l = record { holder = 0; semaphore = l + 10; waiters = []; elem_linked = false }

abbrev pub kernel : Kernel
kernel = record {
  threads = threads;
  semaphores = λ s. record { value = 1; waiters = [] };
  locks = free_lock;
  conditions = λ c. record { waiters = [] };
  semaphore_elems = λ e. record { semaphore = e };
  current = 2;
  ready_list = 3 ∷ 4 ∷ [];
  all_list = 2 ∷ 3 ∷ 4 ∷ 5 ∷ 6 ∷ 7 ∷ [];
  mlfqs_list = λ i. [];
  sleep_list = 5 ∷ 6 ∷ 7 ∷ [];
  idle_thread = 1;
  initial_thread = 2;
  tid_lock = 19;
  frames = λ t. record { eip = 0; function = 0; aux = 0 };
  entry_frames = λ t. record { eip = 0 };
  switch_frames = λ t. record { eip = 0; ebp = 0 };
  idle_ticks = pos 0;
  kernel_ticks = pos 0;
  user_ticks = pos 0;
  thread_ticks = 0;
  thread_mlfqs = false;
  load_avg = pos 0;
  next_tid = pos 8;
  ticks = pos 10;
  loops_per_tick = 50000;
  intr = record { on = true; context = false; yield_on_return = false };
  freed = [];
}

-- The same under the feedback queues, with 3 and 4 in queues that are no longer theirs.
abbrev pub queues : Kernel
queues = record kernel {
  thread_mlfqs = true;
  ready_list = [];
  mlfqs_list = update (update (λ i. []) 40 (4 ∷ [])) 7 (3 ∷ []);
  load_avg = pos 16384;
}

-- In the handler of the timer interrupt.
abbrev pub handler : Kernel
handler = record kernel { intr = record { on = false; context = true; yield_on_return = false } }

-- Thread 4 holds lock 11 and waits for lock 12, which 5 holds.
abbrev pub locks : Ptr → Lock
locks l =
    if l == 11
    then record (free_lock 11) { holder = 4; elem_linked = true }
    else if l == 12
    then record (free_lock 12) { holder = 5; elem_linked = true; waiters = 4 ∷ [] }
    else free_lock l

abbrev pub contended : Kernel
contended = record kernel {
  threads =
      update (update threads 4 (record (threads 4) { waiting_lock = 12; locks_held = 11 ∷ [] })) 5
        (record (threads 5) { locks_held = 12 ∷ [] });
  locks = locks;
  semaphores = λ s. record { value = 0; waiters = [] };
}

-- With interrupts off, the threads 6 and 5 wait for the semaphore 21.
abbrev pub waiting : Kernel
waiting = record kernel {
  semaphores =
      update (λ s. record { value = 1; waiters = [] }) 21
        (record { value = 0; waiters = 6 ∷ 5 ∷ [] });
  intr = record { on = false; context = false; yield_on_return = false };
}

-- The running thread holds lock 11, and on the condition 30 there is a waiter at 22.
abbrev pub holding : Kernel
holding = record kernel {
  locks = update free_lock 11 (record (free_lock 11) { holder = 2; elem_linked = true });
  conditions = λ c. record { waiters = 22 ∷ [] };
}

-- Thread 3 holds the lock, and thread 2 has yet to come to sleep on the semaphore at 23.
abbrev pub signalling : Kernel
signalling = record holding {
  threads =
      update (update threads 2 (thread ThreadStatus.ready 31 true)) 3
        (thread ThreadStatus.running 40 false);
  current = 3;
  ready_list = 2 ∷ 4 ∷ [];
  locks = update free_lock 11 (record (free_lock 11) { holder = 3; elem_linked = true });
  conditions = λ c. record { waiters = 22 ∷ 23 ∷ [] };
  semaphores = λ s. record { value = 0; waiters = [] };
}
