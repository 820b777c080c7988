-- ===== src/Kernel/State.antt =====
-- `struct thread`, `struct semaphore`, `struct lock`, `struct condition`, and the static variables
-- of thread.c and timer.c.
use os_pintos.Base.{ℕ, Bool, true, false, List}
use os_pintos.Base.Int.{ℤ, pos, negsuc}
use os_pintos.Platform.{Intr}

-- A pointer; `null` is NULL.
abbrev pub Ptr : Type 0
Ptr = ℕ

abbrev pub null : Ptr
null = 0

pub data ThreadStatus : Type 0 where
  running ready blocked dying : ThreadStatus

abbrev pub is_running : ThreadStatus → Bool
is_running ThreadStatus.running = true
is_running _ = false

abbrev pub is_blocked : ThreadStatus → Bool
is_blocked ThreadStatus.blocked = true
is_blocked _ = false

abbrev pub is_dying : ThreadStatus → Bool
is_dying ThreadStatus.dying = true
is_dying _ = false

abbrev pub pri_min : ℕ
pri_min = 0

abbrev pub pri_default : ℤ
pri_default = pos 31

abbrev pub pri_max : ℕ
pri_max = 63

abbrev pub nice_min : ℤ
nice_min = negsuc 19

abbrev pub nice_default : ℤ
nice_default = pos 0

abbrev pub nice_max : ℤ
nice_max = pos 20

abbrev pub recent_cpu_default : ℤ
recent_cpu_default = pos 0

abbrev pub thread_magic : ℕ
thread_magic = 0xcd6a_bf4b

abbrev pub time_slice : ℕ
time_slice = 4

abbrev pub pgsize : ℕ
pgsize = 4096

-- `struct thread`. `pagedir` is null unless process.c of a build with USERPROG sets it. `elem_linked` says whether the
-- links of `elem` join it to some list; the links of `allelem` and `sleep_elem`, each for one list
-- only, are not kept apart from that list.
pub record Thread : Type 0 where
  pub wakeup_tick : ℤ
  pub tid : ℤ
  pub status : ThreadStatus
  pub name : List ℕ
  pub stack : ℕ
  pub priority : ℤ
  pub base_priority : ℤ
  pub effective_priority : ℤ
  pub waiting_lock : Ptr
  pub locks_held : List Ptr
  pub nice : ℤ
  pub recent_cpu : ℤ
  pub elem_linked : Bool
  pub pagedir : Ptr
  pub magic : ℕ

-- `struct semaphore`
pub record Semaphore : Type 0 where
  pub value : ℕ
  pub waiters : List Ptr

-- `struct lock`. `semaphore` is the address of the member; `elem_linked` is as in a thread.
pub record Lock : Type 0 where
  pub holder : Ptr
  pub semaphore : Ptr
  pub waiters : List Ptr
  pub elem_linked : Bool

-- `struct condition`
pub record Condition : Type 0 where
  pub waiters : List Ptr

-- `struct semaphore_elem`, with the address of its semaphore.
pub record SemaphoreElem : Type 0 where
  pub semaphore : Ptr

-- The frame of `kernel_thread` on a new stack: what the thread is to run.
pub record KernelThreadFrame : Type 0 where
  pub eip : Ptr
  pub function : Ptr
  pub aux : Ptr

-- The members of the frames of `switch_entry` and `switch_threads` that thread.c sets.
pub record SwitchEntryFrame : Type 0 where
  pub eip : Ptr

pub record SwitchThreadsFrame : Type 0 where
  pub eip : Ptr
  pub ebp : Ptr

-- The memory and the static variables. `current` is the thread on whose stack the CPU runs, which
-- `running_thread` reads off the stack pointer; `freed` lists the pages given back to palloc.c.
pub record Kernel : Type 0 where
  pub threads : Ptr → Thread
  pub semaphores : Ptr → Semaphore
  pub locks : Ptr → Lock
  pub conditions : Ptr → Condition
  pub semaphore_elems : Ptr → SemaphoreElem
  pub current : Ptr
  pub ready_list : List Ptr
  pub all_list : List Ptr
  pub mlfqs_list : ℕ → List Ptr
  pub sleep_list : List Ptr
  pub idle_thread : Ptr
  pub initial_thread : Ptr
  pub tid_lock : Ptr
  pub frames : Ptr → KernelThreadFrame
  pub entry_frames : Ptr → SwitchEntryFrame
  pub switch_frames : Ptr → SwitchThreadsFrame
  pub idle_ticks : ℤ
  pub kernel_ticks : ℤ
  pub user_ticks : ℤ
  pub thread_ticks : ℕ
  pub thread_mlfqs : Bool
  pub load_avg : ℤ
  pub next_tid : ℤ
  pub ticks : ℤ
  pub loops_per_tick : ℕ
  pub intr : Intr
  pub freed : List Ptr
