-- ===== src/Boot.antt =====
-- What `main` of threads/init.c does, as a list of events, and how it may end.
use os_pintos.Base.{ℕ, Bool, true, false, List, [], ◌∷◌, ◌++◌}

-- Bytes, those of a C string without its NUL.
abbrev pub Text : Type 0
Text = List ℕ

-- What the build defines: the threads project defines none of these.
pub record Build : Type 0 where
  pub filesys : Bool
  pub vm : Bool
  pub userprog : Bool

abbrev pub threads_build : Build
threads_build = record { filesys = false; vm = false; userprog = false }

pub data ShutdownType : Type 0 where
  power_off reboot : ShutdownType

-- The roles that a block device can be given, from `enum block_type`.
pub data Role : Type 0 where
  filesys scratch swap : Role

-- What `main` does on the way, in order; output is left out. The functions that another file of the
-- kernel has are named only.
pub data Event : Type 0 where
  bss_init console_init malloc_init paging_init intr_init kbd_init : Event
  input_init serial_init_queue thread_init timer_init thread_start timer_calibrate : Event
  tss_init gdt_init exception_init syscall_init ide_init shutdown thread_exit : Event
  palloc_init : (user_page_limit : ℕ) → Event
  filesys_init : (format : Bool) → Event
  -- block_set_role
  set_role : Role → (block : ℕ) → Event
  shutdown_configure : ShutdownType → Event
  random_init : (seed : ℕ) → Event
  -- thread_mlfqs = true
  set_mlfqs : Event
  run_test : Text → Event
  -- process_wait (process_execute (task))
  run_process : Text → Event
  fsutil_ls fsutil_extract : Event
  fsutil_cat fsutil_rm fsutil_append : Text → Event

pub data Boot (A : Type 0) : Type 0 where
  finished : A → List Event → Boot A
  panicked : List Event → Boot A
  powered_off : List Event → Boot A
  -- C does not define what follows.
  undefined : Boot A

abbrev pub behind : {A : Type 0} → List Event → Boot A → Boot A
behind before (finished a events) = finished a (before ++ events)
behind before (panicked events) = panicked (before ++ events)
behind before (powered_off events) = powered_off (before ++ events)
behind before undefined = undefined

infixl 5 ◌>>=◌ ◌>>◌
abbrev pub ◌>>=◌ : {A B : Type 0} → Boot A → (A → Boot B) → Boot B
finished a events >>= f = behind events (f a)
panicked events >>= f = panicked events
powered_off events >>= f = powered_off events
undefined >>= f = undefined

abbrev pub ◌>>◌ : {B : Type 0} → Boot (Unit {0}) → Boot B → Boot B
m >> n = m >>= λ _. n

abbrev pub pure : {A : Type 0} → A → Boot A
pure a = finished a []

abbrev pub emit : Event → Boot (Unit {0})
emit event = finished tt (event ∷ [])

-- Code under #ifdef.
abbrev pub when : Bool → Boot (Unit {0}) → Boot (Unit {0})
when true m = m
when false m = pure tt
