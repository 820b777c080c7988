-- ===== src/Creation/Init.antt =====
-- What `thread_init` makes of the code that is running when the kernel starts: the main thread.
use os_pintos.Base.{
  ℕ, ◌≡◌, ◌≢◌, refl, ap, ap₂, ◌∙◌, false, not, if◌then◌else◌, arith, List, [], ◌∷◌,
}
use os_pintos.Base.Int.{ℤ, pos}
use os_pintos.Platform.{Platform}
use os_pintos.Kernel.{
  Ptr, null, Thread, ThreadStatus, Kernel, pri_default, M, ◌>>=◌, ◌>>◌, ok, gets, modify, assert,
  pure, skip, update, update-update, update_self,
}
use os_pintos.Call.{Call}
use os_pintos.Current.{running_thread, modify_thread}
use os_pintos.Mlfqs.{mlfqs_init}
use os_pintos.Locks.{lock_init}
use os_pintos.Creation.{blank, init_thread, thread_init}

-- "main"
abbrev pub main_name : List ℕ
main_name = 109 ∷ 97 ∷ 105 ∷ 110 ∷ []

abbrev pub main_thread : Ptr → (tid : ℤ) → Thread
main_thread t tid = record (blank t main_name pri_default) {
  status = ThreadStatus.running;
  tid = tid;
}

-- A kernel that has just been loaded: interrupts are off, no handler runs, and the variables have
-- addresses.
pub record IsLoaded (k : Kernel) : Type 0 where
  pub mode : k.thread_mlfqs ≡ false
  pub off : k.intr.on ≡ false
  pub normal : k.intr.context ≡ false
  pub some_stack : k.current ≢ null
  pub some_lock : k.tid_lock ≢ null
  pub some_semaphore : (k.locks k.tid_lock).semaphore ≢ null
  pub unlinked : (k.locks k.tid_lock).elem_linked ≡ false

-- The main thread is the only one, and the lock for tids is free.
abbrev pub initialised : Kernel → (tid next : ℤ) → Kernel
initialised k tid next = record k {
  locks = update k.locks k.tid_lock (record (k.locks k.tid_lock) { holder = null; waiters = [] });
  semaphores =
      update k.semaphores (k.locks k.tid_lock).semaphore (record { value = 1; waiters = [] });
  threads = update k.threads k.current (main_thread k.current tid);
  ready_list = [];
  all_list = k.current ∷ [];
  initial_thread = k.current;
  next_tid = next;
}

module _ ⦃os : Platform⦄ where
  lock_init_run :
      (l : Ptr) (k : Kernel)
      → l ≢ null
      → (k.locks l).semaphore ≢ null
      → lock_init l k
        ≡ ok tt (record k {
          locks = update k.locks l (record (k.locks l) { holder = null; waiters = [] });
          semaphores =
              update k.semaphores (k.locks l).semaphore (record { value = 1; waiters = [] });
        })
  unfolding lock_init
  lock_init_run l k ln sn = ground (
    arith,
    update-update k.locks l (record (k.locks l) { holder = null })
        (record (k.locks l) { holder = null; waiters = [] }),
  )

  init_thread_run :
      (t : Ptr) (k : Kernel)
      → t ≢ null
      → k.thread_mlfqs ≡ false
      → init_thread t main_name pri_default k
        ≡ ok tt (record k {
          threads = update k.threads t (blank t main_name pri_default);
          all_list = os.list_push_back k.all_list t;
        })
  unfolding init_thread
  init_thread_run t k tn mode = ground (
    arith,
    os.intr_disable_lem k.intr,
    os.intr_set_level_lem k.intr.on (record k.intr { on = false }),
  )

  -- `thread_init` over the two functions that it calls.
  abbrev thread_init_by : (Ptr → M (Unit {0})) → (Ptr → List ℕ → ℤ → M (Unit {0})) → M (List Call)
  thread_init_by init_lock make_thread = do
    assert (not (← gets (λ k. k.intr.on)))
    lock ← gets (λ k. k.tid_lock)
    init_lock lock
    modify (λ k. record k { ready_list = []; all_list = [] })
    mlfqs ← gets (λ k. k.thread_mlfqs)
    (if mlfqs then mlfqs_init else skip)
    t ← running_thread
    modify (λ k. record k { initial_thread = t })
    make_thread t main_name pri_default
    modify_thread t (λ r. record r { status = ThreadStatus.running })
    pure (Call.lock_acquire lock ∷ Call.main_tid_taken ∷ [])

  thread_init-thread_init_by : (k : Kernel) → thread_init k ≡ thread_init_by lock_init init_thread k
  unfolding thread_init
  thread_init-thread_init_by k = refl

  -- The state with the lock ready, and no thread.
  abbrev emptied : Kernel → Kernel
  emptied k = record k {
    locks = update k.locks k.tid_lock (record (k.locks k.tid_lock) { holder = null; waiters = [] });
    semaphores =
        update k.semaphores (k.locks k.tid_lock).semaphore (record { value = 1; waiters = [] });
    ready_list = [];
    all_list = [];
    initial_thread = k.current;
  }

  thread_init_by_run :
      (init_lock : Ptr → M (Unit {0})) (make_thread : Ptr → List ℕ → ℤ → M (Unit {0}))
      (k k' : Kernel)
      → k.thread_mlfqs ≡ false
      → k.intr.on ≡ false
      → init_lock k.tid_lock k
        ≡ ok tt (record k { locks = (emptied k).locks; semaphores = (emptied k).semaphores })
      → make_thread k.current main_name pri_default (emptied k) ≡ ok tt k'
      → thread_init_by init_lock make_thread k
        ≡ ok (Call.lock_acquire k.tid_lock ∷ Call.main_tid_taken ∷ []) (record k' {
          threads =
              update k'.threads k.current
                (record (k'.threads k.current) { status = ThreadStatus.running });
        })
  unfolding running_thread
  thread_init_by_run init_lock make_thread k k' mode off lock_ready made = ground arith

  pub thread_init_run :
      (k : Kernel)
      → IsLoaded k
      → thread_init k
        ≡ ok
            (Call.lock_acquire k.tid_lock ∷ Call.main_tid_taken ∷ [])
            (initialised k (pos 0) k.next_tid)
  thread_init_run k c =
      let blanks = update k.threads k.current (blank k.current main_name pri_default) in
      let made = record (emptied k) {
        threads = blanks;
        all_list = os.list_push_back [] k.current;
      } in
      let self = update_self k.threads k.current (blank k.current main_name pri_default) in
      let threads : update blanks k.current
            (record (blanks k.current) { status = ThreadStatus.running })
          ≡ update k.threads k.current (main_thread k.current (pos 0)) =
        ap (λ th. update blanks k.current (record th { status = ThreadStatus.running })) self
        ∙ update-update k.threads k.current (blank k.current main_name pri_default)
            (main_thread k.current (pos 0)) in
      thread_init-thread_init_by k
      ∙ thread_init_by_run lock_init init_thread k made c.mode c.off
          (lock_init_run k.tid_lock k c.some_lock c.some_semaphore)
          (init_thread_run k.current (emptied k) c.some_stack c.mode)
      ∙ ap₂
          (λ s l.
            ok (Call.lock_acquire k.tid_lock ∷ Call.main_tid_taken ∷ [])
              (record (initialised k (pos 0) k.next_tid) { threads = s; all_list = l }))
          threads (os.list_push_back_lem [] k.current)
