-- ===== src/Creation/FirstTid.antt =====
-- The main thread and the free lock for tids, as `thread_init` leaves them.
use os_pintos.Base.{◌≡◌, ◌≢◌, ap, sym, ◌∙◌, fun_ext, arith, [], has}
use os_pintos.Base.Int.{ℤ, pos}
use os_pintos.Platform.{Platform}
use os_pintos.Kernel.{Ptr, null, Kernel, ok, update, update-update, update_self}
use os_pintos.Current.{is_thread}
use os_pintos.Mlfqs.Queues.{IsCurrent}
use os_pintos.Donation.{refresh_priority}
use os_pintos.Locks.Free.{CanTake, closed}
use os_pintos.Creation.{main_tid_given}
use os_pintos.Creation.Init.{IsLoaded, main_thread, initialised}

module _ ⦃os : Platform⦄ where
  pub refresh_priority_same :
      (t : Ptr) (k : Kernel)
      → t ≢ null
      → (k.threads t).base_priority ≡ (k.threads t).priority
      → (k.threads t).locks_held ≡ []
      → refresh_priority t k ≡ ok tt k
  unfolding refresh_priority
  refresh_priority_same t k tn same none =
      let th = k.threads t in
      let back : update k.threads t (record th { priority = th.base_priority }) ≡ k.threads =
        fun_ext λ u. ground arith in
      ground (arith, back)

  initialised-IsCurrent :
      (k : Kernel) (tid next : ℤ) → IsLoaded k → IsCurrent (initialised k tid next)
  unfolding is_thread
  initialised-IsCurrent k tid next c = (ground (arith, c.some_stack), ground arith)

  pub initialised-CanTake :
      (k : Kernel) (next : ℤ) → IsLoaded k → CanTake k.tid_lock 0 (initialised k (pos 0) next)
  initialised-CanTake k next c =
      let lock =
        update_self k.locks k.tid_lock
          (record (k.locks k.tid_lock) { holder = null; waiters = [] }) in
      let main = update_self k.threads k.current (main_thread k.current (pos 0)) in
      let k' = initialised k (pos 0) next in
      let sema : k'.semaphores (k'.locks k.tid_lock).semaphore
          ≡ record { value = 1; waiters = [] } =
        ap (λ l. k'.semaphores l.semaphore) lock
        ∙ update_self k.semaphores (k.locks k.tid_lock).semaphore
            (record { value = 1; waiters = [] }) in
      record {
        mode = c.mode;
        normal = c.normal;
        running = initialised-IsCurrent k (pos 0) next c;
        highest = tt;
        fresh =
            refresh_priority_same k.current (closed k') c.some_stack
              (ap (λ th. th.base_priority) main ∙ sym (ap (λ th. th.priority) main))
              (ap (λ th. th.locks_held) main);
        some_lock = c.some_lock;
        some_semaphore = λ e. c.some_semaphore (sym (ap (λ l. l.semaphore) lock) ∙ e);
        free = ap (λ l. l.holder) lock;
        unlinked = ap (λ l. l.elem_linked) lock ∙ c.unlinked;
        alone = ap (λ l. l.waiters) lock;
        new = ap (λ th. has k.tid_lock th.locks_held) main;
        value = ap (λ x. x.value) sema;
        small = omega arith;
        no_sleeper = ap (λ x. x.waiters) sema;
      }

  pub main_tid_given_run :
      (k : Kernel) (tid next : ℤ)
      → main_tid_given tid (initialised k (pos 0) next) ≡ ok [] (initialised k tid next)
  unfolding main_tid_given
  main_tid_given_run k tid next =
      let blank_tid = main_thread k.current (pos 0) in
      ap (λ s. ok [] (record (initialised k tid next) { threads = s }))
        (ap
            (λ th.
              update (update k.threads k.current blank_tid) k.current (record th { tid = tid }))
            (update_self k.threads k.current blank_tid)
          ∙ update-update k.threads k.current blank_tid (main_thread k.current tid))
