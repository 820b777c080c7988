-- ===== src/Scheduler/Requeue.antt =====
-- `thread_yield` under the feedback queues: the running thread goes to the end of its queue, and the
-- front of the highest queue gets the CPU.
use os_pintos.Base.{
  ℕ, suc, ◌<◌, ◌≡◌, ◌≢◌, refl, ap, ◌∙◌, fun_ext, Bool, true, false, not, if◌then◌else◌, arith, ◌==◌,
  List, [], ◌∷◌, ◌++◌,
}
use os_pintos.Base.Int.{pos}
use os_pintos.Platform.{Platform}
use os_pintos.Kernel.{
  Ptr, ThreadStatus, Kernel, ok, update, update-update, update_self, set_queue, is_running,
  is_dying, M, ◌>>=◌, ◌>>◌, and_then, gets, assert, pure, skip,
}
use os_pintos.Elem.{set_linked}
use os_pintos.Current.{is_thread, thread_current, modify_thread}
use os_pintos.Mlfqs.{queue_count, mlfqs_insert, mlfqs_next_thread_to_run}
use os_pintos.Mlfqs.Queues.{NoneBetween}
use os_pintos.Mlfqs.Level.{above_update, next_of_level, mlfqs_insert_level}
use os_pintos.Scheduler.{insert_ready, intr_disable, thread_yield, schedule, next_thread_to_run}
use os_pintos.Scheduler.Block.{runs}
use os_pintos.Scheduler.Yield.{started, linked_ready, switched}

-- What `thread_yield` needs of the feedback scheduler: a running thread, other than the idle thread,
-- at priority `p`, whose `elem` is on no list, with no thread in a higher queue.
pub record CanRequeue (p : ℕ) (k : Kernel) : Type 0 where
  pub mode : k.thread_mlfqs ≡ true
  pub normal : k.intr.context ≡ false
  pub bound : p < queue_count
  pub valid : is_thread k.current k ≡ true
  pub running : (k.threads k.current).status ≡ ThreadStatus.running
  pub not_idle : k.current ≢ k.idle_thread
  pub free : (k.threads k.current).elem_linked ≡ false
  pub level : (k.threads k.current).priority ≡ pos p
  pub none_above : NoneBetween k (suc p) queue_count

if_true : {A : Type 0} (b : Bool) (x y : A) → b ≡ true → (if b then x else y) ≡ x
if_true b x y e = rw e refl

module _ ⦃os : Platform⦄ where
  schedule_via :
      (k k' : Kernel) (next : Ptr)
      → next_thread_to_run k ≡ ok next k'
      → k'.current ≡ k.current
      → k'.intr.on ≡ false
      → is_running (k'.threads k.current).status ≡ false
      → is_dying (k'.threads k.current).status ≡ false
      → is_thread next k' ≡ true
      → schedule k
        ≡ ok tt (record k' {
          threads = update k'.threads next (runs (k'.threads next));
          current = next;
          thread_ticks = 0;
        })
  unfolding schedule
  schedule_via k k' next run same off stopped alive valid = ground arith

  schedule_queue_run :
      (k : Kernel) (p : ℕ) (next : Ptr) (rest : List Ptr)
      → k.thread_mlfqs ≡ true
      → k.intr.on ≡ false
      → is_running (k.threads k.current).status ≡ false
      → is_dying (k.threads k.current).status ≡ false
      → is_thread next k ≡ true
      → mlfqs_next_thread_to_run k ≡ ok next (set_queue p rest (set_linked false next k))
      → schedule k
        ≡ ok tt (record k {
          threads = update k.threads next (started (k.threads next));
          mlfqs_list = update k.mlfqs_list p rest;
          current = next;
          thread_ticks = 0;
        })
  unfolding next_thread_to_run is_thread
  schedule_queue_run k p next rest mode off stopped alive valid run =
      schedule_via k (set_queue p rest (set_linked false next k)) next
        (if_true k.thread_mlfqs (mlfqs_next_thread_to_run k) _ mode ∙ run) refl off (ground arith)
        (ground arith) (ground arith)
      ∙ ap
          (λ s. ok tt (record k {
            threads = s;
            mlfqs_list = update k.mlfqs_list p rest;
            current = next;
            thread_ticks = 0;
          }))
          (fun_ext λ t. ground arith)

  abbrev pub after_requeue : Kernel → (p : ℕ) (next : Ptr) (rest : List Ptr) → Kernel
  after_requeue k p next rest = record k {
    threads = switched k.threads k.current next;
    mlfqs_list = update k.mlfqs_list p rest;
    current = next;
    thread_ticks = 0;
    intr = record k.intr { on = false };
  }

  -- The running thread at the end of its queue.
  abbrev requeued : ℕ → Kernel → Kernel
  requeued p k = record k {
    threads = update k.threads k.current (linked_ready (k.threads k.current));
    mlfqs_list = update k.mlfqs_list p (k.mlfqs_list p ++ k.current ∷ []);
    intr = record k.intr { on = false };
  }

  is_thread-requeued :
      (p : ℕ) (k : Kernel) (t : Ptr) → is_thread t k ≡ true → is_thread t (requeued p k) ≡ true
  unfolding is_thread
  is_thread-requeued p k t h = ground arith

  schedule-requeued :
      (p : ℕ) (k : Kernel) (next : Ptr) (rest : List Ptr)
      → CanRequeue p k
      → k.mlfqs_list p ++ k.current ∷ [] ≡ next ∷ rest
      → is_thread next k ≡ true
      → schedule (requeued p k) ≡ ok tt (after_requeue k p next rest)
  schedule-requeued p k next rest c front next_valid =
      let queue = k.mlfqs_list p ++ k.current ∷ [] in
      let k' = requeued p k in
      let self = update_self k.threads k.current (linked_ready (k.threads k.current)) in
      let goes : mlfqs_next_thread_to_run k'
          ≡ ok next (set_queue p rest (set_linked false next k')) =
        next_of_level k' p next rest c.bound
          (λ j a b. above_update k.mlfqs_list p queue j a (c.none_above j a b))
          (update_self k.mlfqs_list p queue ∙ front) in
      schedule_queue_run k' p next rest c.mode refl (ap (λ th. is_running th.status) self)
        (ap (λ th. is_dying th.status) self) (is_thread-requeued p k next next_valid) goes
      ∙ ap (λ f. ok tt (record (after_requeue k p next rest) { mlfqs_list = f }))
          (update-update k.mlfqs_list p queue rest)

  -- `thread_yield` over the switch that it ends with.
  abbrev yield_by : M (Unit {0}) → M Bool
  yield_by switch = do
    cur ← thread_current
    assert (not (← gets (λ k. k.intr.context)))
    old_level ← intr_disable
    idle ← gets (λ k. k.idle_thread)
    mlfqs ← gets (λ k. k.thread_mlfqs)
    (if not (cur == idle) then (if not mlfqs then insert_ready cur else mlfqs_insert cur) else skip)
    modify_thread cur (λ r. record r { status = ThreadStatus.ready })
    switch
    pure old_level

  yield_by_level :
      (p : ℕ) (k : Kernel) (switch : M (Unit {0}))
      → k.thread_mlfqs ≡ true
      → k.intr.context ≡ false
      → is_thread k.current k ≡ true
      → (k.threads k.current).status ≡ ThreadStatus.running
      → k.current ≢ k.idle_thread
      → mlfqs_insert k.current (record k { intr = record k.intr { on = false } })
        ≡ ok tt (
            set_queue p
              (k.mlfqs_list p ++ k.current ∷ [])
              (set_linked true k.current (record k { intr = record k.intr { on = false } })))
      → yield_by switch k ≡ (switch >>= λ x. pure k.intr.on) (requeued p k)
  unfolding thread_current
  yield_by_level p k switch mode normal valid running not_idle insert =
      let s = k.threads in
      let linked = record (s k.current) { elem_linked = true } in
      ground (
        arith,
        os.intr_disable_lem k.intr,
        update-update s k.current linked (linked_ready (s k.current)),
      )

  thread_yield-yield_by : (k : Kernel) → thread_yield k ≡ yield_by schedule k
  unfolding thread_yield
  thread_yield-yield_by k = refl

  pub thread_yield_requeues :
      (p : ℕ) (k : Kernel) (next : Ptr) (rest : List Ptr)
      → CanRequeue p k
      → k.mlfqs_list p ++ k.current ∷ [] ≡ next ∷ rest
      → is_thread next k ≡ true
      → thread_yield k ≡ ok k.intr.on (after_requeue k p next rest)
  thread_yield_requeues p k next rest c front next_valid =
      let off = record k { intr = record k.intr { on = false } } in
      thread_yield-yield_by k
      ∙ yield_by_level p k schedule c.mode c.normal c.valid c.running c.not_idle
          (mlfqs_insert_level p off c.bound c.level c.free)
      ∙ ap (λ o. and_then o (λ x. pure k.intr.on))
          (schedule-requeued p k next rest c front next_valid)
