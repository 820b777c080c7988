-- ===== src/Creation/Threads.antt =====
-- `thread_create`: the thread that it makes.
use os_pintos.Base.{
  ◌+◌, ◌-◌, ◌%◌, ◌^◌, ◌≡◌, ◌≢◌, refl, true, false, arith, ℕ, List, [], ◌∷◌, ◌++◌, ap, has, fun_ext,
  ◌∙◌, if◌then◌else◌,
}
use mathlib.Core.List.{Perm}
use os_pintos.Base.Int.{ℤ, pos, ◌+ℤ◌, ◌≤ℤ◌, wrap32}
use os_pintos.Base.Sorted.{IsSorted}
use os_pintos.Platform.{Platform}
use os_pintos.Kernel.{
  Ptr, null, Thread, ThreadStatus, Kernel, M, ok, and_then, gets, modify, pure, ◌>>=◌, ◌>>◌, update,
  update-update, set_thread,
}
use os_pintos.Call.{Call}
use os_pintos.Scheduler.{less_priority, thread_unblock}
use os_pintos.Scheduler.Ready.{inserted, inserted-perm, inserted-IsSorted, less_priority_same}
use os_pintos.Creation.Frames.{alloc_frame_run, unblock_run, FramesFit, frame_bytes}
use os_pintos.Creation.{blank, thread_create, init_thread, alloc_frame, tid_given}

-- The thread before `allocate_tid`, and once it is ready, with `size` bytes of frames on its stack.
abbrev pub unborn : (t : Ptr) → List ℕ → (p : ℤ) → Thread
unborn t name p = record (blank t name p) { effective_priority = p }

abbrev pub newborn : (t : Ptr) → List ℕ → (p tid : ℤ) → (size : ℕ) → Thread
newborn t name p tid size = record (unborn t name p) {
  tid = tid;
  status = ThreadStatus.ready;
  stack = t + 4096 - size;
  elem_linked = true;
}

-- A new thread that is not on a list does not change its order.
IsSorted-update :
    (s : Ptr → Thread) (t : Ptr) (th : Thread) (l : List Ptr)
    → has t l ≡ false
    → IsSorted (less_priority s) l
    → IsSorted (less_priority (update s t th)) l
unfolding less_priority
IsSorted-update s t th [] h a = tt
IsSorted-update s t th (x ∷ []) h a = (tt, tt)
IsSorted-update s t th (x ∷ y ∷ l) h a =
    (ground arith, IsSorted-update s t th (y ∷ l) (ground arith) a.1)

module _ ⦃os : Platform⦄ where
  init_thread_run :
      (t : Ptr) (name : List ℕ) (p : ℤ) (k : Kernel)
      → k.thread_mlfqs ≡ false
      → t ≢ null
      → pos 0 ≤ℤ p
      → p ≤ℤ pos 63
      → init_thread t name p k
        ≡ ok tt (record (set_thread t (blank t name p) k) { all_list = k.all_list ++ t ∷ [] })
  unfolding init_thread
  init_thread_run t name p k mode nn low high = ground (
    arith,
    os.list_push_back_lem k.all_list t,
    os.intr_disable_lem k.intr,
    os.intr_set_level_lem k.intr.on (record k.intr { on = false }),
  )

  pub thread_create_run :
      (name : List ℕ) (p : ℤ) (function aux t : Ptr) (k : Kernel)
      → k.thread_mlfqs ≡ false
      → function ≢ null
      → t ≢ null
      → pos 0 ≤ℤ p
      → p ≤ℤ pos 63
      → thread_create name p function aux t k
        ≡ ok
            (Call.lock_acquire k.tid_lock ∷ Call.tid_taken t function aux ∷ [])
            (record (set_thread t (unborn t name p) k) { all_list = k.all_list ++ t ∷ [] })
  unfolding thread_create
  thread_create_run name p function aux t k mode fn nn low high = ground (
    arith,
    init_thread_run t name p k mode nn low high,
    update-update k.threads t (blank t name p) (unborn t name p),
  )

  abbrev stacked : (t : Ptr) → List ℕ → (p tid : ℤ) → (stack : ℕ) → Thread
  stacked t name p tid stack = record (unborn t name p) { tid = tid; stack = stack }

  -- `tid_given` behind each of its frames.
  abbrev checked : M (List Call)
  checked = do
    mlfqs ← gets (λ k. k.thread_mlfqs)
    pure ((if mlfqs then Call.mlfqs_check_preemption else Call.check_preemption) ∷ [])

  abbrev released : Ptr → M (List Call)
  released t = do
    modify (λ k. record k {
      switch_frames = update k.switch_frames t (record { eip = os.switch_entry; ebp = null });
    })
    thread_unblock t
    checked

  abbrev entered : Ptr → M (List Call)
  entered t = do
    modify (λ k. record k {
      entry_frames = update k.entry_frames t (record { eip = os.kernel_thread });
    })
    alloc_frame t os.switch_threads_frame
    released t

  -- The frames on the stack of `t`.
  abbrev pub framed : (t function aux : Ptr) → Kernel → Kernel
  framed t function aux k = record k {
    frames = update k.frames t (record { eip = null; function = function; aux = aux });
    entry_frames = update k.entry_frames t (record { eip = os.kernel_thread });
    switch_frames = update k.switch_frames t (record { eip = os.switch_entry; ebp = null });
  }

  abbrev called : (t function aux : Ptr) → M (List Call)
  called t function aux = do
    modify (λ k. record k {
      frames = update k.frames t (record { eip = null; function = function; aux = aux });
    })
    alloc_frame t os.switch_entry_frame
    entered t

  tid_given-called :
      (t : Ptr) (name : List ℕ) (p tid : ℤ) (function aux : Ptr) (k : Kernel)
      → tid_given t tid function aux (set_thread t (unborn t name p) k)
        ≡ (alloc_frame t 12 >> called t function aux)
            (set_thread t (stacked t name p tid ((t + 4096) % 2 ^ 32)) k)
  unfolding tid_given
  tid_given-called t name p tid function aux k =
      let s = update k.threads t (unborn t name p) in
      let th = stacked t name p tid ((t + 4096) % 2 ^ 32) in
      let same : update s t (record (s t) { tid = tid }) ≡ update k.threads t th =
        fun_ext λ u. ground arith in
      ap (λ r. (alloc_frame t 12 >> called t function aux) (record k { threads = r })) same

  tid_given_run :
      (t : Ptr) (name : List ℕ) (p tid : ℤ) (function aux : Ptr) (k : Kernel)
      → k.thread_mlfqs ≡ false
      → t ≢ null
      → FramesFit t
      → tid_given t tid function aux (set_thread t (unborn t name p) k)
        ≡ ok
            (Call.check_preemption ∷ [])
            (record (framed t function aux (set_thread t (newborn t name p tid frame_bytes) k)) {
              ready_list =
                  inserted (set_thread t (stacked t name p tid (t + 4096 - frame_bytes)) k) t;
            })
  tid_given_run t name p tid function aux k mode nn fit =
      let e = os.switch_entry_frame in
      let w = os.switch_threads_frame in
      let top = (t + 4096) % 2 ^ 32 in
      let th : ℕ → Thread = stacked t name p tid in
      let k' = record k {
        frames = update k.frames t (record { eip = null; function = function; aux = aux });
      } in
      let k'' = record k' {
        entry_frames = update k.entry_frames t (record { eip = os.kernel_thread });
      } in
      let end : top - 12 - e - w ≡ t + 4096 - frame_bytes = omega (arith, fit.room, fit.bound) in
      tid_given-called t name p tid function aux k
      ∙ ap (λ o. and_then o (λ _. called t function aux))
          (alloc_frame_run t 12 (th top) k nn refl refl (omega (arith, fit.bound)) (omega arith))
      ∙ ap (λ o. and_then o (λ _. entered t))
          (alloc_frame_run t e (th (top - 12)) k' nn refl fit.entry_words
            (omega (arith, fit.bound, fit.room)) (omega arith))
      ∙ ap (λ o. and_then o (λ _. released t))
          (alloc_frame_run t w (th (top - 12 - e)) k'' nn refl fit.threads_words
            (omega (arith, fit.bound, fit.room)) (omega arith))
      ∙ ap (λ o. and_then o (λ _. checked))
          (unblock_run t (th (top - 12 - e - w)) (framed t function aux k) mode nn refl refl refl)
      ∙ rw (mode, end) refl

  -- The state with the new thread in front of `allocate_tid`, and `next` for the next tid.
  abbrev pub conceived : List ℕ → ℤ → (t : Ptr) → (next : ℤ) → Kernel → Kernel
  conceived name p t next k = record (set_thread t (unborn t name p) k) {
    all_list = k.all_list ++ t ∷ [];
    next_tid = next;
  }

  -- The state with the new thread, and `l` for the ready list.
  abbrev pub created : List ℕ → ℤ → (function aux t : Ptr) → (l : List Ptr) → Kernel → Kernel
  created name p function aux t l k =
      record (framed t function aux (set_thread t (newborn t name p k.next_tid frame_bytes) k)) {
        all_list = k.all_list ++ t ∷ [];
        next_tid = wrap32 (k.next_tid +ℤ pos 1);
        ready_list = l;
      }

  -- The ready list with the new thread.
  abbrev joined : List ℕ → ℤ → Ptr → Kernel → List Ptr
  joined name p t k =
      inserted (set_thread t (stacked t name p k.next_tid (t + 4096 - frame_bytes)) k) t

  -- `thread_create` behind `allocate_tid`.
  pub tid_given-created :
      (name : List ℕ) (p : ℤ) (function aux t : Ptr) (k : Kernel)
      → k.thread_mlfqs ≡ false
      → t ≢ null
      → FramesFit t
      → has t k.ready_list ≡ false
      → IsSorted (less_priority k.threads) k.ready_list
      → (l : List Ptr) × (tid_given t k.next_tid function aux
            (conceived name p t (wrap32 (k.next_tid +ℤ pos 1)) k)
          ≡ ok (Call.check_preemption ∷ []) (created name p function aux t l k))
        × IsSorted (less_priority (created name p function aux t l k).threads) l
        × Perm l (t ∷ k.ready_list)
  tid_given-created name p function aux t k mode nn fit out sorted =
      let th = stacked t name p k.next_tid (t + 4096 - frame_bytes) in
      let new = newborn t name p k.next_tid frame_bytes in
      let s = update k.threads t th in
      let same = less_priority_same s (update k.threads t new) (λ u. ground arith) in
      (
        joined name p t k,
        tid_given_run t name p k.next_tid function aux
            (record k { all_list = k.all_list ++ t ∷ []; next_tid = wrap32 (k.next_tid +ℤ pos 1) })
            mode nn fit,
        rw same (
            inserted-IsSorted (set_thread t th k) t
              (IsSorted-update k.threads t th k.ready_list out sorted)),
        inserted-perm (set_thread t th k) t,
      )
