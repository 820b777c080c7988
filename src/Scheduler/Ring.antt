-- ===== src/Scheduler/Ring.antt =====
-- The running thread and those that wait in the queue of its priority, as a ring.
use os_pintos.Base.{
  ℕ, ◌≡◌, ◌≢◌, refl, sym, ap₂, subst, ◌∙◌, fun_ext, true, false, if◌then◌else◌, inl, inr,
  Bool-cases, arith, ◌==◌, List, ◌∷◌, has, All, All-has,
}
use os_pintos.Base.Int.{pos}
use os_pintos.Kernel.{Ptr, Thread, ThreadStatus, Kernel, update}
use os_pintos.Current.{is_thread}
use os_pintos.Scheduler.Yield.{started, linked_ready, switched}
use os_pintos.Scheduler.Requeue.{CanRequeue}

-- A thread that waits in the queue of priority `p`.
pub record Waits (p : ℕ) (k : Kernel) (t : Ptr) : Type 0 where
  pub valid : is_thread t k ≡ true
  pub is_ready : (k.threads t).status ≡ ThreadStatus.ready
  pub linked : (k.threads t).elem_linked ≡ true
  pub level : (k.threads t).priority ≡ pos p
  pub not_idle : t ≢ k.idle_thread

-- What holds of a thread of the ring, wherever it stands.
pub record Peer (p : ℕ) (k : Kernel) (t : Ptr) : Type 0 where
  pub valid : is_thread t k ≡ true
  pub level : (k.threads t).priority ≡ pos p
  pub not_idle : t ≢ k.idle_thread

module _ (p : ℕ) (k : Kernel) where
  -- The running thread and those of its queue.
  abbrev pub ring : List Ptr
  ring = k.current ∷ k.mlfqs_list p

  abbrev pub IsMember : Ptr → Type 0
  IsMember t = has t ring ≡ true

  abbrev pub seats : Ptr → Ptr → Thread
  seats c t =
      if t == c
      then started (k.threads t)
      else if has t ring
      then linked_ready (k.threads t)
      else k.threads t

  -- The state with `c` on the CPU and `queue` behind it.
  abbrev pub seated : (c : Ptr) (queue : List Ptr) → Kernel
  seated c queue = record k {
    threads = seats c;
    mlfqs_list = update k.mlfqs_list p queue;
    current = c;
    thread_ticks = 0;
    intr = record k.intr { on = false };
  }

  pub seats-switched : (c next : Ptr) → IsMember c → switched (seats c) c next ≡ seats next
  seats-switched c next h = fun_ext λ t. ground arith

  pub is_thread-seated :
      (c : Ptr) (queue : List Ptr) (t : Ptr)
      → is_thread t k ≡ true
      → is_thread t (seated c queue) ≡ true
  unfolding is_thread
  is_thread-seated c queue t h = ground arith

  started_same :
      (th : Thread) → th.status ≡ ThreadStatus.running → th.elem_linked ≡ false → started th ≡ th
  started_same th h l = ap₂ (λ x y. record th { status = x; elem_linked = y }) (sym h) (sym l)

  linked_ready_same :
      (th : Thread) → th.status ≡ ThreadStatus.ready → th.elem_linked ≡ true → linked_ready th ≡ th
  linked_ready_same th h l = ap₂ (λ x y. record th { status = x; elem_linked = y }) (sym h) (sym l)

  same_address : (t c : Ptr) → t == c ≡ true → t ≡ c
  same_address t c h = ground arith

  pub seat_of_current : (c : Ptr) → seats c c ≡ started (k.threads c)
  seat_of_current c = ground arith

  pub seats_start : CanRequeue p k → All (Waits p k) (k.mlfqs_list p) → seats k.current ≡ k.threads
  seats_start c waits = fun_ext λ t. elim (Bool-cases (t == k.current)) [
    | inl here ↦
        subst (λ u. seats k.current u ≡ k.threads u) (sym (same_address t k.current here))
          (seat_of_current k.current ∙ started_same (k.threads k.current) c.running c.free)
    | inr other ↦ elim (Bool-cases (has t (k.mlfqs_list p))) [
      | inl member ↦
          let w = All-has (Waits p k) (k.mlfqs_list p) waits t member in
          rw (other, member) (linked_ready_same (k.threads t) w.is_ready w.linked)
      | inr outside ↦ rw (other, outside) refl
    ]
  ]
