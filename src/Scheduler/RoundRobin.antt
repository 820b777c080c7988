-- ===== src/Scheduler/RoundRobin.antt =====
-- The threads of one feedback queue take turns.
use os_pintos.Base.{
  ℕ, zero, suc, ◌≡◌, refl, sym, ap, ap₂, subst, ◌∙◌, Bool, false, List, [], ◌∷◌, ◌++◌, length,
  last_parts, first_parts, All, All-has, All-intro, All-append, append_assoc, append-nil,
}
use os_pintos.Platform.{Platform}
use os_pintos.Kernel.{Ptr, Kernel, ok, update_id, update_self, update-update, M, ◌>>=◌, pure}
use os_pintos.Current.{running_thread}
use os_pintos.Mlfqs.Level.{above_update}
use os_pintos.Scheduler.{thread_yield}
use os_pintos.Scheduler.Ring.{
  Waits, Peer, ring, IsMember, seated, seats-switched, is_thread-seated, seat_of_current,
  seats_start,
}
use os_pintos.Scheduler.Yield.{switched}
use os_pintos.Scheduler.Requeue.{CanRequeue, thread_yield_requeues}

module _ ⦃os : Platform⦄ where
  -- `n` yields, each by the thread that runs then; the threads that get the CPU, in order.
  unfoldable pub turns : ℕ → M (List Ptr)
  unfolding running_thread
  turns zero = pure []
  turns (suc n) = do level ← thread_yield; t ← running_thread; later ← turns n; pure (t ∷ later)

  turns_step :
      (n : ℕ) (k k' k'' : Kernel) (level : Bool) (later : List Ptr)
      → thread_yield k ≡ ok level k'
      → turns n k' ≡ ok later k''
      → turns (suc n) k ≡ ok (k'.current ∷ later) k''
  unfolding turns
  turns_step n k k' k'' level later first others = rw first (rw others refl)

  module _ (p : ℕ) (k : Kernel) (can : CanRequeue p k)
      (waits : All (Waits p k) (k.mlfqs_list p)) where
    member-Peer : (t : Ptr) → IsMember p k t → Peer p k t
    member-Peer = All-has (Peer p k) (ring p k) (first, waiting)
      where
        first : Peer p k k.current
        first = record { valid = can.valid; level = can.level; not_idle = can.not_idle }

        waiting : All (Peer p k) (k.mlfqs_list p)
        waiting = All-intro (Peer p k) (k.mlfqs_list p) λ t h.
            let w = All-has (Waits p k) (k.mlfqs_list p) waits t h in
            record { valid = w.valid; level = w.level; not_idle = w.not_idle }

    seated-CanRequeue :
        (c : Ptr) (queue : List Ptr) → IsMember p k c → CanRequeue p (seated p k c queue)
    seated-CanRequeue c queue h =
        let peer = member-Peer c h in
        record {
          mode = can.mode;
          normal = can.normal;
          bound = can.bound;
          valid = is_thread-seated p k c queue c peer.valid;
          running = ap (λ th. th.status) (seat_of_current p k c);
          not_idle = peer.not_idle;
          free = ap (λ th. th.elem_linked) (seat_of_current p k c);
          level = ap (λ th. th.priority) (seat_of_current p k c) ∙ peer.level;
          none_above = λ j a b. above_update k.mlfqs_list p queue j a (can.none_above j a b);
        }

    -- A yield in the ring seats the next of its members.
    turn_seated :
        (c : Ptr) (queue : List Ptr) (next : Ptr) (rest : List Ptr)
        → IsMember p k c
        → IsMember p k next
        → queue ++ c ∷ [] ≡ next ∷ rest
        → thread_yield (seated p k c queue) ≡ ok false (seated p k next rest)
    turn_seated c queue next rest hc hn e =
        thread_yield_requeues p (seated p k c queue) next rest (seated-CanRequeue c queue hc)
          (ap (λ q. q ++ c ∷ []) (update_self k.mlfqs_list p queue) ∙ e)
          (is_thread-seated p k c queue next (member-Peer next hn).valid)
        ∙ ap₂ (λ s f. ok false (record (seated p k next rest) { threads = s; mlfqs_list = f }))
            (seats-switched p k c next hc) (update-update k.mlfqs_list p queue rest)

    turns-seated :
        (ts us : List Ptr) (c : Ptr) (queue : List Ptr)
        → IsMember p k c
        → All (IsMember p k) ts
        → queue ++ c ∷ [] ≡ ts ++ us
        → (last : Ptr) × (left : List Ptr) × (turns (length ts) (seated p k c queue)
            ≡ ok ts (seated p k last left))
          × (left ++ last ∷ [] ≡ us ++ ts)
    unfolding turns
    turns-seated [] us c queue hc h e = (c, queue, refl, e ∙ sym (append-nil us))
    turns-seated (t ∷ ts) us c queue hc (ht, h) e =
        let (last, left, run, q) =
          turns-seated ts (us ++ t ∷ []) t (ts ++ us) ht h (append_assoc ts us (t ∷ [])) in
        (
          last,
          left,
          turns_step (length ts) (seated p k c queue) (seated p k t (ts ++ us))
              (seated p k last left) false ts (turn_seated c queue t (ts ++ us) hc ht e) run,
          q ∙ append_assoc us (t ∷ []) ts,
        )

    members : All (IsMember p k) (ring p k)
    members = All-intro (IsMember p k) (ring p k) λ t h. h

    first_turn :
        (next : Ptr) (rest : List Ptr)
        → k.mlfqs_list p ++ k.current ∷ [] ≡ next ∷ rest
        → IsMember p k next
        → thread_yield k ≡ ok k.intr.on (seated p k next rest)
    first_turn next rest e hn =
        thread_yield_requeues p k next rest can e (member-Peer next hn).valid
        ∙ ap (λ s. ok k.intr.on (record (seated p k next rest) { threads = s }))
            (ap (λ s. switched s k.current next) (sym (seats_start p k can waits))
              ∙ seats-switched p k k.current next members.0)

    -- After a round the seats are those of the start.
    seated_again :
        (last : Ptr) (left : List Ptr)
        → (left ≡ k.mlfqs_list p) × (last ≡ k.current)
        → seated p k last left ≡ record k { thread_ticks = 0; intr = record k.intr { on = false } }
    seated_again last left (same_queue, same_thread) =
        ap₂ (λ c l. seated p k c l) same_thread same_queue
        ∙ ap₂ (λ s f. record (seated p k k.current []) { threads = s; mlfqs_list = f })
            (seats_start p k can waits) (update_id k.mlfqs_list p)

    -- Under the feedback queues and outside a handler, with a running thread other than the idle
    -- thread, whose `elem` is on no list, the ready threads that wait in the queue of its priority,
    -- and no thread in a higher queue, each of them yielding when it has the CPU: in as many yields
    -- as they are, every one of them gets the CPU once, the waiting threads in the order of the
    -- queue and the running thread last. Then all is as before, but for the count of the time
    -- slice, which starts anew, and for the interrupts, which the yield leaves off.
    pub turns-round :
        turns (suc (length (k.mlfqs_list p))) k
        ≡ ok
            (k.mlfqs_list p ++ k.current ∷ [])
            (record k { thread_ticks = 0; intr = record k.intr { on = false } })
    turns-round =
        let (next, rest, e, size) = first_parts (k.mlfqs_list p) k.current in
        let (hn, hr) : All (IsMember p k) (next ∷ rest) =
          subst (All (IsMember p k)) e (
            All-append (IsMember p k) (k.mlfqs_list p) (k.current ∷ []) members.1
              (members.0, tt)) in
        let (last, left, run, q) = turns-seated rest (next ∷ []) next rest hn hr refl in
        let again =
          seated_again last left (last_parts left (k.mlfqs_list p) last k.current (q ∙ sym e)) in
        ap (λ n. turns (suc n) k) (sym size)
        ∙ turns_step (length rest) k (seated p k next rest) (seated p k last left) k.intr.on rest
            (first_turn next rest e hn) run
        ∙ ap₂ ok (sym e) again
