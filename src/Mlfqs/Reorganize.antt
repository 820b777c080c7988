-- ===== src/Mlfqs/Reorganize.antt =====
-- `mlfqs_reorganize_queues`: every queued thread goes to the queue of its present priority.
use os_pintos.Base.{
  ℕ, zero, suc, ◌+◌, ◌≤◌, ◌<◌, ◌≡◌, refl, ap, ap₂, sym, ◌∙◌, fun_ext, true, false, Bool-cases, inl,
  inr, arith, ◌==◌, List, [], ◌∷◌, ◌++◌, length, All, All-left, All-right, keep, append_assoc,
  append-nil,
}
use os_pintos.Base.Int.{pos_part}
use os_pintos.Platform.{Platform}
use os_pintos.Kernel.{Ptr, Thread, Kernel, ok, set_queue, update, update_self}
use os_pintos.Mlfqs.{queue_count, drain, drain_from, refill, mlfqs_insert, mlfqs_reorganize_queues}
use os_pintos.Mlfqs.Priority.{InRange}

-- The queue that the priority of a thread names.
abbrev pub slot : Thread → ℕ
slot th = pos_part th.priority

-- A thread whose `elem` is on a list, and whose priority names a queue.
abbrev pub CanQueue : Thread → Type 0
CanQueue th = (th.elem_linked ≡ true) × InRange th.priority

-- The threads of `rounds` queues from queue `i` on, in the order of the queues.
abbrev pub gather : ℕ → ℕ → (ℕ → List Ptr) → List Ptr
gather zero i f = []
gather (suc rounds) i f = f i ++ gather rounds (i + 1) f

abbrev cleared : ℕ → ℕ → (ℕ → List Ptr) → ℕ → List Ptr
cleared zero i f = f
cleared (suc rounds) i f = cleared rounds (i + 1) (update f i [])

-- The queues `f` after the threads of a list have been added, one after the other.
abbrev added : (Ptr → Thread) → List Ptr → (ℕ → List Ptr) → ℕ → List Ptr
added s [] f = f
added s (t ∷ ts) f = added s ts (update f (slot (s t)) (f (slot (s t)) ++ t ∷ []))

abbrev with_queues : (ℕ → List Ptr) → Kernel → Kernel
with_queues f k = record k { mlfqs_list = f }

-- An element that goes from one list to another is linked as before.
relink :
    (s : Ptr → Thread) (t : Ptr)
    → (s t).elem_linked ≡ true
    → update
        (update s t (record (s t) { elem_linked = false }))
        t
        (record (s t) { elem_linked = true })
      ≡ s
relink s t h = fun_ext λ q. ground arith

clear_twice : (f : ℕ → List Ptr) (i : ℕ) (a b : List Ptr) → update (update f i a) i b ≡ update f i b
clear_twice f i a b = fun_ext λ j. ground arith

update_same : (f : ℕ → List Ptr) (i : ℕ) (a : List Ptr) → f i ≡ a → update f i a ≡ f
update_same f i a e = fun_ext λ j. ground arith

gather-update :
    (rounds i j : ℕ) (f : ℕ → List Ptr) (a : List Ptr)
    → j < i
    → gather rounds i (update f j a) ≡ gather rounds i f
gather-update zero i j f a h = refl
gather-update (suc rounds) i j f a h =
    ground (arith, gather-update rounds (i + 1) j f a (omega arith))

cleared_below : (rounds i j : ℕ) (f : ℕ → List Ptr) → j < i → cleared rounds i f j ≡ f j
cleared_below zero i j f h = refl
cleared_below (suc rounds) i j f h =
    cleared_below rounds (i + 1) j (update f i []) (omega arith) ∙ ground arith

cleared_lem :
    (rounds i j : ℕ) (f : ℕ → List Ptr) → i ≤ j → j < i + rounds → cleared rounds i f j ≡ []
cleared_lem zero i j f h b = absurd (omega arith)
cleared_lem (suc rounds) i j f h b = elim (Bool-cases (j == i)) [
  | inl same ↦ cleared_below rounds (i + 1) j (update f i []) (ground arith) ∙ ground arith
  | inr other ↦ cleared_lem rounds (i + 1) j (update f i []) (ground arith) (omega arith)
]

-- Where a thread is added is decided by its priority alone, and order is kept.
added_lem :
    (s : Ptr → Thread) (ts : List Ptr) (f : ℕ → List Ptr) (j : ℕ)
    → added s ts f j ≡ f j ++ keep (λ t. slot (s t) == j) ts
added_lem s [] f j = sym (append-nil (f j))
added_lem s (t ∷ ts) f j =
    added_lem s ts (update f (slot (s t)) (f (slot (s t)) ++ t ∷ [])) j
    ∙ elim (Bool-cases (slot (s t) == j)) [
      | inl same ↦ ground (arith, append_assoc (f j) (t ∷ []) (keep (λ u. slot (s u) == j) ts))
      | inr other ↦ ground arith
    ]

module _ ⦃os : Platform⦄ where
  drain_step :
      (fuel i : ℕ) (temp : List Ptr) (t : Ptr) (rest : List Ptr) (k : Kernel)
      → k.mlfqs_list i ≡ t ∷ rest
      → (k.threads t).elem_linked ≡ true
      → drain (suc fuel) i temp k ≡ drain fuel i (temp ++ t ∷ []) (set_queue i rest k)
  unfolding drain
  drain_step fuel i temp t rest k e h = ground (
    arith,
    os.list_empty_lem (k.mlfqs_list i),
    os.list_pop_front_lem t rest,
    os.list_push_back_lem temp t,
    relink k.threads t h,
  )

  refill_step :
      (fuel : ℕ) (t : Ptr) (rest : List Ptr) (k : Kernel)
      → CanQueue (k.threads t)
      → refill (suc fuel) (t ∷ rest) k
        ≡ refill fuel rest
            (set_queue (slot (k.threads t)) (k.mlfqs_list (slot (k.threads t)) ++ t ∷ []) k)
  unfolding refill mlfqs_insert
  refill_step fuel t rest k h = ground (
    arith,
    os.list_empty_lem (t ∷ rest),
    os.list_pop_front_lem t rest,
    os.list_push_back_lem (k.mlfqs_list (slot (k.threads t))) t,
    relink k.threads t h.0,
  )

  drain_lem :
      (q temp : List Ptr) (i : ℕ) (k : Kernel)
      → k.mlfqs_list i ≡ q
      → All (λ t. CanQueue (k.threads t)) q
      → drain (length q) i temp k ≡ ok (temp ++ q) (set_queue i [] k)
  unfolding drain
  drain_lem [] temp i k e h =
      ap₂ ok (sym (append-nil temp))
        (ap (λ f. with_queues f k) (sym (update_same k.mlfqs_list i [] e)))
  drain_lem (t ∷ rest) temp i k e h =
      drain_step (length rest) i temp t rest k e h.0.0
      ∙ drain_lem rest (temp ++ t ∷ []) i (set_queue i rest k) (update_self k.mlfqs_list i rest) h.1
      ∙ ap₂ ok (append_assoc temp (t ∷ []) rest)
          (ap (λ f. with_queues f k) (clear_twice k.mlfqs_list i rest []))

  drain_from_lem :
      (rounds i : ℕ) (temp : List Ptr) (k : Kernel)
      → All (λ t. CanQueue (k.threads t)) (gather rounds i k.mlfqs_list)
      → drain_from rounds i temp k
        ≡ ok (temp ++ gather rounds i k.mlfqs_list) (with_queues (cleared rounds i k.mlfqs_list) k)
  unfolding drain_from
  drain_from_lem zero i temp k h = ap (λ l. ok l k) (sym (append-nil temp))
  drain_from_lem (suc rounds) i temp k h =
      let q = k.mlfqs_list i in
      let later = gather rounds (i + 1) k.mlfqs_list in
      let same : gather rounds (i + 1) (update k.mlfqs_list i []) ≡ later =
        gather-update rounds (i + 1) i k.mlfqs_list [] (omega arith) in
      let first = drain_lem q temp i k refl (All-left (λ t. CanQueue (k.threads t)) q later h) in
      let rest =
        drain_from_lem rounds (i + 1) (temp ++ q) (set_queue i [] k)
          (rw same (All-right (λ t. CanQueue (k.threads t)) q later h)) in
      let end = with_queues (cleared rounds (i + 1) (update k.mlfqs_list i [])) k in
      rw first
        (rest ∙ ap (λ l. ok l end) (ap (λ l. (temp ++ q) ++ l) same ∙ append_assoc temp q later))

  refill_lem :
      (ts : List Ptr) (k : Kernel)
      → All (λ t. CanQueue (k.threads t)) ts
      → refill (length ts) ts k ≡ ok tt (with_queues (added k.threads ts k.mlfqs_list) k)
  unfolding refill
  refill_lem [] k h = refl
  refill_lem (t ∷ ts) k h =
      refill_step (length ts) t ts k h.0
      ∙ refill_lem ts
          (set_queue (slot (k.threads t)) (k.mlfqs_list (slot (k.threads t)) ++ t ∷ []) k) h.1

  -- If every queued thread is linked into its queue and has a priority from 0 to 63, the
  -- reorganisation ends with each of the 64 queues holding exactly the queued threads whose priority
  -- is the number of the queue, in the order in which they stood in the queues from 0 to 63 before,
  -- and nothing but the queues has changed.
  pub mlfqs_reorganize_queues_lem :
      (k : Kernel)
      → All (λ t. CanQueue (k.threads t)) (gather queue_count 0 k.mlfqs_list)
      → (lists : ℕ → List Ptr) × (mlfqs_reorganize_queues k
          ≡ ok tt (record k { mlfqs_list = lists }))
        × ((j : ℕ)
            → j < queue_count
            → lists j
              ≡ keep
                  (λ t. pos_part (k.threads t).priority == j)
                  (gather queue_count 0 k.mlfqs_list))
  unfolding mlfqs_reorganize_queues
  mlfqs_reorganize_queues_lem k h =
      let ts = gather queue_count 0 k.mlfqs_list in
      let empty = cleared queue_count 0 k.mlfqs_list in
      (
        added k.threads ts empty,
        rw (drain_from_lem queue_count 0 [] k h) (refill_lem ts (with_queues empty k) h),
        λ j b.
            added_lem k.threads ts empty j
            ∙ ap (λ l. l ++ keep (λ t. slot (k.threads t) == j) ts)
                (cleared_lem queue_count 0 j k.mlfqs_list (omega arith) b),
      )
