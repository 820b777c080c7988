-- ===== src/Mlfqs/Queues.antt =====
-- The feedback queues: which thread comes next, and how many are ready.
use os_pintos.Base.{
  ℕ, zero, suc, ◌+◌, ◌≤◌, ◌<◌, ◌≡◌, refl, ap, ◌∙◌, true, false, Bool-cases, inl, inr, ◌⊎◌, arith,
  if◌then◌else◌, ◌==◌, List, [], ◌∷◌, length,
}
use os_pintos.Base.Int.{pos}
use os_pintos.Platform.{Platform}
use os_pintos.Kernel.{Ptr, Kernel, Outcome, ok, set_queue, is_running}
use os_pintos.Elem.{set_linked}
use os_pintos.Current.{is_thread}
use os_pintos.Mlfqs.{
  queue_count, next_below, mlfqs_next_thread_to_run, ready_below, mlfqs_ready_threads,
}

-- No queue from `low` up to, but not with, `high` holds a thread.
abbrev pub NoneBetween : Kernel → (low high : ℕ) → Type 0
NoneBetween k low high = (j : ℕ) → low ≤ j → j < high → k.mlfqs_list j ≡ []

-- What the search for the next thread may come to, from queue `n` down: the front of the highest
-- queue that holds a thread, taken off it, or the idle thread if none does.
pub data Found (k : Kernel) (n : ℕ) (result : Outcome Ptr) : Type 0 where
  front :
      (i : ℕ) (t : Ptr) (rest : List Ptr)
      → i < n
      → NoneBetween k (suc i) n
      → k.mlfqs_list i ≡ t ∷ rest
      → result ≡ ok t (set_queue i rest (set_linked false t k))
      → Found k n result
  none_ready : NoneBetween k 0 n → result ≡ ok k.idle_thread k → Found k n result

pub List-cases : {A : Type 0} (l : List A) → (l ≡ []) ⊎ ((x : A) × (r : List A) × (l ≡ x ∷ r))
List-cases [] = inl refl
List-cases (x ∷ r) = inr (x, r, refl)

pub extend :
    (k : Kernel) (low n : ℕ) → NoneBetween k low n → k.mlfqs_list n ≡ [] → NoneBetween k low (suc n)
extend k low n h e j a b = elim (Bool-cases (j == n)) [
  | inl same ↦ ap k.mlfqs_list (ground arith) ∙ e
  | inr other ↦ h j a (ground arith)
]

Found-suc :
    (k : Kernel) (n : ℕ) (result : Outcome Ptr)
    → k.mlfqs_list n ≡ []
    → Found k n result
    → Found k (suc n) result
Found-suc k n result e (front i t rest below none_above q r) =
    front i t rest (omega arith) (extend k (suc i) n none_above e) q r
Found-suc k n result e (none_ready none_at_all r) = none_ready (extend k 0 n none_at_all e) r

-- The threads in the queues below `n`.
abbrev pub queued : ℕ → Kernel → ℕ
queued zero k = 0
queued (suc n) k = queued n k + length (k.mlfqs_list n)

-- The running thread as `thread_current` wants it.
abbrev pub IsCurrent : Kernel → Type 0
IsCurrent k = (is_thread k.current k ≡ true) × (is_running (k.threads k.current).status ≡ true)

-- The threads that are ready to run or run, the idle thread left out.
abbrev pub ready_count : Kernel → ℕ
ready_count k = queued 64 k + (if k.current == k.idle_thread then 0 else 1)

module _ ⦃os : Platform⦄ where
  next_below-Found : (n : ℕ) (k : Kernel) → Found k n (next_below n k)
  unfolding next_below
  next_below-Found zero k = none_ready (λ j a b. absurd (omega arith)) refl
  next_below-Found (suc n) k = elim (List-cases (k.mlfqs_list n)) [
    | inl e ↦
        let q : next_below (suc n) k ≡ next_below n k =
          ground (arith, os.list_empty_lem (k.mlfqs_list n)) in
        rw q (Found-suc k n (next_below n k) e (next_below-Found n k))
    | inr (t, rest, e) ↦
        front n t rest (omega arith) (λ j a b. absurd (omega arith)) e
          (ground (arith, os.list_empty_lem (k.mlfqs_list n), os.list_pop_front_lem t rest))
  ]

  -- The scheduler of the feedback queues always returns: with the front of the highest queue that
  -- holds a thread, which it takes off that queue, and if all 64 queues are empty with the idle
  -- thread, and then it changes nothing.
  pub mlfqs_next_thread_to_run_lem : (k : Kernel) → Found k queue_count (mlfqs_next_thread_to_run k)
  unfolding mlfqs_next_thread_to_run
  mlfqs_next_thread_to_run_lem k = next_below-Found queue_count k

  ready_below-eq-queued : (n : ℕ) (k : Kernel) → ready_below n k ≡ queued n k
  unfolding ready_below
  ready_below-eq-queued zero k = refl
  ready_below-eq-queued (suc n) k =
      omega (arith, ready_below-eq-queued n k, os.list_size_lem (k.mlfqs_list n))

  pub mlfqs_ready_threads_lem :
      (k : Kernel) → IsCurrent k → mlfqs_ready_threads k ≡ ok (pos (ready_count k)) k
  unfolding mlfqs_ready_threads
  mlfqs_ready_threads_lem k cur = ground (arith, ready_below-eq-queued queue_count k)
