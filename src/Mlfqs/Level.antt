-- ===== src/Mlfqs/Level.antt =====
-- The feedback queues with the highest thread at a known level.
use os_pintos.Base.{
  ℕ, suc, ◌≤◌, ◌<◌, ◌≡◌, ◌≢◌, sym, ap, ap₂, ◌∙◌, true, false, inl, inr, Bool-cases, arith, ◌==◌,
  leb, List, [], ◌∷◌, ◌++◌, no_cons, cons_parts,
}
use os_pintos.Base.Int.{pos}
use os_pintos.Platform.{Platform}
use os_pintos.Kernel.{Ptr, ok, Kernel, update, set_queue}
use os_pintos.Elem.{set_linked}
use os_pintos.Mlfqs.{queue_count, mlfqs_insert, mlfqs_next_thread_to_run}
use os_pintos.Mlfqs.Queues.{NoneBetween, Found, mlfqs_next_thread_to_run_lem}

pub above_update :
    (f : ℕ → List Ptr) (p : ℕ) (queue : List Ptr) (j : ℕ)
    → suc p ≤ j
    → f j ≡ []
    → update f p queue j ≡ []
above_update f p queue j h e = ground arith

module _ ⦃os : Platform⦄ where
  pub next_of_level :
      (k : Kernel) (p : ℕ) (next : Ptr) (rest : List Ptr)
      → p < queue_count
      → NoneBetween k (suc p) queue_count
      → k.mlfqs_list p ≡ next ∷ rest
      → mlfqs_next_thread_to_run k ≡ ok next (set_queue p rest (set_linked false next k))
  next_of_level k p next rest bound none_above e = the_level (mlfqs_next_thread_to_run_lem k)
    where
      chosen :
          {i : ℕ} {t : Ptr} {r : List Ptr}
          → i ≡ p
          → k.mlfqs_list i ≡ t ∷ r
          → mlfqs_next_thread_to_run k ≡ ok t (set_queue i r (set_linked false t k))
          → mlfqs_next_thread_to_run k ≡ ok next (set_queue p rest (set_linked false next k))
      chosen {i} {t} {r} same q run =
          let parts = cons_parts (sym q ∙ ap k.mlfqs_list same ∙ e) in
          run
          ∙ ap₂ (λ u l. ok u (set_queue i l (set_linked false u k))) parts.0 parts.1
          ∙ ap (λ j. ok next (set_queue j rest (set_linked false next k))) same

      other_level :
          {i : ℕ} {t : Ptr} {r : List Ptr}
          → i ≢ p
          → i < queue_count
          → NoneBetween k (suc i) queue_count
          → k.mlfqs_list i ≡ t ∷ r
          → ⊥
      other_level {i} other below none q = elim (Bool-cases (leb i p)) [
        | inl low ↦ no_cons (none p (ground arith) bound) e
        | inr high ↦ no_cons (none_above i (ground arith) below) q
      ]

      the_level :
          Found k queue_count (mlfqs_next_thread_to_run k)
          → mlfqs_next_thread_to_run k ≡ ok next (set_queue p rest (set_linked false next k))
      the_level (Found.none_ready none run) = absurd (no_cons (none p (omega arith) bound) e)
      the_level (Found.front i t r below none q run) = elim (Bool-cases (i == p)) [
        | inl same ↦ chosen (ground arith) q run
        | inr other ↦ absurd (other_level (λ same. ground arith) below none q)
      ]

  pub mlfqs_insert_level :
      (p : ℕ) (k : Kernel)
      → p < queue_count
      → (k.threads k.current).priority ≡ pos p
      → (k.threads k.current).elem_linked ≡ false
      → mlfqs_insert k.current k
        ≡ ok tt (set_queue p (k.mlfqs_list p ++ k.current ∷ []) (set_linked true k.current k))
  unfolding mlfqs_insert
  mlfqs_insert_level p k bound level free =
      ground (arith, os.list_push_back_lem (k.mlfqs_list p) k.current)
