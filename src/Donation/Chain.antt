-- ===== src/Donation/Chain.antt =====
-- `donate_priority` ends, and raises a chain of holders to the priority of the donor.
use os_pintos.Base.{
  ℕ, zero, suc, ◌<◌, ◌≡◌, ◌≢◌, refl, ap, ◌∙◌, fun_ext, Bool, true, false, not, ◌&&◌, Bool-cases,
  inl, inr, arith, if◌then◌else◌, ◌==◌, List, [], ◌∷◌, All, has, subst,
}
use os_pintos.Base.Int.{ℤ, ◌≤ℤ◌, ◌<ℤ◌, ltb_ℤ}
use os_pintos.Kernel.{Ptr, null, Thread, Kernel, ok, update, set_thread}
use os_pintos.Mlfqs.Priority.{with_priority}
use os_pintos.Donation.{donate_priority}
use os_pintos.Donation.Raised.{below, raised, Reached, below-lt, raised_twice, Donated}

module _ (l : List Ptr) where
  -- Every thread that holds a lock is among the threads `l`.
  abbrev pub HoldersIn : Kernel → Type 0
  HoldersIn k = (lock : Ptr) → (k.locks lock).holder ≢ null → has (k.locks lock).holder l ≡ true

  donate_step_stop :
      (depth : ℕ) (donor receiver : Ptr) (k : Kernel)
      → donor ≢ null
      → receiver ≢ null
      → ltb_ℤ (k.threads receiver).priority (k.threads donor).priority ≡ false
      → donate_priority (suc depth) donor receiver k ≡ ok tt k
  unfolding donate_priority
  donate_step_stop depth donor receiver k d r h = ground arith

  abbrev next_holder : Kernel → Ptr → Ptr
  next_holder k t = (k.locks (k.threads t).waiting_lock).holder

  abbrev goes_on : Kernel → Ptr → Bool
  goes_on k t = not ((k.threads t).waiting_lock == null) && not (next_holder k t == null)

  donate_step_go :
      (depth : ℕ) (donor receiver : Ptr) (k : Kernel)
      → donor ≢ null
      → receiver ≢ null
      → ltb_ℤ (k.threads receiver).priority (k.threads donor).priority ≡ true
      → let k1 =
          set_thread receiver (with_priority (k.threads donor).priority (k.threads receiver)) k in
        donate_priority (suc depth) donor receiver k ≡ (
          if goes_on k receiver
          then donate_priority depth receiver (next_holder k receiver) k1
          else ok tt k1)
  unfolding donate_priority
  donate_step_go depth donor receiver k d r h = ground arith

  chain_of_one :
      (k : Kernel) (p : ℤ) (receiver : Ptr)
      → (k.threads receiver).priority <ℤ p
      → goes_on k receiver ≡ false
      → Donated k p receiver (receiver ∷ [])
  chain_of_one k p receiver low stop = record {
    reached = ground arith;
    lower = (low, tt);
    onward = (λ lock holder. ground arith, tt);
  }

  -- Of a chain behind `receiver`, seen from the state in which `receiver` has got its priority.
  lower_before :
      (s : Ptr → Thread) (p : ℤ) (r : Ptr) (chain : List Ptr)
      → All (λ t. (update s r (with_priority p (s r)) t).priority <ℤ p) chain
      → All (λ t. (s t).priority <ℤ p) chain
  lower_before s p r [] h = tt
  lower_before s p r (t ∷ chain) h = (ground arith, lower_before s p r chain h.1)

  same_lock :
      (s : Ptr → Thread) (p : ℤ) (r t : Ptr)
      → (update s r (with_priority p (s r)) t).waiting_lock ≡ (s t).waiting_lock
  same_lock s p r t = ground arith

  Reached-before :
      (k : Kernel) (p : ℤ) (r : Ptr) (s' : Ptr → Thread) (chain : List Ptr)
      → All (Reached (set_thread r (with_priority p (k.threads r)) k) s' p) chain
      → All (Reached k s' p) chain
  Reached-before k p r s' [] h = tt
  Reached-before k p r s' (t ∷ chain) h = (
    subst
        (λ lock.
          lock ≢ null → (k.locks lock).holder ≢ null → p ≤ℤ (s' (k.locks lock).holder).priority)
        (same_lock k.threads p r t) h.0,
    Reached-before k p r s' chain h.1,
  )

  abbrev at_threads : Kernel → ℤ → Ptr → Ptr → Thread
  at_threads k p r = update k.threads r (with_priority p (k.threads r))

  chain_of_more :
      (k : Kernel) (p : ℤ) (receiver : Ptr) (chain : List Ptr)
      → (k.threads receiver).priority <ℤ p
      → Donated
          (set_thread receiver (with_priority p (k.threads receiver)) k)
          p
          (next_holder k receiver)
          chain
      → Donated k p receiver (receiver ∷ chain)
  chain_of_more k p receiver chain low d =
      let same = raised_twice p receiver chain k.threads in
      record {
        reached = ground arith;
        lower = (low, lower_before k.threads p receiver chain d.lower);
        onward = (
          λ lock holder. subst (λ s'. p ≤ℤ (s' (next_holder k receiver)).priority) same d.reached,
          subst (λ s'. All (Reached k s' p) chain) same
              (Reached-before k p receiver (raised p chain (at_threads k p receiver)) chain
                d.onward),
        );
      }

  -- That a donation ends, with its chain.
  abbrev Ends : ℕ → (donor receiver : Ptr) → ℤ → Kernel → Type 0
  Ends depth donor receiver p k =
      (chain : List Ptr) × (donate_priority depth donor receiver k
        ≡ ok tt (record k { threads = raised p chain k.threads }))
      × Donated k p receiver chain

  abbrev raise_one : Kernel → ℤ → Ptr → Kernel
  raise_one k p r = set_thread r (with_priority p (k.threads r)) k

  Ends-raise :
      (depth : ℕ) (donor receiver : Ptr) (p : ℤ) (k : Kernel)
      → (k.threads receiver).priority <ℤ p
      → donate_priority (suc depth) donor receiver k ≡ (
          if goes_on k receiver
          then donate_priority depth receiver (next_holder k receiver) (raise_one k p receiver)
          else ok tt (raise_one k p receiver))
      → (goes_on k receiver ≡ true
          → Ends depth receiver (next_holder k receiver) p (raise_one k p receiver))
      → Ends (suc depth) donor receiver p k
  Ends-raise depth donor receiver p k low step rec = elim (Bool-cases (goes_on k receiver)) [
    | inl more ↦
        let (chain, e, d) = rec more in
        (
          receiver ∷ chain,
          step
              ∙ ap
                  (λ b.
                    if b
                    then donate_priority depth receiver (next_holder k receiver)
                        (raise_one k p receiver)
                    else ok tt (raise_one k p receiver))
                  more
              ∙ e
              ∙ ap (λ s. ok tt (record k { threads = s }))
                  (raised_twice p receiver chain k.threads),
          chain_of_more k p receiver chain low d,
        )
    | inr stop ↦ (
      receiver ∷ [],
      step
          ∙ ap
              (λ b.
                if b
                then donate_priority depth receiver (next_holder k receiver)
                    (raise_one k p receiver)
                else ok tt (raise_one k p receiver))
              stop
          ∙ ap (λ s. ok tt (record k { threads = s })) (fun_ext λ t. ground arith),
      chain_of_one k p receiver low stop,
    )
  ]

  donate_chain :
      (depth : ℕ) (donor receiver : Ptr) (k : Kernel) (p : ℤ)
      → (k.threads donor).priority ≡ p
      → donor ≢ null
      → receiver ≢ null
      → HoldersIn k
      → has receiver l ≡ true
      → below k.threads p l < depth
      → Ends depth donor receiver p k
  donate_chain zero donor receiver k p e d r holders at enough = absurd (omega arith)
  donate_chain (suc depth) donor receiver k p e d r holders at enough =
      elim (Bool-cases (ltb_ℤ (k.threads receiver).priority (k.threads donor).priority)) [
        | inl up ↦
            let low : (k.threads receiver).priority <ℤ p = ground arith in
            Ends-raise depth donor receiver p k low
              (subst
                (λ q. donate_priority (suc depth) donor receiver k ≡ (
                  if goes_on k receiver
                  then donate_priority depth receiver (next_holder k receiver)
                      (raise_one k q receiver)
                  else ok tt (raise_one k q receiver)))
                e (donate_step_go depth donor receiver k d r up))
              (λ more.
                donate_chain depth receiver (next_holder k receiver) (raise_one k p receiver) p
                  (ground arith) r (ground arith) holders
                  (holders (k.threads receiver).waiting_lock (ground arith))
                  (omega (arith, below-lt k.threads p receiver l at low)))
        | inr level ↦ (
          [],
          donate_step_stop depth donor receiver k d r level,
          record { reached = ground arith; lower = tt; onward = tt },
        )
      ]

  -- If every lock is held by one of the threads `l`, a donation to one of them returns, with no more
  -- nested calls than there are threads in `l` of a lower priority than the donor's: the priority
  -- strictly rises along the way, also round a cycle of waiting threads. It gives some chain of
  -- threads, all of a lower priority, the priority of the donor and changes nothing else. After it
  -- neither the receiver nor the holder of a lock that a thread of the chain waits for has a lower
  -- priority than the donor had.
  pub donate_priority_lem :
      (depth : ℕ) (donor receiver : Ptr) (k : Kernel)
      → donor ≢ null
      → receiver ≢ null
      → HoldersIn k
      → has receiver l ≡ true
      → below k.threads (k.threads donor).priority l < depth
      → (chain : List Ptr) × (donate_priority depth donor receiver k
          ≡ ok tt (record k { threads = raised (k.threads donor).priority chain k.threads }))
        × Donated k (k.threads donor).priority receiver chain
  donate_priority_lem depth donor receiver k d r holders at enough =
      donate_chain depth donor receiver k (k.threads donor).priority refl d r holders at enough
