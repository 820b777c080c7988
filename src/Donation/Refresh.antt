-- ===== src/Donation/Refresh.antt =====
-- `refresh_priority`: the highest of the base priority and the priorities of the waiters.
use os_pintos.Base.{
  ◌≡◌, ◌≢◌, ◌⊎◌, refl, ap, sym, ◌∙◌, fun_ext, true, false, arith, List, [], ◌∷◌, ◌++◌, All, has,
}
use os_pintos.Base.Int.{ℤ, ◌≤ℤ◌}
use os_pintos.Platform.{Platform}
use os_pintos.Kernel.{Ptr, null, Thread, Kernel, ok, update, update_self, update_id, set_thread}
use os_pintos.Mlfqs.Priority.{with_priority}
use os_pintos.Donation.Highest.{
  higher, highest, highest-append, highest_same, highest-le, highest-All, highest_attained,
}
use os_pintos.Donation.{raise_to_waiters, raise_to_locks, refresh_priority}

-- The threads on the waiter lists of some locks.
abbrev pub waiting_for : Kernel → List Ptr → List Ptr
waiting_for k [] = []
waiting_for k (lock ∷ e) = (k.locks lock).waiters ++ waiting_for k e

not_has_append :
    (t : Ptr) (xs ys : List Ptr)
    → has t (xs ++ ys) ≡ false
    → (has t xs ≡ false) × (has t ys ≡ false)
not_has_append t [] ys h = (refl, h)
not_has_append t (x ∷ xs) ys h = ground (arith, not_has_append t xs ys)

waiting_for_same :
    (k : Kernel) (t : Ptr) (th : Thread) (e : List Ptr)
    → waiting_for (set_thread t th k) e ≡ waiting_for k e
waiting_for_same k t th [] = refl
waiting_for_same k t th (lock ∷ e) =
    ap (λ l. (k.locks lock).waiters ++ l) (waiting_for_same k t th e)

-- The state with a new priority for `t`.
abbrev at_priority : Ptr → ℤ → Kernel → Kernel
at_priority t p k = set_thread t (with_priority p (k.threads t)) k

at_priority_id : (t : Ptr) (k : Kernel) → at_priority t (k.threads t).priority k ≡ k
at_priority_id t k = ap (λ s. record k { threads = s }) (update_id k.threads t)

at_priority_twice :
    (t : Ptr) (p q : ℤ) (k : Kernel) → at_priority t q (at_priority t p k) ≡ at_priority t q k
at_priority_twice t p q k = ap (λ s. record k { threads = s }) (fun_ext λ u. ground arith)

raise_step :
    (t w : Ptr) (ws : List Ptr) (k : Kernel)
    → raise_to_waiters t (w ∷ ws) k
      ≡ raise_to_waiters t ws
          (at_priority t (higher (k.threads t).priority (k.threads w).priority) k)
unfolding raise_to_waiters
raise_step t w ws k = ground arith

raise_to_waiters_lem :
    (t : Ptr) (ws : List Ptr) (k : Kernel)
    → has t ws ≡ false
    → raise_to_waiters t ws k
      ≡ ok tt (at_priority t (highest k.threads (k.threads t).priority ws) k)
unfolding raise_to_waiters
raise_to_waiters_lem t [] k h = ap (ok tt) (sym (at_priority_id t k))
raise_to_waiters_lem t (w ∷ ws) k h =
    let p = higher (k.threads t).priority (k.threads w).priority in
    let th = with_priority p (k.threads t) in
    raise_step t w ws k
    ∙ raise_to_waiters_lem t ws (at_priority t p k) (ground arith)
    ∙ ap (ok tt) (
        ap (λ q. at_priority t q (at_priority t p k))
          (ap (λ r. highest (update k.threads t th) r.priority ws) (update_self k.threads t th)
            ∙ highest_same k.threads t th p ws (ground arith))
        ∙ at_priority_twice t p (highest k.threads p ws) k)

-- The outer loop does the same with all the waiters, in any state where `t` alone has changed.
module _ ⦃os : Platform⦄ where
  locks_step :
      (t lock : Ptr) (e : List Ptr) (k : Kernel)
      → has t (k.locks lock).waiters ≡ false
      → raise_to_locks t (lock ∷ e) k
        ≡ raise_to_locks t e
            (at_priority t (highest k.threads (k.threads t).priority (k.locks lock).waiters) k)
  unfolding raise_to_locks
  locks_step t lock e k h = go (k.locks lock).waiters refl h
    where
      go :
          (ws : List Ptr)
          → (k.locks lock).waiters ≡ ws
          → has t ws ≡ false
          → raise_to_locks t (lock ∷ e) k
            ≡ raise_to_locks t e (at_priority t (highest k.threads (k.threads t).priority ws) k)
      go [] q h = ground (arith, os.list_empty_lem (k.locks lock).waiters, at_priority_id t k)
      go (w ∷ ws) q h =
          ground
            (arith, os.list_empty_lem (k.locks lock).waiters, raise_to_waiters_lem t (w ∷ ws) k h)

  raise_to_locks_lem :
      (t : Ptr) (e : List Ptr) (k : Kernel)
      → has t (waiting_for k e) ≡ false
      → raise_to_locks t e k
        ≡ ok tt (at_priority t (highest k.threads (k.threads t).priority (waiting_for k e)) k)
  unfolding raise_to_locks
  raise_to_locks_lem t [] k h = ap (ok tt) (sym (at_priority_id t k))
  raise_to_locks_lem t (lock ∷ e) k h =
      let ws = (k.locks lock).waiters in
      let (out, rest_out) = not_has_append t ws (waiting_for k e) h in
      let p = highest k.threads (k.threads t).priority ws in
      let th = with_priority p (k.threads t) in
      let k' = at_priority t p k in
      let same : waiting_for k' e ≡ waiting_for k e = waiting_for_same k t th e in
      locks_step t lock e k out
      ∙ raise_to_locks_lem t e k' (rw same rest_out)
      ∙ ap (ok tt) (
          ap (λ q. at_priority t q k')
            (ap (λ l. highest (update k.threads t th) (update k.threads t th t).priority l) same
              ∙ ap (λ r. highest (update k.threads t th) r.priority (waiting_for k e))
                  (update_self k.threads t th)
              ∙ highest_same k.threads t th p (waiting_for k e) rest_out
              ∙ sym (highest-append k.threads (k.threads t).priority ws (waiting_for k e)))
          ∙ at_priority_twice t p (highest k.threads (k.threads t).priority (ws ++ waiting_for k e))
              k)

  refresh_start :
      (t : Ptr) (k : Kernel)
      → t ≢ null
      → refresh_priority t k
        ≡ raise_to_locks t (k.threads t).locks_held (at_priority t (k.threads t).base_priority k)
  unfolding refresh_priority
  refresh_start t k h = ground arith

  -- A thread that is on no waiter list of the locks that it holds: the refresh returns, and gives it
  -- the highest of its base priority and the priorities of the waiters of these locks. Its priority
  -- is then at least each of them, and one of them; nothing else has changed.
  pub refresh_priority_lem :
      (t : Ptr) (k : Kernel)
      → t ≢ null
      → has t (waiting_for k (k.threads t).locks_held) ≡ false
      → (p : ℤ) × (refresh_priority t k ≡ ok tt (set_thread t (with_priority p (k.threads t)) k))
        × ((k.threads t).base_priority ≤ℤ p)
        × All (λ w. (k.threads w).priority ≤ℤ p) (waiting_for k (k.threads t).locks_held)
        × ((p ≡ (k.threads t).base_priority)
            ⊎ ((w : Ptr) × (has w (waiting_for k (k.threads t).locks_held) ≡ true)
                × (p ≡ (k.threads w).priority)))
  refresh_priority_lem t k h out =
      let base = (k.threads t).base_priority in
      let th = with_priority base (k.threads t) in
      let e = (k.threads t).locks_held in
      let k' = at_priority t base k in
      let ws = waiting_for k e in
      let same : waiting_for k' e ≡ ws = waiting_for_same k t th e in
      let p = highest k.threads base ws in
      (
        p,
        refresh_start t k h
            ∙ raise_to_locks_lem t e k' (rw same out)
            ∙ ap (ok tt) (
                ap (λ q. at_priority t q k')
                  (ap (λ l. highest (update k.threads t th) (update k.threads t th t).priority l)
                      same
                    ∙ ap (λ r. highest (update k.threads t th) r.priority ws)
                        (update_self k.threads t th)
                    ∙ highest_same k.threads t th base ws out)
                ∙ at_priority_twice t base p k),
        highest-le k.threads base ws,
        highest-All k.threads base ws,
        highest_attained k.threads base ws,
      )

  -- The refresh does not look at the priority that the thread has.
  pub refresh_priority-at_priority :
      (t : Ptr) (p : ℤ) (k : Kernel)
      → t ≢ null
      → refresh_priority t (set_thread t (with_priority p (k.threads t)) k) ≡ refresh_priority t k
  unfolding refresh_priority
  refresh_priority-at_priority t p k h =
      ground (arith, at_priority_twice t p (k.threads t).base_priority k)
