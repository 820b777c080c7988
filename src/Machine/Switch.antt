-- ===== src/Machine/Switch.antt =====
-- Exactly one thread is running, the current one: what the code that switches threads does to this.
use os_pintos.Base.{◌≡◌, ◌≢◌, subst, sym, ◌∙◌, Bool, true, false, arith, if◌then◌else◌}
use os_pintos.Kernel.{
  Ptr, Thread, Kernel, Outcome, ok, panic, undefined, is_running, set_thread, M, and_then, ◌>>=◌,
  modify,
}
use os_pintos.Machine.Quiet.{Ends, Same, Quiet}

-- The CPU runs on the stack of `c`, and no other thread has the status of a running one.
pub record AtMost (c : Ptr) (k : Kernel) : Type 0 where
  pub cpu : k.current ≡ c
  pub only : (t : Ptr) → is_running (k.threads t).status ≡ true → t ≡ c

-- And `c` itself has it.
pub record Exactly (c : Ptr) (k : Kernel) : Type 0 where
  pub most : AtMost c k
  pub runs : is_running (k.threads c).status ≡ true

pub AtMost-Same : (c : Ptr) (k k' : Kernel) → Same k k' → AtMost c k → AtMost c k'
AtMost-Same c k k' s h = record {
  cpu = s.cpu ∙ h.cpu;
  only = λ t r. h.only t (sym (s.statuses t) ∙ r);
}

pub Exactly-Same : (c : Ptr) (k k' : Kernel) → Same k k' → Exactly c k → Exactly c k'
Exactly-Same c k k' s h = record {
  most = AtMost-Same c k k' s h.most;
  runs = s.statuses c ∙ h.runs;
}

-- The code keeps `P`.
pub record Keeps {A : Type 0} (P : Kernel → Type 0) (m : M A) : Type 0 where
  pub at : (k : Kernel) → P k → Ends (λ a. P) (m k)

pub Ends-keeps :
    {A B : Type 0} (P Q : Kernel → Type 0) (f : A → M B)
    → ((a : A) (k : Kernel) → P k → Ends (λ b. Q) (f a k))
    → (o : Outcome A) → Ends (λ a. P) o
    → Ends (λ b. Q) (and_then o f)
Ends-keeps P Q f h (ok a k) e = h a k e
Ends-keeps P Q f h panic e = tt
Ends-keeps P Q f h undefined e = tt

pub Ends-Same :
    {A : Type 0} (P : Kernel → Type 0)
    → ((k k' : Kernel) → Same k k' → P k → P k')
    → (k : Kernel) → P k
    → (o : Outcome A) → Ends (λ a. Same k) o
    → Ends (λ a. P) o
Ends-Same P stable k p (ok a k') e = stable k k' e p
Ends-Same P stable k p panic e = tt
Ends-Same P stable k p undefined e = tt

pub Keeps-bind :
    {A B : Type 0} (P : Kernel → Type 0) (m : M A) (f : A → M B)
    → Keeps P m
    → ((a : A) → Keeps P (f a))
    → Keeps P (m >>= f)
Keeps-bind P m f p q = record { at = λ k h. Ends-keeps P P f (λ a. (q a).at) (m k) (p.at k h) }

pub Keeps-if :
    {A : Type 0} (P : Kernel → Type 0) (b : Bool) (m n : M A)
    → Keeps P m
    → Keeps P n
    → Keeps P (if b then m else n)
Keeps-if P true m n p q = p
Keeps-if P false m n p q = q

module _ {A : Type 0} (c : Ptr) (m : M A) where
  pub AtMost-Quiet : Quiet m → Keeps (AtMost c) m
  AtMost-Quiet q = record { at = λ k h. Ends-Same (AtMost c) (AtMost-Same c) k h (m k) (q.at k) }

  pub Exactly-Quiet : Quiet m → Keeps (Exactly c) m
  Exactly-Quiet q = record { at = λ k h. Ends-Same (Exactly c) (Exactly-Same c) k h (m k) (q.at k) }

-- A write that leaves a thread stopped, to any thread, and to one that is not the current.
pub AtMost-write :
    (c t : Ptr) (g : Kernel → Thread)
    → ((k : Kernel) → is_running (g k).status ≡ false)
    → Keeps (AtMost c) (modify (λ k. set_thread t (g k) k))
AtMost-write c t g stopped = record {
  at = λ k h. record { cpu = h.cpu; only = λ u r. ground (arith, h.only u, stopped k) };
}

pub Exactly-write :
    (c t : Ptr) (g : Kernel → Thread)
    → t ≢ c
    → ((k : Kernel) → is_running (g k).status ≡ false)
    → Keeps (Exactly c) (modify (λ k. set_thread t (g k) k))
Exactly-write c t g other stopped = record {
  at = λ k h. record {
    most = record { cpu = h.most.cpu; only = λ u r. ground (arith, h.most.only u, stopped k) };
    runs = ground (arith, h.runs);
  };
}

-- Once the current thread of `k` may have stopped, the code leaves some thread running.
pub record Settles {A : Type 0} (m : M A) : Type 0 where
  pub at : (c : Ptr) (k : Kernel) → AtMost c k → Ends (λ a k'. Exactly k'.current k') (m k)

pub Settles-after :
    {A B : Type 0} (m : M A) (f : A → M B)
    → ((c : Ptr) → Keeps (AtMost c) m)
    → ((a : A) → Settles (f a))
    → Settles (m >>= f)
Settles-after m f p q = record {
  at = λ c k h.
      Ends-keeps (AtMost c) (λ k'. Exactly k'.current k') f (λ a k'. (q a).at c k') (m k)
        ((p c).at k h);
}

pub ExactlyOne-Same : (k k' : Kernel) → Same k k' → Exactly k.current k → Exactly k'.current k'
ExactlyOne-Same k k' s h = subst (λ c. Exactly c k') (sym s.cpu) (Exactly-Same k.current k k' s h)

pub Settles-before :
    {A B : Type 0} (m : M A) (f : A → M B) → Settles m → ((a : A) → Quiet (f a)) → Settles (m >>= f)
Settles-before m f p q = record {
  at = λ c k h.
      Ends-keeps (λ k'. Exactly k'.current k') (λ k'. Exactly k'.current k') f
        (λ a k' e.
          Ends-Same (λ k''. Exactly k''.current k'') ExactlyOne-Same k' e (f a k') ((q a).at k'))
        (m k) (p.at c k h);
}

-- From a state in which exactly the current thread runs to another one.
pub record Steady {A : Type 0} (m : M A) : Type 0 where
  pub at : (k : Kernel) → Exactly k.current k → Ends (λ a k'. Exactly k'.current k') (m k)

module _ {A : Type 0} where
  pub Steady-Quiet : (m : M A) → Quiet m → Steady m
  Steady-Quiet m q = record {
    at = λ k h. Ends-Same (λ k'. Exactly k'.current k') ExactlyOne-Same k h (m k) (q.at k);
  }

  pub Steady-Settles : (m : M A) → Settles m → Steady m
  Steady-Settles m s = record { at = λ k h. s.at k.current k h.most }

  pub Steady-if : (b : Bool) (m n : M A) → Steady m → Steady n → Steady (if b then m else n)
  Steady-if true m n p q = p
  Steady-if false m n p q = q

pub Steady-bind :
    {A B : Type 0} (m : M A) (f : A → M B) → Steady m → ((a : A) → Steady (f a)) → Steady (m >>= f)
Steady-bind m f p q = record {
  at = λ k h.
      Ends-keeps (λ k'. Exactly k'.current k') (λ k'. Exactly k'.current k') f (λ a. (q a).at) (m k)
        (p.at k h);
}

pub ruleset steady_rules = (Steady-Quiet, Steady-Settles, Steady-if, Steady-bind)
