-- ===== src/Machine/Quiet.antt =====
-- Code that leaves the CPU where it is: the same thread is the current one after it, and the same
-- threads are running. A rule for each way to build such code.
use os_pintos.Base.{
  ℕ, ◌≡◌, refl, ◌∙◌, ap, sym, Bool, true, false, Option, none, some, List, [], ◌∷◌, ◌==◌, arith,
  if◌then◌else◌,
}
use os_pintos.Kernel.{
  Ptr, Thread, Kernel, Outcome, ok, panic, undefined, is_running, set_thread, M, and_then, ◌>>=◌,
  pure, gets, modify, skip, assert, require, or_trap,
}

-- `P` holds of what the code returns and of the state that it leaves, if it returns.
abbrev pub Ends : {A : Type 0} → (A → Kernel → Type 0) → Outcome A → Type 0
Ends P (ok a k) = P a k
Ends P panic = Unit
Ends P undefined = Unit

pub record Same (k k' : Kernel) : Type 0 where
  pub cpu : k'.current ≡ k.current
  pub statuses : (t : Ptr) → is_running (k'.threads t).status ≡ is_running (k.threads t).status

pub record Quiet {A : Type 0} (m : M A) : Type 0 where
  pub at : (k : Kernel) → Ends (λ a. Same k) (m k)

pub Same-refl : (k : Kernel) → Same k k
Same-refl k = record { cpu = refl; statuses = λ t. refl }

pub Same-trans : (k k' k'' : Kernel) → Same k k' → Same k' k'' → Same k k''
Same-trans k k' k'' s s' = record {
  cpu = s'.cpu ∙ s.cpu;
  statuses = λ t. s'.statuses t ∙ s.statuses t;
}

pub Ends-trans :
    {A : Type 0} (k k' : Kernel)
    → Same k k'
    → (o : Outcome A) → Ends (λ a. Same k') o
    → Ends (λ a. Same k) o
Ends-trans k k' s (ok a k'') e = Same-trans k k' k'' s e
Ends-trans k k' s panic e = tt
Ends-trans k k' s undefined e = tt

Ends-and_then :
    {A B : Type 0} (k : Kernel) (f : A → M B)
    → ((a : A) → Quiet (f a))
    → (o : Outcome A) → Ends (λ a. Same k) o
    → Ends (λ b. Same k) (and_then o f)
Ends-and_then k f q (ok a k') e = Ends-trans k k' e (f a k') ((q a).at k')
Ends-and_then k f q panic e = tt
Ends-and_then k f q undefined e = tt

module _ {A : Type 0} where
  pub Quiet-pure : (a : A) → Quiet (pure a)
  Quiet-pure a = record { at = λ k. Same-refl k }

  pub Quiet-gets : (f : Kernel → A) → Quiet (gets f)
  Quiet-gets f = record { at = λ k. Same-refl k }

  pub Quiet-or_trap : (o : Option A) → Quiet (or_trap o)
  Quiet-or_trap none = record { at = λ k. tt }
  Quiet-or_trap (some a) = record { at = λ k. Same-refl k }

  pub Quiet-if : (b : Bool) (m n : M A) → Quiet m → Quiet n → Quiet (if b then m else n)
  Quiet-if true m n p q = p
  Quiet-if false m n p q = q

  -- A test of the state itself.
  pub Quiet-test :
      (b : Kernel → Bool) (m n : M A) → Quiet m → Quiet n → Quiet (λ k. if b k then m k else n k)
  Quiet-test b m n p q = record { at = λ k. go k (b k) }
    where
      go : (k : Kernel) (c : Bool) → Ends (λ a. Same k) (if c then m k else n k)
      go k true = p.at k
      go k false = q.at k

pub Quiet-bind :
    {A B : Type 0} (m : M A) (f : A → M B) → Quiet m → ((a : A) → Quiet (f a)) → Quiet (m >>= f)
Quiet-bind m f p q = record { at = λ k. Ends-and_then k f q (m k) (p.at k) }

pub Quiet-skip : Quiet skip
Quiet-skip = record { at = λ k. Same-refl k }

pub Quiet-assert : (b : Bool) → Quiet (assert b)
Quiet-assert true = record { at = λ k. Same-refl k }
Quiet-assert false = record { at = λ k. tt }

pub Quiet-require : (b : Bool) → Quiet (require b)
Quiet-require true = record { at = λ k. Same-refl k }
Quiet-require false = record { at = λ k. tt }

-- A write to a thread that does not start or stop it.
pub Quiet-write :
    (t : Ptr) (g : Kernel → Thread)
    → ((k : Kernel) → is_running (g k).status ≡ is_running (k.threads t).status)
    → Quiet (modify (λ k. set_thread t (g k) k))
Quiet-write t g h = record { at = λ k. record { cpu = refl; statuses = λ u. ground (arith, h k) } }

-- A write to anything but the threads and the CPU.
pub Quiet-modify :
    (f : Kernel → Kernel)
    → ((k : Kernel) → (f k).threads ≡ k.threads)
    → ((k : Kernel) → (f k).current ≡ k.current)
    → Quiet (modify f)
Quiet-modify f h c = record {
  at = λ k. record { cpu = c k; statuses = λ u. ap (λ s. is_running (s u).status) (h k) };
}

-- A write that depends on a test.
pub running_if :
    (b : Bool) (th r s : Thread)
    → is_running r.status ≡ is_running th.status
    → is_running s.status ≡ is_running th.status
    → is_running (if b then r else s).status ≡ is_running th.status
running_if true th r s p q = p
running_if false th r s p q = q

pub threads_if :
    (b : Bool) (k r s : Kernel)
    → r.threads ≡ k.threads
    → s.threads ≡ k.threads
    → (if b then r else s).threads ≡ k.threads
threads_if true k r s p q = p
threads_if false k r s p q = q

pub current_if :
    (b : Bool) (k r s : Kernel)
    → r.current ≡ k.current
    → s.current ≡ k.current
    → (if b then r else s).current ≡ k.current
current_if true k r s p q = p
current_if false k r s p q = q

pub ruleset quiet_rules = (
  Quiet-pure, Quiet-gets, Quiet-or_trap, Quiet-if, Quiet-bind, Quiet-skip, Quiet-assert,
  Quiet-require, Quiet-write, Quiet-modify, running_if, threads_if, current_if, refl,
)
