-- ===== src/Kernel/Monad.antt =====
-- Kernel code as a state transformer that may stop: an ASSERT that fails panics, and what C or the
-- list library leaves undefined has no outcome of its own.
use os_pintos.Base.{Bool, true, false, Option, none, some}
use os_pintos.Kernel.State.{Kernel}

pub data Outcome (A : Type 0) : Type 0 where
  ok : A → Kernel → Outcome A
  panic : Outcome A
  undefined : Outcome A

abbrev pub M : Type 0 → Type 0
M A = Kernel → Outcome A

abbrev pub and_then : {A B : Type 0} → Outcome A → (A → M B) → Outcome B
and_then (ok a k) f = f a k
and_then panic f = panic
and_then undefined f = undefined

infixl 5 ◌>>=◌ ◌>>◌
abbrev pub ◌>>=◌ : {A B : Type 0} → M A → (A → M B) → M B
◌>>=◌ m f k = and_then (m k) f

abbrev pub ◌>>◌ : {B : Type 0} → M (Unit {0}) → M B → M B
m >> n = m >>= λ _. n

abbrev pub pure : {A : Type 0} → A → M A
pure a k = ok a k

abbrev pub gets : {A : Type 0} → (Kernel → A) → M A
gets f k = ok (f k) k

abbrev pub modify : (Kernel → Kernel) → M (Unit {0})
modify f k = ok tt (f k)

abbrev pub skip : M (Unit {0})
skip k = ok tt k

-- ASSERT
abbrev pub assert : Bool → M (Unit {0})
assert true k = ok tt k
assert false k = panic

-- A requirement of C or of the list library.
abbrev pub require : Bool → M (Unit {0})
require true k = ok tt k
require false k = undefined

-- A division that may trap.
abbrev pub or_trap : {A : Type 0} → Option A → M A
or_trap (some a) k = ok a k
or_trap none k = undefined
