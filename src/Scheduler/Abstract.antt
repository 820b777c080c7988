-- ===== src/Scheduler/Abstract.antt =====
-- What the priority scheduler promises, without the order of the ready list or how it is kept: which
-- thread has the CPU, and which threads are ready.
use os_pintos.Base.{◌<◌, ◌≡◌, ◌⊎◌, [], Option, none, some}
use os_pintos.Base.Int.{ℤ, ◌≤ℤ◌}
use os_pintos.Base.Bag.{Bag, bag_of, put, occurrences}
use os_pintos.Platform.{Platform}
use os_pintos.Kernel.{Ptr, Kernel, Outcome, ok, panic, undefined}
use os_pintos.Scheduler.{thread_unblock, thread_yield, thread_block}

pub record View : Type 0 where
  pub cpu : Ptr
  pub ready : Bag

abbrev pub view : Kernel → View
view k = record { cpu = k.current; ready = bag_of k.ready_list }

-- No thread of the bag has a higher priority than `t`.
abbrev pub IsHighest : (priority : Ptr → ℤ) → Ptr → Bag → Type 0
IsHighest priority t ready = (u : Ptr) → 0 < occurrences u ready → priority u ≤ℤ priority t

pub data Operation : Type 0 where
  unblock : (t : Ptr) → Operation
  yield block : Operation

-- Unblocking makes a thread ready and leaves the CPU alone. Yielding puts the running thread back
-- and takes a thread of the highest priority. Blocking takes one without putting the running thread
-- back; if none is ready the idle thread gets the CPU.
abbrev pub Does : (priority : Ptr → ℤ) (idle : Ptr) → Operation → (before after : View) → Type 0
Does priority idle (Operation.unblock t) v w = (w.cpu ≡ v.cpu) × (w.ready ≡ put t v.ready)
Does priority idle Operation.yield v w =
    (put w.cpu w.ready ≡ put v.cpu v.ready) × IsHighest priority w.cpu w.ready
Does priority idle Operation.block v w =
    ((put w.cpu w.ready ≡ v.ready) × IsHighest priority w.cpu w.ready)
    ⊎ ((v.ready ≡ bag_of []) × ((w.cpu ≡ idle) × (w.ready ≡ bag_of [])))

abbrev pub state_of : {A : Type 0} → Outcome A → Option Kernel
state_of (ok a k) = some k
state_of panic = none
state_of undefined = none

module _ ⦃os : Platform⦄ where
  abbrev pub perform : Operation → Kernel → Option Kernel
  perform (Operation.unblock t) k = state_of (thread_unblock t k)
  perform Operation.yield k = state_of (thread_yield k)
  perform Operation.block k = state_of (thread_block k)
