-- ===== src/Scheduler/Tick.antt =====
-- `thread_tick`: the time slice of a thread.
use os_pintos.Base.{
  ℕ, zero, suc, ap, ◌∙◌, ◌+◌, ◌%◌, ◌^◌, ◌<◌, ◌≡◌, refl, true, false, not, ◌&&◌, ◌==◌, leb, arith,
  if◌then◌else◌,
}
use os_pintos.Base.Int.{pos, ◌+ℤ◌, wrap64}
use os_pintos.FixedPoint.{fp_add_int}
use os_pintos.Platform.{Platform}
use os_pintos.Kernel.{null, Thread, Kernel, M, ok, and_then, skip, modify, ◌>>◌, set_thread}
use os_pintos.Current.{is_thread}
use os_pintos.Mlfqs.Queues.{IsCurrent}
use os_pintos.Scheduler.{thread_tick}

-- The running thread with the use of the CPU that it is charged for.
abbrev pub charged : Kernel → Thread
charged k =
    let th = k.threads k.current in
    if k.thread_mlfqs && not (k.current == k.idle_thread)
    then record th { recent_cpu = fp_add_int th.recent_cpu (pos 1) }
    else th

-- The state in which the handler of an interrupt starts.
abbrev pub interrupted : Kernel → Kernel
interrupted k = record k { intr = record { on = false; context = true; yield_on_return = false } }

module _ ⦃os : Platform⦄ where
  abbrev pub ticked : Kernel → Kernel
  ticked k =
      let n = (k.thread_ticks + 1) % 2 ^ 32 in
      let i = k.intr in
      let c =
        if k.current == k.idle_thread
        then record k { idle_ticks = wrap64 (k.idle_ticks +ℤ pos 1) }
        else if not ((k.threads k.current).pagedir == null)
        then record k { user_ticks = wrap64 (k.user_ticks +ℤ pos 1) }
        else record k { kernel_ticks = wrap64 (k.kernel_ticks +ℤ pos 1) } in
      record (set_thread k.current (charged k) c) {
        thread_ticks = n;
        intr = if leb 4 n then record i { yield_on_return = true } else i;
      }

  thread_tick_run : (k : Kernel) → IsCurrent k → thread_tick k ≡ ok tt (ticked k)
  unfolding thread_tick
  thread_tick_run k cur = ground (arith, os.intr_yield_on_return_lem k.intr)

  -- A running thread has had `n` ticks of its slice, and the last of them has asked for a yield if it
  -- is not one of the first three.
  pub record InSlice (k : Kernel) (n : ℕ) : Type 0 where
    pub current : IsCurrent k
    pub slice : k.thread_ticks ≡ n
    pub asked : k.intr.yield_on_return ≡ leb 4 n

  ticked-InSlice :
      (k : Kernel) (n : ℕ) → suc n < 2 ^ 32 → InSlice k n → InSlice (ticked (interrupted k)) (suc n)
  unfolding is_thread
  ticked-InSlice k n bound h = record {
    current = (ground arith, ground arith);
    slice = ground arith;
    asked = ground arith;
  }

  -- `n` interrupts of the timer: each enters its handler with no yield asked for.
  abbrev pub ticks : ℕ → M (Unit {0})
  ticks zero = skip
  ticks (suc n) = do ticks n; modify interrupted; thread_tick

  -- A thread at the start of its time slice, with no yield asked for, and any number of ticks below
  -- 2^32, each in a handler of its own that starts with no yield asked for: all return, the slice has
  -- counted them, the thread is still the running one, and the last handler has asked for a yield on
  -- its return if and only if it is the fourth or a later one. So every tick from the fourth on asks.
  pub thread_tick-ticks :
      (n : ℕ) (k : Kernel)
      → n < 2 ^ 32
      → InSlice k 0
      → (k' : Kernel) × (ticks n k ≡ ok tt k') × InSlice k' n × (k'.current ≡ k.current)
  unfolding is_thread
  thread_tick-ticks zero k bound h = (k, refl, h, refl)
  thread_tick-ticks (suc n) k bound h =
      let (k', run, i, same) = thread_tick-ticks n k (omega arith) h in
      (
        ticked (interrupted k'),
        ap (λ o. and_then o (λ _. modify interrupted >> thread_tick)) run
            ∙ thread_tick_run (interrupted k') i.current,
        ticked-InSlice k' n bound i,
        ground arith,
      )
