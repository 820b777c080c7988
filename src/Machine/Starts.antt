-- ===== src/Machine/Starts.antt =====
-- The functions that may switch threads, and those that start them.
use os_pintos.Base.{ℕ, ◌≢◌, refl, sym, subst, Bool, arith, List}
use os_pintos.Base.Int.{ℤ}
use os_pintos.Platform.{Platform}
use os_pintos.Kernel.{Ptr, ThreadStatus, Kernel, pure, modify, ◌>>=◌, ◌>>◌}
use os_pintos.Call.{Call}
use os_pintos.Machine.Quiet.{Ends, Quiet, quiet_rules}
use os_pintos.Machine.Calls.{current_rules, mlfqs_update_priority-Quiet, mlfqs_init-Quiet}
use os_pintos.Machine.Switch.{
  AtMost, Exactly, Keeps, Settles, Steady, steady_rules, Exactly-Quiet, AtMost-Quiet, Exactly-write,
  AtMost-write, Keeps-bind, Keeps-if, Settles-after, Ends-keeps,
}
use os_pintos.Current.{running_thread, modify_thread}
use os_pintos.Machine.Schedule.{thread_block-Settles}
use os_pintos.Machine.Parts
use os_pintos.Synch.{sema_down_loop}
use os_pintos.Timer.{timer_sleep, insert_sleeper}
use os_pintos.Creation.{
  alloc_frame, take_tid, tid_taken, tid_given, main_tid_taken, main_tid_given, idle, idle_loop,
  kernel_thread, thread_start, inherit, init_thread, thread_create, thread_init,
}

ruleset calm = (steady_rules, current_rules)

alloc_frame-Quiet : (t : Ptr) (size : ℕ) → Quiet (alloc_frame t size)
unfolding alloc_frame
alloc_frame-Quiet t size = search quiet_rules depth 20

module _ ⦃os : Platform⦄ where
  pub sema_down_loop-Steady : (s : Ptr) (old_level : Bool) → Steady (sema_down_loop s old_level)
  unfolding sema_down_loop
  sema_down_loop-Steady s old_level = search (calm, thread_block-Settles) depth 20

  pub insert_sleeper-Quiet : (cur : Ptr) → Quiet (insert_sleeper cur)
  unfolding insert_sleeper
  insert_sleeper-Quiet cur = search quiet_rules depth 20

  pub timer_sleep-Steady : (ticks : ℤ) → Steady (timer_sleep ticks)
  unfolding timer_sleep
  timer_sleep-Steady ticks =
      search (calm, thread_block-Settles, insert_sleeper-Quiet, Parts.timer_ticks-Quiet) depth 20

  pub tid_taken-Quiet : (t function aux : Ptr) → Quiet (tid_taken t function aux)
  unfolding tid_taken take_tid
  tid_taken-Quiet t function aux = search quiet_rules depth 20

  pub tid_given-Quiet :
      (t : Ptr) (tid : ℤ) (function aux : Ptr) → Quiet (tid_given t tid function aux)
  unfolding tid_given
  tid_given-Quiet t tid function aux =
      search (quiet_rules, alloc_frame-Quiet, Parts.thread_unblock-Quiet) depth 20

  pub idle_loop-Steady : Steady idle_loop
  unfolding idle_loop
  idle_loop-Steady = search (calm, thread_block-Settles) depth 20

  pub inherit-Quiet : (t : Ptr) → Quiet (inherit t)
  unfolding inherit
  inherit-Quiet t = search (current_rules, mlfqs_update_priority-Quiet) depth 20

  ruleset birth = (
    Keeps-bind, Keeps-if, Exactly-Quiet, AtMost-Quiet, Exactly-write, AtMost-write, inherit-Quiet,
    quiet_rules,
  )

  -- A new thread is stopped; it is not the current one if the page is another.
  pub init_thread-Exactly :
      (c t : Ptr) (name : List ℕ) (p : ℤ) → t ≢ c → Keeps (Exactly c) (init_thread t name p)
  unfolding init_thread
  init_thread-Exactly c t name p other = search birth depth 20

  init_thread-AtMost : (c t : Ptr) (name : List ℕ) (p : ℤ) → Keeps (AtMost c) (init_thread t name p)
  unfolding init_thread
  init_thread-AtMost c t name p = search birth depth 20

  pub thread_create-Exactly :
      (c : Ptr) (name : List ℕ) (p : ℤ) (function aux t : Ptr)
      → t ≢ c
      → Keeps (Exactly c) (thread_create name p function aux t)
  unfolding thread_create
  thread_create-Exactly c name p function aux t other = search (init_thread-Exactly, birth) depth 20

  pub thread_start-Quiet : (f s page : Ptr) → Quiet (thread_start f s page)
  unfolding thread_start
  thread_start-Quiet f s page = search (quiet_rules, Parts.sema_init-Quiet) depth 20

  pub kernel_thread-Quiet : (f : Ptr) (body : List Call) → Quiet (kernel_thread f body)
  unfolding kernel_thread
  kernel_thread-Quiet f body = search quiet_rules depth 20

  pub idle-Quiet : (s : Ptr) → Quiet (idle s)
  unfolding idle
  idle-Quiet s = search current_rules depth 20

  pub main_tid_taken-Quiet : Quiet main_tid_taken
  unfolding main_tid_taken take_tid
  main_tid_taken-Quiet = search quiet_rules depth 20

  pub main_tid_given-Quiet : (tid : ℤ) → Quiet (main_tid_given tid)
  unfolding main_tid_given
  main_tid_given-Quiet tid = search quiet_rules depth 20

  -- The initial thread is stopped while its structure is set up, and then runs.
  main_Settled :
      (c : Ptr) (left : List Call) (k : Kernel)
      → AtMost c k
      → Ends
          (λ u k'. Exactly k'.current k')
          ((do modify_thread c (λ r. record r { status = ThreadStatus.running }); pure left) k)
  main_Settled c left k h = record {
    most = record { cpu = refl; only = λ t r. ground (arith, h.cpu, h.only t) };
    runs = ground (arith, h.cpu);
  }

  main_block-Settled :
      (c : Ptr) (name : List ℕ) (p : ℤ) (left : List Call) (k : Kernel)
      → AtMost c k
      → Ends
          (λ u k'. Exactly k'.current k')
          ((do
            modify (λ k. record k { initial_thread = c })
            init_thread c name p
            modify_thread c (λ r. record r { status = ThreadStatus.running })
            pure left)
            k)
  main_block-Settled c name p left k h =
      let k' = record k { initial_thread = c } in
      let h' : AtMost c k' = record { cpu = h.cpu; only = h.only } in
      Ends-keeps (AtMost c) (λ k''. Exactly k''.current k'') _ (λ u. main_Settled c left)
        (init_thread c name p k') ((init_thread-AtMost c c name p).at k' h')

  pub main_block-Settles :
      (name : List ℕ) (p : ℤ) (left : List Call)
      → Settles (do
        t ← running_thread
        modify (λ k. record k { initial_thread = t })
        init_thread t name p
        modify_thread t (λ r. record r { status = ThreadStatus.running })
        pure left)
  unfolding running_thread
  main_block-Settles name p left = record {
    at = λ c k h.
        subst
          (λ t.
            Ends (λ u k'. Exactly k'.current k')
              ((do
                modify (λ k. record k { initial_thread = t })
                init_thread t name p
                modify_thread t (λ r. record r { status = ThreadStatus.running })
                pure left)
                k))
          (sym h.cpu) (main_block-Settled c name p left k h);
  }

  pub thread_init-Settles : Settles thread_init
  unfolding thread_init
  thread_init-Settles =
      search (Settles-after, main_block-Settles, birth, Parts.lock_init-Quiet, mlfqs_init-Quiet)
        depth 20
