-- ===== src/Creation/Frames.antt =====
-- `alloc_frame` and `thread_unblock` on a thread that was just written.
use os_pintos.Base.{◌+◌, ◌-◌, ◌%◌, ◌^◌, ◌≤◌, ◌<◌, ◌≡◌, ◌≢◌, false, arith, ℕ}
use os_pintos.Platform.{Platform}
use os_pintos.Kernel.{
  Ptr, null, Thread, ThreadStatus, Kernel, ok, update-update, set_thread, thread_magic,
}
use os_pintos.Current.{is_thread}
use os_pintos.Scheduler.{thread_unblock}
use os_pintos.Scheduler.Ready.{made_ready, inserted, thread_unblock_run}
use os_pintos.Creation.{alloc_frame}

module _ ⦃os : Platform⦄ where
  -- A frame on the stack of a thread that was just written to `t`.
  pub alloc_frame_run :
      (t : Ptr) (size : ℕ) (th : Thread) (k : Kernel)
      → t ≢ null
      → th.magic ≡ thread_magic
      → size % 4 ≡ 0
      → size ≤ th.stack
      → th.stack < 2 ^ 32
      → alloc_frame t size (set_thread t th k)
        ≡ ok tt (set_thread t (record th { stack = th.stack - size }) k)
  unfolding alloc_frame is_thread
  alloc_frame_run t size th k nn magic words room bound =
      ground (arith, update-update k.threads t th (record th { stack = th.stack - size }))

  -- Such a thread is made ready.
  pub unblock_run :
      (t : Ptr) (th : Thread) (k : Kernel)
      → k.thread_mlfqs ≡ false
      → t ≢ null
      → th.magic ≡ thread_magic
      → th.status ≡ ThreadStatus.blocked
      → th.elem_linked ≡ false
      → thread_unblock t (set_thread t th k)
        ≡ ok tt (record (set_thread t (made_ready th) k) {
          ready_list = inserted (set_thread t th k) t;
        })
  unfolding is_thread
  unblock_run t th k mode nn magic asleep free = ground (
    arith,
    thread_unblock_run t (set_thread t th k),
    update-update k.threads t th (made_ready th),
  )

  -- The sizes of the frames that switch.h declares are what a stack of one page can hold.
  pub record FramesFit (t : Ptr) : Type 0 where
    pub entry_words : os.switch_entry_frame % 4 ≡ 0
    pub threads_words : os.switch_threads_frame % 4 ≡ 0
    pub room : 12 + os.switch_entry_frame + os.switch_threads_frame ≤ 4096
    pub bound : t + 4096 < 2 ^ 32

  abbrev pub frame_bytes : ℕ
  frame_bytes = 12 + os.switch_entry_frame + os.switch_threads_frame
