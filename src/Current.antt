-- ===== src/Current.antt =====
-- threads/thread.c: the running thread, and the walk over all threads.
use os_pintos.Base.{ℕ, Bool, not, ◌&&◌, List, [], ◌∷◌, ◌==◌}
use os_pintos.Base.Int.{ℤ}
use os_pintos.Kernel.{
  Ptr, null, Thread, Kernel, thread_magic, is_running, set_thread, M, ◌>>=◌, ◌>>◌, gets, modify,
  assert, pure, skip,
}

-- T seems to point to a valid thread.
unfoldable pub is_thread : Ptr → Kernel → Bool
is_thread t k = not (t == null) && (k.threads t).magic == thread_magic

unfoldable pub running_thread : M Ptr
running_thread = gets (λ k. k.current)

unfoldable pub thread_current : M Ptr
unfolding running_thread is_thread
thread_current = do
  t ← running_thread
  assert (← gets (is_thread t))
  assert (is_running (← gets (λ k. (k.threads t).status)))
  pure t

unfoldable pub thread_tid : M ℤ
unfolding thread_current
thread_tid = do t ← thread_current; gets (λ k. (k.threads t).tid)

unfoldable pub thread_name : M (List ℕ)
unfolding thread_current
thread_name = do t ← thread_current; gets (λ k. (k.threads t).name)

unfoldable pub thread_get_priority : M ℤ
unfolding thread_current
thread_get_priority = do t ← thread_current; gets (λ k. (k.threads t).priority)

unfoldable pub thread_get_nice : M ℤ
unfolding thread_current
thread_get_nice = do t ← thread_current; gets (λ k. (k.threads t).nice)

-- A write to one member of a thread.
abbrev pub modify_thread : Ptr → (Thread → Thread) → M (Unit {0})
modify_thread t f = modify (λ k. set_thread t (f (k.threads t)) k)

-- The loop of `thread_foreach`, over the elements from `e` to the end of `all_list`.
unfoldable pub foreach_from : List Ptr → (Ptr → M (Unit {0})) → M (Unit {0})
foreach_from [] func = skip
foreach_from (t ∷ e) func = do func t; foreach_from e func

unfoldable pub thread_foreach : (Ptr → M (Unit {0})) → M (Unit {0})
unfolding foreach_from
thread_foreach func = do
  assert (not (← gets (λ k. k.intr.on)))
  foreach_from (← gets (λ k. k.all_list)) func
