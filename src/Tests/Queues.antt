-- ===== src/Tests/Queues.antt =====
-- The feedback queues.
use os_pintos.Base.{ℕ, true, false, [], ◌∷◌, ◌≡◌, refl, List, keep, ◌<◌, ◌≤◌, ◌==◌, ◌*◌, ◌^◌, arith}
use os_pintos.Base.Int.{ℤ, pos, pos_part, neg_part, ◌-ℤ◌, ◌/ℤ◌, ◌*ℤ◌}
use os_pintos.Platform.Reference.{reference}
use os_pintos.Kernel.{Ptr, ThreadStatus, ok, set_thread, Kernel, update}
use os_pintos.Current.{is_thread}
use os_pintos.Mlfqs.{
  queue_count, mlfqs_next_thread_to_run, mlfqs_reorganize_queues, mlfqs_update_priority,
  mlfqs_update_load_avg, mlfqs_update_recent_cpu,
}
use os_pintos.Mlfqs.Priority.{
  with_priority, InRange, mlfqs_update_priority_lem, mlfqs_update_priority-InRange,
}
use os_pintos.Mlfqs.Queues.{Found, mlfqs_next_thread_to_run_lem}
use os_pintos.Mlfqs.Reorganize.{gather, mlfqs_reorganize_queues_lem}
use os_pintos.Mlfqs.Averages.{
  next_load, with_recent_cpu, decayed, mlfqs_update_load_avg_lem, mlfqs_update_recent_cpu_lem,
}
use os_pintos.Scheduler.RoundRobin.{turns, turns-round}
use os_pintos.Tests.Samples.{queues, threads, thread}

mlfqs_next_thread_to_run_lem_example : Found queues queue_count (mlfqs_next_thread_to_run queues)
mlfqs_next_thread_to_run_lem_example = mlfqs_next_thread_to_run_lem queues

mlfqs_reorganize_queues_lem_example :
    (lists : ℕ → List Ptr) × (mlfqs_reorganize_queues queues
      ≡ ok tt (record queues { mlfqs_list = lists }))
    × ((j : ℕ)
        → j < queue_count
        → lists j
          ≡ keep
              (λ t. pos_part (queues.threads t).priority == j)
              (gather queue_count 0 queues.mlfqs_list))
mlfqs_reorganize_queues_lem_example =
    mlfqs_reorganize_queues_lem queues ((refl, omega arith), ((refl, omega arith), tt))

mlfqs_update_priority_lem_example :
    mlfqs_update_priority 3 queues
    ≡ ok tt (set_thread 3 (with_priority (pos 63) (queues.threads 3)) queues)
unfolding ◌-ℤ◌ ◌/ℤ◌ ◌*ℤ◌
mlfqs_update_priority_lem_example =
    mlfqs_update_priority_lem 3 queues (omega arith) (omega arith) (omega arith) (omega arith)

mlfqs_update_priority-InRange_example :
    (p : ℤ) × (mlfqs_update_priority 3 queues
      ≡ ok tt (set_thread 3 (with_priority p (queues.threads 3)) queues))
    × InRange p
mlfqs_update_priority-InRange_example = mlfqs_update_priority-InRange 3 queues (omega arith)

-- Three threads, at a load average of 1.
mlfqs_update_load_avg_lem_example :
    (mlfqs_update_load_avg queues ≡ ok tt (record queues { load_avg = pos (next_load 16384 3) }))
    × (next_load 16384 3 ≤ 3 * 2 ^ 14)
unfolding is_thread
mlfqs_update_load_avg_lem_example =
    mlfqs_update_load_avg_lem queues 16384 3 (refl, refl) refl (omega arith) (omega arith)
      (omega arith)

mlfqs_update_recent_cpu_lem_example :
    let new_cpu = decayed 16384 (pos 0) (pos 0) in
    (mlfqs_update_recent_cpu 3 queues
      ≡ ok tt (set_thread 3 (with_recent_cpu new_cpu (queues.threads 3)) queues))
    × (pos_part new_cpu ≤ 20 * 2 ^ 14)
    × (neg_part new_cpu ≤ 20 * 2 ^ 14)
mlfqs_update_recent_cpu_lem_example =
    mlfqs_update_recent_cpu_lem 3 queues (omega arith) refl (omega arith) (omega arith)
      (omega arith)

-- Threads 3 and 4 wait at the priority of the running thread.
abbrev level_queue : Kernel
level_queue = record queues {
  threads =
      update (update threads 3 (thread ThreadStatus.ready 31 true)) 4
        (thread ThreadStatus.ready 31 true);
  mlfqs_list = update (λ i. []) 31 (3 ∷ 4 ∷ []);
}

turns-round_example :
    turns 3 level_queue
    ≡ ok
        (3 ∷ 4 ∷ 2 ∷ [])
        (record level_queue { thread_ticks = 0; intr = record level_queue.intr { on = false } })
unfolding is_thread
turns-round_example =
    turns-round 31 level_queue
      (record {
        mode = refl;
        normal = refl;
        bound = omega arith;
        valid = refl;
        running = refl;
        not_idle = omega arith;
        free = refl;
        level = refl;
        none_above = λ j a b. ground arith;
      })
      (
        record {
          valid = refl;
          is_ready = refl;
          linked = refl;
          level = refl;
          not_idle = omega arith;
        },
        (
          record {
            valid = refl;
            is_ready = refl;
            linked = refl;
            level = refl;
            not_idle = omega arith;
          },
          tt,
        ),
      )
