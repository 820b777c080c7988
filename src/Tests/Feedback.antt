-- ===== src/Tests/Feedback.antt =====
-- The timer's updates under the feedback queues.
use os_pintos.Base.{ℕ, ◌≡◌, ◌==◌, refl, false, List, keep, arith}
use os_pintos.Platform.Reference.{reference}
use os_pintos.Kernel.{Ptr, Kernel, ok}
use os_pintos.Mlfqs.{queue_count, mlfqs_update_priority_all}
use os_pintos.Mlfqs.Reorganize.{gather}
use os_pintos.Mlfqs.Everyone.{at_due, due_queue, mlfqs_update_priority_all_lem}
use os_pintos.Tests.Samples.{queues}

abbrev ticking : Kernel
ticking = record queues { intr = record queues.intr { on = false } }

mlfqs_update_priority_all_lem_example :
    (lists : ℕ → List Ptr) × (mlfqs_update_priority_all ticking
      ≡ ok tt (record ticking {
        threads = at_due ticking.idle_thread ticking.all_list ticking.threads;
        mlfqs_list = lists;
      }))
    × (lists 63 ≡ keep (λ t. due_queue ticking t == 63) (gather queue_count 0 ticking.mlfqs_list))
mlfqs_update_priority_all_lem_example =
    mlfqs_update_priority_all_lem ticking 63 refl (omega arith)
      ((refl, refl, omega arith), ((refl, refl, omega arith), tt)) (omega arith)
