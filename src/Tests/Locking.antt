-- ===== src/Tests/Locking.antt =====
-- Locks and conditions on the sample kernel.
use os_pintos.Base.{◌≡◌, refl, ap, [], ◌∷◌, arith}
use os_pintos.Platform.Reference.{reference}
use os_pintos.Kernel.{Kernel, ok, update_id, update}
use os_pintos.Call.{Call}
use os_pintos.Current.{is_thread}
use os_pintos.Donation.{refresh_priority}
use os_pintos.Locks.Free.{CanTake, taken, closed}
use os_pintos.Machine.Uncontended.{Goes, lock_release-lock_acquire}
use os_pintos.Tests.Samples.{kernel, holding}
use os_pintos.Tests.Runs.{no_code}

-- The highest of the threads has the CPU.
abbrev alone : Kernel
alone = record kernel { ready_list = [] }

alone-CanTake : CanTake 11 0 alone
unfolding is_thread refresh_priority
alone-CanTake = record {
  mode = refl;
  normal = refl;
  running = (refl, refl);
  highest = tt;
  fresh = ap (λ s. ok tt (record (closed alone) { threads = s })) (update_id alone.threads 2);
  some_lock = omega arith;
  some_semaphore = omega arith;
  free = refl;
  unlinked = refl;
  alone = refl;
  new = refl;
  value = refl;
  small = omega arith;
  no_sleeper = refl;
}

lock_release-lock_acquire_example :
    Goes 9 no_code 100
      (λ t. [])
      alone
      (Call.lock_acquire 11 ∷ Call.lock_release 11 ∷ [])
      (taken 11 0 alone)
      (Call.lock_release 11 ∷ [])
    × (((taken 11 0 alone).locks 11).holder ≡ 2)
    × (((taken 11 0 alone).semaphores 21).value ≡ 0)
    × Goes 9 no_code 100 (λ t. []) (taken 11 0 alone) (Call.lock_release 11 ∷ []) alone []
lock_release-lock_acquire_example =
    lock_release-lock_acquire 9 no_code 100 (λ t. []) alone 11 0 [] alone-CanTake

-- On the condition 30 threads 5 and 6 wait, each on a semaphore of its own.
abbrev gathered : Kernel
gathered = record holding {
  conditions = λ c. record { waiters = 22 ∷ 23 ∷ [] };
  semaphores =
      update (update kernel.semaphores 22 (record { value = 0; waiters = 5 ∷ [] })) 23
        (record { value = 0; waiters = 6 ∷ [] });
}
