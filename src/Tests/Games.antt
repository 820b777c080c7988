-- ===== src/Tests/Games.antt =====
-- The self-test of the semaphores at two addresses.
use os_pintos.Base.{ℕ, ◌≡◌, refl, List, [], ◌∷◌, length, arith}
use os_pintos.Platform.Reference.{reference}
use os_pintos.Kernel.{Kernel, update, Outcome, ok, panic, undefined}
use os_pintos.Call.{Call}
use os_pintos.SelfTest.{sema_self_test, sema_test_helper, test_rounds, helper_rounds}
use os_pintos.SelfTest.Passes.{pass}
use os_pintos.SelfTest.Game.{Game, Play, main_move, helper_move}
use os_pintos.SelfTest.PingPong.{Goes, Play-Goes, IsOpening}
use os_pintos.Synch.{sema_init, sema_up, sema_down, sema_down_loop}
use os_pintos.Locks.Free.{with_value}
use os_pintos.Tests.Samples.{kernel}

-- The self-test has set up its semaphores at 30 and 31 and has made the second thread.
abbrev opened : Kernel
opened = record kernel {
  semaphores =
      update (update kernel.semaphores 30 (record { value = 0; waiters = [] })) 31
        (record { value = 0; waiters = [] });
}

abbrev opening : Game
opening = record { kernel = opened; main = test_rounds 30 31 10; helper = sema_test_helper 30 31 }

opening-IsOpening : IsOpening 30 31 7 40960 kernel opening
unfolding sema_self_test sema_init
opening-IsOpening = record {
  first = refl;
  second = refl;
  mode = refl;
  normal = refl;
  mains = refl;
  helpers = refl;
}

-- The first thread has raised `sema[0]`, and the second has taken it.
abbrev raised : Game
raised = record {
  kernel = with_value 30 1 opened;
  main = Call.sema_down 31 ∷ test_rounds 30 31 9;
  helper = sema_test_helper 30 31;
}

abbrev lowered : Game
lowered = record {
  kernel = with_value 30 0 (with_value 30 1 opened);
  main = Call.sema_down 31 ∷ test_rounds 30 31 9;
  helper = Call.sema_up 31 ∷ helper_rounds 30 31 9;
}

lowered_play : Play opening lowered
unfolding main_move helper_move pass sema_up sema_down sema_down_loop
lowered_play = Play.helper (Play.main Play.here refl) refl

Play-Goes_example : Goes 30 31 lowered
Play-Goes_example =
    Play-Goes 30 31 7 40960 kernel opening lowered
      (record { some_first = omega arith; some_second = omega arith; apart = omega arith })
      opening-IsOpening lowered_play

abbrev calls_of : Outcome (List Call) → List Call
calls_of (ok calls k) = calls
calls_of panic = []
calls_of undefined = []

-- `sema_self_test` with its semaphores at 30 and 31 makes a thread, and then 20 calls.
abbrev self_test_calls : ℕ
self_test_calls = length (calls_of (sema_self_test 30 31 7 40960 kernel))

self_test_calls_number : self_test_calls ≡ 21
unfolding sema_self_test
self_test_calls_number = refl
