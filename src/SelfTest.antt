-- ===== src/SelfTest.antt =====
-- threads/synch.c: the self-test of the semaphores.
pub mod Passes
pub mod Game
pub mod PingPong
use os_pintos.Base.{ℕ, zero, suc, List, [], ◌∷◌}
use os_pintos.Platform.{Platform}
use os_pintos.Kernel.{Ptr, pri_default, M, ◌>>=◌, ◌>>◌, pure}
use os_pintos.Call.{Call}
use os_pintos.Synch.{sema_init}

-- The two elements of the array, `sema[0]` and `sema[1]`, are at `sema` and `sema'`.
module _ (sema sema' : Ptr) where
  -- The loop of `sema_self_test`, with `n` rounds left.
  abbrev pub test_rounds : (n : ℕ) → List Call
  test_rounds zero = []
  test_rounds (suc n) = Call.sema_up sema ∷ Call.sema_down sema' ∷ test_rounds n

  -- The loop of `sema_test_helper`.
  abbrev pub helper_rounds : (n : ℕ) → List Call
  helper_rounds zero = []
  helper_rounds (suc n) = Call.sema_down sema ∷ Call.sema_up sema' ∷ helper_rounds n

  -- What the thread with this function calls.
  abbrev pub sema_test_helper : List Call
  sema_test_helper = helper_rounds 10

  -- `page` is what palloc_get_page returns in `thread_create`.
  unfoldable pub sema_self_test : ⦃os : Platform⦄ → (helper page : Ptr) → M (List Call)
  unfolding sema_init
  sema_self_test helper page = do
    sema_init sema 0
    sema_init sema' 0
    pure (
        Call.thread_create (b's' ∷ b'e' ∷ b'm' ∷ b'a' ∷ b'-' ∷ b't' ∷ b'e' ∷ b's' ∷ b't' ∷ [])
          pri_default helper sema page
        ∷ test_rounds 10)
