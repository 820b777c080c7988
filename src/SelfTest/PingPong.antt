-- ===== src/SelfTest/PingPong.antt =====
-- The two threads of the self-test take turns.
use os_pintos.Base.{
  ℕ, zero, suc, ◌≡◌, ◌≢◌, refl, sym, subst, ◌∙◌, false, Option, none, some, List, [], ◌∷◌, arith,
}
use mathlib.Core.Option.{some_inj}
use os_pintos.Platform.{Platform}
use os_pintos.Kernel.{Ptr, null, Semaphore, Kernel, Outcome, ok, panic, undefined}
use os_pintos.Call.{Call}
use os_pintos.Synch.{sema_init}
use os_pintos.Locks.Free.{with_value}
use os_pintos.SelfTest.{test_rounds, helper_rounds, sema_test_helper, sema_self_test}
use os_pintos.SelfTest.Passes.{counted, up_passes, down_passes, down_waits}
use os_pintos.SelfTest.Game.{Game, main_move, helper_move, Play}

-- The calls behind the first, which makes the second thread.
abbrev pub calls_behind : Outcome (List Call) → List Call
calls_behind (ok (c ∷ calls) k) = calls
calls_behind (ok [] k) = []
calls_behind panic = []
calls_behind undefined = []

abbrev pub semaphore_after : {A : Type 0} → Ptr → Kernel → Outcome A → Semaphore
semaphore_after s before (ok a k) = k.semaphores s
semaphore_after s before panic = before.semaphores s
semaphore_after s before undefined = before.semaphores s

module _ ⦃os : Platform⦄ (sema sema' : Ptr) where
  -- `sema_self_test`, called in `k`, has made the second thread, and no other thread has touched its
  -- semaphores: they are as it set them up, and its calls behind that are left.
  pub record IsOpening (function page : Ptr) (k : Kernel) (g : Game) : Type 0 where
    pub first :
        g.kernel.semaphores sema
        ≡ semaphore_after sema k (sema_self_test sema sema' function page k)
    pub second :
        g.kernel.semaphores sema'
        ≡ semaphore_after sema' k (sema_self_test sema sema' function page k)
    pub mode : g.kernel.thread_mlfqs ≡ false
    pub normal : g.kernel.intr.context ≡ false
    pub mains : g.main ≡ calls_behind (sema_self_test sema sema' function page k)
    pub helpers : g.helper ≡ sema_test_helper sema sema'

  pub record At (a b : ℕ) (ms hs : List Call) (g : Game) : Type 0 where
    pub first : g.kernel.semaphores sema ≡ counted a
    pub second : g.kernel.semaphores sema' ≡ counted b
    pub mode : g.kernel.thread_mlfqs ≡ false
    pub normal : g.kernel.intr.context ≡ false
    pub mains : g.main ≡ ms
    pub helpers : g.helper ≡ hs

  -- The semaphores are at two addresses.
  pub record Apart : Type 0 where
    pub some_first : sema ≢ null
    pub some_second : sema' ≢ null
    pub apart : sema ≢ sema'

  -- Where a game stands, with `n` rounds left.
  pub data Stands (g : Game) : Type 0 where
    serves : (n : ℕ) → At 0 0 (test_rounds sema sema' n) (helper_rounds sema sema' n) g → Stands g
    flies :
        (n : ℕ)
        → At 1 0
            (Call.sema_down sema' ∷ test_rounds sema sema' n)
            (helper_rounds sema sema' (suc n))
            g
        → Stands g
    returns :
        (n : ℕ)
        → At 0 0
            (Call.sema_down sema' ∷ test_rounds sema sema' n)
            (Call.sema_up sema' ∷ helper_rounds sema sema' n)
            g
        → Stands g
    back :
        (n : ℕ)
        → At 0 1 (Call.sema_down sema' ∷ test_rounds sema sema' n) (helper_rounds sema sema' n) g
        → Stands g

  pub data Goes (g : Game) : Type 0 where
    over : g.main ≡ [] → g.helper ≡ [] → main_move g ≡ none → helper_move g ≡ none → Goes g
    main_only : (h : Game) → main_move g ≡ some h → helper_move g ≡ none → Stands h → Goes g
    helper_only : (h : Game) → main_move g ≡ none → helper_move g ≡ some h → Stands h → Goes g

  Stands-Goes : (g : Game) → Apart → Stands g → Goes g
  unfolding main_move helper_move
  Stands-Goes g d (serves zero a) = over a.mains a.helpers (rw a.mains refl) (rw a.helpers refl)
  Stands-Goes g d (serves (suc n) a) =
      let k = g.kernel in
      let after : Game = record {
        kernel = with_value sema 1 k;
        main = Call.sema_down sema' ∷ test_rounds sema sema' n;
        helper = g.helper;
      } in
      main_only after
        (rw (a.mains, main_move, up_passes sema 0 k d.some_first a.mode a.first (omega arith)) refl)
        (rw (a.helpers, helper_move, down_waits sema k d.some_first a.normal a.first) refl)
        (flies n (record {
          first = ground (arith, a.first);
          second = ground (arith, a.second, d.apart);
          mode = a.mode;
          normal = a.normal;
          mains = refl;
          helpers = a.helpers;
        }))
  Stands-Goes g d (flies n a) =
      let k = g.kernel in
      let after : Game = record {
        kernel = with_value sema 0 k;
        main = g.main;
        helper = Call.sema_up sema' ∷ helper_rounds sema sema' n;
      } in
      helper_only after
        (rw (a.mains, main_move, down_waits sema' k d.some_second a.normal a.second) refl)
        (rw (a.helpers, helper_move, down_passes sema 0 k d.some_first a.normal a.first) refl)
        (returns n (record {
          first = ground (arith, a.first);
          second = ground (arith, a.second, d.apart);
          mode = a.mode;
          normal = a.normal;
          mains = a.mains;
          helpers = refl;
        }))
  Stands-Goes g d (returns n a) =
      let k = g.kernel in
      let after : Game = record {
        kernel = with_value sema' 1 k;
        main = g.main;
        helper = helper_rounds sema sema' n;
      } in
      helper_only after
        (rw (a.mains, main_move, down_waits sema' k d.some_second a.normal a.second) refl)
        (rw
          (a.helpers, helper_move, up_passes sema' 0 k d.some_second a.mode a.second (omega arith))
          refl)
        (back n (record {
          first = ground (arith, a.first, d.apart);
          second = ground (arith, a.second);
          mode = a.mode;
          normal = a.normal;
          mains = a.mains;
          helpers = refl;
        }))
  Stands-Goes g d (back n a) =
      let k = g.kernel in
      let after : Game = record {
        kernel = with_value sema' 0 k;
        main = test_rounds sema sema' n;
        helper = g.helper;
      } in
      main_only after
        (rw (a.mains, main_move, down_passes sema' 0 k d.some_second a.normal a.second) refl)
        (waits n a)
        (serves n (record {
          first = ground (arith, a.first, d.apart);
          second = ground (arith, a.second);
          mode = a.mode;
          normal = a.normal;
          mains = refl;
          helpers = a.helpers;
        }))
    where
      waits :
          (n : ℕ)
          → At 0 1 (Call.sema_down sema' ∷ test_rounds sema sema' n) (helper_rounds sema sema' n) g
          → helper_move g ≡ none
      waits zero b = rw b.helpers refl
      waits (suc m) b =
          rw (b.helpers, helper_move, down_waits sema g.kernel d.some_first b.normal b.first) refl

  -- A move that is made is the one that can be made.
  some-Stands : (o : Option Game) (h h' : Game) → o ≡ some h → o ≡ some h' → Stands h' → Stands h
  some-Stands o h h' e f s = subst Stands (some_inj.0 (sym f ∙ e)) s

  no_move : (o : Option Game) (h : Game) → o ≡ some h → o ≡ none → ⊥
  no_move o h e f = cc (e, f)

  IsOpening-Stands :
      (function page : Ptr) (k : Kernel) (g : Game) → Apart → IsOpening function page k g → Stands g
  unfolding sema_self_test sema_init
  IsOpening-Stands function page k g d o = serves 10 (record {
    first = o.first ∙ ground (arith, d.some_first, d.some_second, d.apart);
    second = o.second ∙ ground (arith, d.some_first, d.some_second, d.apart);
    mode = o.mode;
    normal = o.normal;
    mains = o.mains ∙ ground (arith, d.some_first, d.some_second);
    helpers = o.helpers;
  })

  Play-Stands : (start g : Game) → Apart → Stands start → Play start g → Stands g
  Play-Stands start g d s Play.here = s
  Play-Stands start h d s (Play.main {g} p m) = elim (Stands-Goes g d (Play-Stands start g d s p)) [
    | over e f x y ↦ elim (no_move (main_move g) h m x) [ ]
    | main_only h' x y z ↦ some-Stands (main_move g) h h' m x z
    | helper_only h' x y z ↦ elim (no_move (main_move g) h m x) [ ]
  ]
  Play-Stands start h d s (Play.helper {g} p m) =
      elim (Stands-Goes g d (Play-Stands start g d s p)) [
        | over e f x y ↦ elim (no_move (helper_move g) h m y) [ ]
        | main_only h' x y z ↦ elim (no_move (helper_move g) h m y) [ ]
        | helper_only h' x y z ↦ some-Stands (helper_move g) h h' m y z
      ]

  -- The self-test sets up its two semaphores, at two addresses, under the priority scheduler and
  -- outside of a handler, and makes the second thread, and no other thread touches the semaphores. Then
  -- the two threads are let run, call by call and in whatever order, where a `sema_down` that
  -- would sleep is tried again later instead. Until both have made all their calls, exactly one of
  -- the two can make its next one, so control goes back and forth and neither thread waits for ever.
  pub Play-Goes :
      (function page : Ptr) (k : Kernel) (start g : Game)
      → Apart
      → IsOpening function page k start
      → Play start g
      → Goes g
  Play-Goes function page k start g d o p =
      Stands-Goes g d (Play-Stands start g d (IsOpening-Stands function page k start d o) p)
