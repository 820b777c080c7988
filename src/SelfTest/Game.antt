-- ===== src/SelfTest/Game.antt =====
-- The two threads of the self-test as a game of two players, the calls as their moves.
use os_pintos.Base.{◌≡◌, Option, none, some, List, [], ◌∷◌}
use os_pintos.Platform.{Platform}
use os_pintos.Kernel.{Kernel}
use os_pintos.Call.{Call}
use os_pintos.SelfTest.Passes.{pass}

-- The kernel, and what each of the two threads has still to call.
pub record Game : Type 0 where
  pub kernel : Kernel
  pub main : List Call
  pub helper : List Call

module _ ⦃os : Platform⦄ where
  abbrev pub next_call : List Call → Kernel → Option (Kernel × List Call)
  next_call [] k = none
  next_call (c ∷ calls) k = elim (pass c k) [ none ↦ none | some k' ↦ some (k', calls) ]

  unfoldable pub main_move : Game → Option Game
  main_move g = elim (next_call g.main g.kernel) [
    | none ↦ none
    | some (k, main) ↦ some (record { kernel = k; main = main; helper = g.helper })
  ]

  unfoldable pub helper_move : Game → Option Game
  helper_move g = elim (next_call g.helper g.kernel) [
    | none ↦ none
    | some (k, helper) ↦ some (record { kernel = k; main = g.main; helper = helper })
  ]

  pub data Play (start : Game) : Game → Type 0 where
    here : Play start start
    main : {g h : Game} → Play start g → main_move g ≡ some h → Play start h
    helper : {g h : Game} → Play start g → helper_move g ≡ some h → Play start h
