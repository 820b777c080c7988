-- ===== src/Machine/Turns.antt =====
-- The calls of the running thread, made one after another.
use os_pintos.Base.{ℕ, zero, suc, [], ◌≡◌, sym, subst, List, ◌∷◌, ◌++◌}
use os_pintos.Platform.{Platform}
use os_pintos.Kernel.{Ptr, Kernel, M, ◌>>=◌, pure, ok, update, update_self, update-update}
use os_pintos.Call.{Call}
use os_pintos.Machine.{Machine, Step, exec}
use os_pintos.Machine.Invariant.{Run, IsFresh, HeadIsFresh, IsOther}

-- The machine in the state `k` with `calls` for the running thread.
abbrev pub at : (Ptr → List Call) → Kernel → List Call → Machine
at stacks k calls = record { kernel = k; stacks = update stacks k.current calls }

-- The machine with `calls` for the running thread.
abbrev pub with_calls : Machine → List Call → Machine
with_calls m calls = at m.stacks m.kernel calls

other-IsFresh : (cur : Ptr) (c : Call) → IsOther c → IsFresh cur c
other-IsFresh cur (Call.thread_create name priority function aux page) h = absurd h
other-IsFresh cur _ h = tt

module _ ⦃os : Platform⦄ (depth : ℕ) (code : (function aux : Ptr) → List Call)
    (idle_function : Ptr) where
  -- The first `n` of the calls, each up to the end of its part that runs at once, and what is left.
  unfoldable pub make_calls : ℕ → List Call → M (List Call)
  unfolding exec
  make_calls zero calls = pure calls
  make_calls (suc n) [] = pure []
  make_calls (suc n) (c ∷ calls) = do
    left ← exec depth code idle_function c
    make_calls n (left ++ calls)

  pub Run-trans :
      {m t u : Machine}
      → Run depth code idle_function m t
      → Run depth code idle_function t u
      → Run depth code idle_function m u
  Run-trans r Run.here = r
  Run-trans r (Run.next s fresh step) = Run.next (Run-trans r s) fresh step

  -- A call that leaves the CPU with the thread.
  pub Run-fresh_call :
      (c : Call) (left rest : List Call) (k k' : Kernel) (stacks : Ptr → List Call)
      → IsFresh k.current c
      → k'.current ≡ k.current
      → exec depth code idle_function c k ≡ ok left k'
      → Run depth code idle_function (at stacks k (c ∷ rest)) (at stacks k' (left ++ rest))
  Run-fresh_call c left rest k k' stacks page same run =
      let cur = k.current in
      let top : update stacks cur (c ∷ rest) cur ≡ c ∷ rest = update_self stacks cur (c ∷ rest) in
      let fresh : HeadIsFresh cur (update stacks cur (c ∷ rest) cur) =
        subst (HeadIsFresh cur) (sym top) page in
      let after : update (update stacks cur (c ∷ rest)) cur (left ++ rest)
          ≡ update stacks k'.current (left ++ rest) =
        rw same (update-update stacks cur (c ∷ rest) (left ++ rest)) in
      subst
        (λ s.
          Run depth code idle_function (at stacks k (c ∷ rest))
            (record { kernel = k'; stacks = s }))
        after (Run.next Run.here fresh (Step.call c rest left k' top run))

  pub Run-call :
      (c : Call) (left rest : List Call) (k k' : Kernel) (stacks : Ptr → List Call)
      → IsOther c
      → k'.current ≡ k.current
      → exec depth code idle_function c k ≡ ok left k'
      → Run depth code idle_function (at stacks k (c ∷ rest)) (at stacks k' (left ++ rest))
  Run-call c left rest k k' stacks other =
      Run-fresh_call c left rest k k' stacks (other-IsFresh k.current c other)
