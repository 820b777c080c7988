-- ===== src/Timer/Due.antt =====
-- The sleepers whose tick has come, and the threads once they have been woken.
use os_pintos.Base.{◌≡◌, refl, fun_ext, true, false, arith, if◌then◌else◌, List, [], ◌∷◌, has}
use os_pintos.Base.Int.{ℤ, ltb_ℤ}
use os_pintos.Kernel.{Ptr, Thread, ThreadStatus, Kernel, update, set_thread}
use os_pintos.Current.{is_thread}
use os_pintos.Scheduler.Ready.{made_ready}

-- The sleepers at the front of the list whose tick has come, and the others.
abbrev pub due : (Ptr → Thread) → ℤ → List Ptr → List Ptr
due s now [] = []
due s now (t ∷ l) = if ltb_ℤ now (s t).wakeup_tick then [] else t ∷ due s now l

abbrev pub early : (Ptr → Thread) → ℤ → List Ptr → List Ptr
early s now [] = []
early s now (t ∷ l) = if ltb_ℤ now (s t).wakeup_tick then t ∷ l else early s now l

pub due_same :
    (s s' : Ptr → Thread) (now : ℤ) (l : List Ptr)
    → ((t : Ptr) → (s' t).wakeup_tick ≡ (s t).wakeup_tick)
    → (due s' now l ≡ due s now l) × (early s' now l ≡ early s now l)
due_same s s' now [] h = (refl, refl)
due_same s s' now (t ∷ l) h = ground (arith, h t, due_same s s' now l h)

-- The threads when some sleepers have been woken.
abbrev pub woken : List Ptr → (Ptr → Thread) → Ptr → Thread
woken l s t = if has t l then made_ready (s t) else s t

pub woken_cons :
    (t : Ptr) (l : List Ptr) (s : Ptr → Thread)
    → woken l (update s t (made_ready (s t))) ≡ woken (t ∷ l) s
woken_cons t l s = fun_ext λ u. ground arith

-- A sleeper that can be made ready, and that stands on the sleep list once.
abbrev pub Asleep : Kernel → Ptr → Type 0
Asleep k t =
    (is_thread t k ≡ true)
    × ((k.threads t).status ≡ ThreadStatus.blocked)
    × ((k.threads t).elem_linked ≡ false)

abbrev pub AllAsleep : Kernel → List Ptr → Type 0
AllAsleep k [] = Unit
AllAsleep k (t ∷ l) = Asleep k t × (has t l ≡ false) × AllAsleep k l

pub AllAsleep-after :
    (k : Kernel) (t : Ptr) (r sl : List Ptr) (l : List Ptr)
    → has t l ≡ false
    → AllAsleep k l
    → AllAsleep
        (record (set_thread t (made_ready (k.threads t)) k) { ready_list = r; sleep_list = sl })
        l
unfolding is_thread
AllAsleep-after k t r sl [] h a = tt
AllAsleep-after k t r sl (u ∷ l) h a =
    (ground arith, a.1, AllAsleep-after k t r sl l (ground arith) a.2)
