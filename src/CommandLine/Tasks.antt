-- ===== src/CommandLine/Tasks.antt =====
-- threads/init.c: the actions that the command line can ask for, and `run_actions`.
use os_pintos.Base.{
  ℕ, zero, suc, ◌-◌, Bool, true, false, if◌then◌else◌, Option, none, some, List, [], ◌∷◌, length,
}
use os_pintos.Boot.{Text, Build, Event, Boot, panicked, undefined, ◌>>◌, pure, emit}
use os_pintos.CommandLine.{text_eq}

-- `f` of argv[1]
abbrev pub with_argument : (Text → Event) → List Text → Boot (Unit {0})
with_argument f (name ∷ argument ∷ argv) = emit (f argument)
with_argument f (name ∷ []) = undefined
with_argument f [] = undefined

pub record Action : Type 0 where
  pub name : Text
  pub argc : ℕ
  pub function : List Text → Boot (Unit {0})

abbrev pub find_action : Text → List Action → Option Action
find_action w [] = none
find_action w (a ∷ table) = if text_eq w a.name then some a else find_action w table

-- argv + argc
abbrev pub drop : ℕ → List Text → List Text
drop zero argv = argv
drop (suc n) [] = []
drop (suc n) (w ∷ argv) = drop n argv

-- The loop over argv[1], …, argv[argc - 1]
abbrev pub has_arguments : (left : ℕ) → List Text → Bool
has_arguments zero argv = true
has_arguments (suc left) [] = false
has_arguments (suc left) (w ∷ argv) = has_arguments left argv

module _ (build : Build) where
  abbrev pub run_task : List Text → Boot (Unit {0})
  run_task =
      with_argument (λ task. if build.userprog then Event.run_process task else Event.run_test task)

  abbrev pub fsutil_actions : List Action
  fsutil_actions =
      record { name = b'l' ∷ b's' ∷ []; argc = 1; function = λ argv. emit Event.fsutil_ls }
      ∷ record {
        name = b'c' ∷ b'a' ∷ b't' ∷ [];
        argc = 2;
        function = with_argument Event.fsutil_cat;
      }
      ∷ record { name = b'r' ∷ b'm' ∷ []; argc = 2; function = with_argument Event.fsutil_rm }
      ∷ record {
        name = b'e' ∷ b'x' ∷ b't' ∷ b'r' ∷ b'a' ∷ b'c' ∷ b't' ∷ [];
        argc = 1;
        function = λ argv. emit Event.fsutil_extract;
      }
      ∷ record {
        name = b'a' ∷ b'p' ∷ b'p' ∷ b'e' ∷ b'n' ∷ b'd' ∷ [];
        argc = 2;
        function = with_argument Event.fsutil_append;
      }
      ∷ []

  abbrev pub actions : List Action
  actions =
      record { name = b'r' ∷ b'u' ∷ b'n' ∷ []; argc = 2; function = run_task }
      ∷ (if build.filesys then fsutil_actions else [])

  -- A turn of the loop of `run_actions` for each unit of fuel.
  unfoldable pub actions_loop : (fuel : ℕ) → List Text → Boot (Unit {0})
  actions_loop zero argv = undefined
  actions_loop (suc fuel) [] = pure tt
  actions_loop (suc fuel) (w ∷ argv) = elim (find_action w actions) [
    | none ↦ panicked []
    | some a ↦
        let next_turn = actions_loop fuel (drop a.argc (w ∷ argv)) in
        if has_arguments (a.argc - 1) argv then a.function (w ∷ argv) >> next_turn else panicked []
  ]

  unfoldable pub run_actions : List Text → Boot (Unit {0})
  unfolding actions_loop
  run_actions argv = actions_loop (suc (length argv)) argv
