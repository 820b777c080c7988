-- ===== src/CommandLine/Actions.antt =====
-- The actions that the words behind the options ask for.
use os_pintos.Base.{
  ℕ, zero, suc, ◌<◌, ◌≡◌, refl, sym, subst, ap, ◌≢◌, Bool, true, false, if◌then◌else◌, inl, inr,
  Bool-cases, Option, none, some, List, [], ◌∷◌, ◌++◌, All, length, append_assoc, arith, none_below,
}
use os_pintos.Boot.{Text, Build, Boot, finished, panicked, behind, emit}
use os_pintos.CommandLine.{text_eq}
use os_pintos.CommandLine.Tasks.{
  with_argument, Action, find_action, fsutil_actions, actions, actions_loop, run_actions,
}
use os_pintos.CommandLine.Commands.{
  text_eq_sound, other_text, Taking, Verb, spelled, Command, verb, words, commands, file_verbs,
  verbs, IsOffered, AllOffered, alone_event, taking_event, command_event, runs,
}

module _ (build : Build) where
  abbrev action_of : Verb → Action
  action_of (Verb.alone v) = record {
    name = spelled (Verb.alone v);
    argc = 1;
    function = λ argv. emit (alone_event build v);
  }
  action_of (Verb.taking v) = record {
    name = spelled (Verb.taking v);
    argc = 2;
    function = with_argument (taking_event build v);
  }

  abbrev table : List Verb → List Action
  table [] = []
  table (v ∷ vs) = action_of v ∷ table vs

  actions-table : actions build ≡ table (verbs build)
  actions-table = ap (λ t. action_of (Verb.taking Taking.run) ∷ t) (by_filesys build.filesys)
    where
      by_filesys :
          (b : Bool)
          → (if b then fsutil_actions build else []) ≡ table (if b then (file_verbs build) else [])
      by_filesys true = refl
      by_filesys false = refl

  verbs-IsOffered : All (IsOffered build) (verbs build)
  verbs-IsOffered = (tt, by_filesys build.filesys refl)
    where
      by_filesys :
          (b : Bool)
          → build.filesys ≡ b
          → All (IsOffered build) (if b then (file_verbs build) else [])
      by_filesys true h = (h, (h, (h, (h, (h, tt)))))
      by_filesys false h = tt

  -- What looking for `w` among `vs` finds.
  data Looked (w : Text) (vs : List Verb) : Option Action → Type 0 where
    nothing : All (λ v. w ≢ spelled v) vs → Looked w vs none
    found : (v : Verb) → IsOffered build v → w ≡ spelled v → Looked w vs (some (action_of v))

  Looked-cons :
      (w : Text) (v : Verb) (vs : List Verb) (found_there : Option Action)
      → w ≢ spelled v
      → Looked w vs found_there
      → Looked w (v ∷ vs) found_there
  Looked-cons w v vs found_there h (nothing none_there) = nothing (h, none_there)
  Looked-cons w v vs found_there h (found v' offered same) = found v' offered same

  name-action_of : (v : Verb) → (action_of v).name ≡ spelled v
  name-action_of (Verb.alone v) = refl
  name-action_of (Verb.taking v) = refl

  find_action-Looked :
      (w : Text) (vs : List Verb)
      → All (IsOffered build) vs
      → Looked w vs (find_action w (table vs))
  find_action-Looked w [] h = nothing tt
  find_action-Looked w (v ∷ vs) (hv, h) = elim (Bool-cases (text_eq w (action_of v).name)) [
    | inl same ↦ rw same (
        found v hv
          (text_eq_sound w (spelled v) (subst (λ n. text_eq w n ≡ true) (name-action_of v) same)))
    | inr other ↦ rw other (
        Looked-cons w v vs (find_action w (table vs))
          (other_text w (spelled v) (subst (λ n. text_eq w n ≡ false) (name-action_of v) other))
          (find_action-Looked w vs h))
  ]

  -- What the words `argv` ask for, and the outcome that this has.
  pub data Ran (argv : List Text) (o : Boot (Unit {0})) : Type 0 where
    all :
        (cs : List Command)
        → AllOffered build cs
        → argv ≡ commands cs
        → o ≡ finished tt (runs build cs)
        → Ran argv o
    unknown :
        (cs : List Command) (rest : List Text) (w : Text)
        → AllOffered build cs
        → All (λ v. w ≢ spelled v) (verbs build)
        → argv ≡ commands cs ++ (w ∷ rest)
        → o ≡ panicked (runs build cs)
        → Ran argv o
    missing :
        (cs : List Command) (v : Taking)
        → AllOffered build cs
        → IsOffered build (Verb.taking v)
        → argv ≡ commands cs ++ (spelled (Verb.taking v) ∷ [])
        → o ≡ panicked (runs build cs)
        → Ran argv o

  add_command :
      {argv : List Text} (c : Command) (cs : List Command) (rest : List Text)
      → argv ≡ commands cs ++ rest
      → words c ++ argv ≡ commands (c ∷ cs) ++ rest
  add_command c cs rest e = rw e (sym (append_assoc (words c) (commands cs) rest))

  Ran-cons :
      (c : Command) (argv : List Text) (o : Boot (Unit {0}))
      → IsOffered build (verb c)
      → Ran argv o
      → Ran (words c ++ argv) (behind (command_event build c ∷ []) o)
  Ran-cons c argv o hc (all cs offered e f) =
      all (c ∷ cs) (hc, offered) (ap (λ ws. words c ++ ws) e) (rw f refl)
  Ran-cons c argv o hc (unknown cs rest w offered none_there e f) =
      unknown (c ∷ cs) rest w (hc, offered) none_there (add_command c cs (w ∷ rest) e) (rw f refl)
  Ran-cons c argv o hc (missing cs v offered hv e f) =
      missing (c ∷ cs) v (hc, offered) hv (add_command c cs (spelled (Verb.taking v) ∷ []) e)
        (rw f refl)

  -- The loop with `fuel` turns left does to every line what it should.
  abbrev RanFor : (fuel : ℕ) → Type 0
  RanFor fuel = (argv : List Text) → length argv < fuel → Ran argv (actions_loop build fuel argv)

  turn-Ran :
      (fuel : ℕ) (w : Text) (argv : List Text) (a : Option Action)
      → RanFor fuel
      → length argv < fuel
      → find_action w (actions build) ≡ a
      → Looked w (verbs build) a
      → Ran (w ∷ argv) (actions_loop build (suc fuel) (w ∷ argv))
  unfolding actions_loop
  turn-Ran fuel w argv a next h looked (nothing none_there) =
      unknown [] argv w tt none_there refl (rw (looked, actions_loop) refl)
  turn-Ran fuel w argv a next h looked (found (Verb.alone v) offered same) =
      rw (looked, actions_loop, same)
        (Ran-cons (Command.alone v) argv (actions_loop build fuel argv) offered (next argv h))
  turn-Ran fuel w [] a next h looked (found (Verb.taking v) offered same) =
      rw (looked, actions_loop, same) (missing [] v tt offered refl refl)
  turn-Ran fuel w (t ∷ argv) a next h looked (found (Verb.taking v) offered same) =
      rw (looked, actions_loop, same)
        (Ran-cons (Command.taking v t) argv (actions_loop build fuel argv) offered
          (next argv (omega arith)))

  actions_loop-Ran : (fuel : ℕ) → RanFor fuel
  unfolding actions_loop
  actions_loop-Ran zero argv h = elim (none_below h) [ ]
  actions_loop-Ran (suc fuel) [] h = all [] tt refl refl
  actions_loop-Ran (suc fuel) (w ∷ argv) h =
      turn-Ran fuel w argv (find_action w (actions build)) (actions_loop-Ran fuel) (omega arith)
        refl
        (subst (λ t. Looked w (verbs build) (find_action w t)) (sym actions-table)
          (find_action-Looked w (verbs build) verbs-IsOffered))

  -- Whatever the words after the options are, `run_actions` ends: it runs in order the actions that the
  -- words name, each with its argument if it takes one, and panics exactly if a word in the place of a
  -- name is the name of no action of the build, or if the argument of the last name is missing.
  pub run_actions_lem : (argv : List Text) → Ran argv (run_actions build argv)
  unfolding run_actions
  run_actions_lem argv = actions_loop-Ran (suc (length argv)) argv (omega arith)
