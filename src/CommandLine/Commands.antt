-- ===== src/CommandLine/Commands.antt =====
-- What the actions of the command line are, and the words that ask for them.
use os_pintos.Base.{
  ◌≡◌, refl, subst, ap₂, ◌≢◌, true, false, if◌then◌else◌, ◌==◌, inl, inr, Bool-cases, List, [], ◌∷◌,
  ◌++◌, All, arith,
}
use os_pintos.Boot.{Text, Build, Event}
use os_pintos.CommandLine.{text_eq}

pub text_eq_refl : (a : Text) → text_eq a a ≡ true
text_eq_refl [] = refl
text_eq_refl (c ∷ a) = ground (arith, text_eq_refl a)

pub text_eq_sound : (a b : Text) → text_eq a b ≡ true → a ≡ b
text_eq_sound [] [] h = refl
text_eq_sound [] (d ∷ b) h = ground arith
text_eq_sound (c ∷ a) [] h = ground arith
text_eq_sound (c ∷ a) (d ∷ b) h = elim (Bool-cases (c == d)) [
  | inl same ↦ ap₂ (λ x y. x ∷ y) (ground arith) (text_eq_sound a b (ground arith))
  | inr other ↦ ground arith
]

pub other_text : (w v : Text) → text_eq w v ≡ false → w ≢ v
other_text w v other same =
    let equal : text_eq w v ≡ true = subst (λ x. text_eq w x ≡ true) same (text_eq_refl w) in
    ground arith

-- The actions without an argument, and those with one.
pub data Alone : Type 0 where
  ls extract : Alone

pub data Taking : Type 0 where
  run cat rm append : Taking

pub data Verb : Type 0 where
  alone : Alone → Verb
  taking : Taking → Verb

abbrev pub spelled : Verb → Text
spelled (Verb.alone Alone.ls) = b'l' ∷ b's' ∷ []
spelled (Verb.alone Alone.extract) = b'e' ∷ b'x' ∷ b't' ∷ b'r' ∷ b'a' ∷ b'c' ∷ b't' ∷ []
spelled (Verb.taking Taking.run) = b'r' ∷ b'u' ∷ b'n' ∷ []
spelled (Verb.taking Taking.cat) = b'c' ∷ b'a' ∷ b't' ∷ []
spelled (Verb.taking Taking.rm) = b'r' ∷ b'm' ∷ []
spelled (Verb.taking Taking.append) = b'a' ∷ b'p' ∷ b'p' ∷ b'e' ∷ b'n' ∷ b'd' ∷ []

-- An action with the words it takes.
pub data Command : Type 0 where
  alone : Alone → Command
  taking : Taking → (argument : Text) → Command

abbrev pub verb : Command → Verb
verb (Command.alone v) = Verb.alone v
verb (Command.taking v argument) = Verb.taking v

abbrev pub words : Command → List Text
words (Command.alone v) = spelled (Verb.alone v) ∷ []
words (Command.taking v argument) = spelled (Verb.taking v) ∷ argument ∷ []

abbrev pub commands : List Command → List Text
commands [] = []
commands (c ∷ cs) = words c ++ commands cs

module _ (build : Build) where
  abbrev pub file_verbs : List Verb
  file_verbs =
      Verb.alone Alone.ls
      ∷ Verb.taking Taking.cat
      ∷ Verb.taking Taking.rm
      ∷ Verb.alone Alone.extract
      ∷ Verb.taking Taking.append
      ∷ []

  -- The actions that the build has.
  abbrev pub verbs : List Verb
  verbs = Verb.taking Taking.run ∷ (if build.filesys then file_verbs else [])

  abbrev pub IsOffered : Verb → Type 0
  IsOffered (Verb.taking Taking.run) = Unit
  IsOffered (Verb.taking Taking.cat) = build.filesys ≡ true
  IsOffered (Verb.taking Taking.rm) = build.filesys ≡ true
  IsOffered (Verb.taking Taking.append) = build.filesys ≡ true
  IsOffered (Verb.alone v) = build.filesys ≡ true

  abbrev pub AllOffered : List Command → Type 0
  AllOffered cs = All (λ c. IsOffered (verb c)) cs

  abbrev pub alone_event : Alone → Event
  alone_event Alone.ls = Event.fsutil_ls
  alone_event Alone.extract = Event.fsutil_extract

  abbrev pub taking_event : Taking → Text → Event
  taking_event Taking.run task =
      if build.userprog then Event.run_process task else Event.run_test task
  taking_event Taking.cat file = Event.fsutil_cat file
  taking_event Taking.rm file = Event.fsutil_rm file
  taking_event Taking.append file = Event.fsutil_append file

  abbrev pub command_event : Command → Event
  command_event (Command.alone v) = alone_event v
  command_event (Command.taking v argument) = taking_event v argument

  abbrev pub runs : List Command → List Event
  runs [] = []
  runs (c ∷ cs) = command_event c ∷ runs cs
