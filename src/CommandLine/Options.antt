-- ===== src/CommandLine/Options.antt =====
-- The options of the command line.
use os_pintos.Base.{
  ℕ, ◌%◌, ◌^◌, ◌≡◌, refl, sym, ap, true, false, some, List, [], ◌∷◌, ◌++◌, All, append_assoc,
  append-nil,
}
use os_pintos.Base.Int.{ℤ}
use os_pintos.Boot.{
  Text, Build, ShutdownType, Event, Boot, finished, undefined, panicked, powered_off, behind, pure,
}
use os_pintos.CommandLine.{
  is_option, unsigned, OptionValues, defaults, parse_option, options_loop, parse_options,
}

-- The options that `usage` lists, without -h; their values are not empty.
pub data Setting : Type 0 where
  quit reboot feedback_queues format_filesys : Setting
  seed user_pages filesys_device scratch_device swap_device :
      (first : ℕ) → (others : Text) → Setting

abbrev pub shown : Setting → Text
shown Setting.quit = b'-' ∷ b'q' ∷ []
shown Setting.reboot = b'-' ∷ b'r' ∷ []
shown Setting.feedback_queues = b'-' ∷ b'm' ∷ b'l' ∷ b'f' ∷ b'q' ∷ b's' ∷ []
shown Setting.format_filesys = b'-' ∷ b'f' ∷ []
shown (Setting.seed c w) = b'-' ∷ b'r' ∷ b's' ∷ b'=' ∷ c ∷ w
shown (Setting.user_pages c w) = b'-' ∷ b'u' ∷ b'l' ∷ b'=' ∷ c ∷ w
shown (Setting.filesys_device c w) =
    b'-' ∷ b'f' ∷ b'i' ∷ b'l' ∷ b'e' ∷ b's' ∷ b'y' ∷ b's' ∷ b'=' ∷ c ∷ w
shown (Setting.scratch_device c w) =
    b'-' ∷ b's' ∷ b'c' ∷ b'r' ∷ b'a' ∷ b't' ∷ b'c' ∷ b'h' ∷ b'=' ∷ c ∷ w
shown (Setting.swap_device c w) = b'-' ∷ b's' ∷ b'w' ∷ b'a' ∷ b'p' ∷ b'=' ∷ c ∷ w

-- The options that a build has.
abbrev pub Listed : Build → Setting → Type 0
Listed build Setting.quit = Unit
Listed build Setting.reboot = Unit
Listed build Setting.feedback_queues = Unit
Listed build Setting.format_filesys = build.filesys ≡ true
Listed build (Setting.seed c w) = Unit
Listed build (Setting.user_pages c w) = build.userprog ≡ true
Listed build (Setting.filesys_device c w) = build.filesys ≡ true
Listed build (Setting.scratch_device c w) = build.filesys ≡ true
Listed build (Setting.swap_device c w) = (build.filesys ≡ true) × (build.vm ≡ true)

-- No word, or one that is not an option.
abbrev pub NoOption : List Text → Type 0
NoOption [] = Unit
NoOption (w ∷ argv) = is_option w ≡ false

abbrev pub with_settings : List Setting → List Text → List Text
with_settings [] argv = argv
with_settings (s ∷ settings) argv = shown s ∷ with_settings settings argv

behind-nil : {A : Type 0} (o : Boot A) → behind [] o ≡ o
behind-nil (finished a es) = refl
behind-nil (panicked es) = refl
behind-nil (powered_off es) = refl
behind-nil undefined = refl

pub behind-behind :
    {A : Type 0} (es fs : List Event) (o : Boot A) → behind es (behind fs o) ≡ behind (es ++ fs) o
behind-behind es fs (finished a gs) = ap (finished a) (sym (append_assoc es fs gs))
behind-behind es fs (panicked gs) = ap panicked (sym (append_assoc es fs gs))
behind-behind es fs (powered_off gs) = ap powered_off (sym (append_assoc es fs gs))
behind-behind es fs undefined = refl

is_option-shown : (s : Setting) → is_option (shown s) ≡ true
is_option-shown Setting.quit = refl
is_option-shown Setting.reboot = refl
is_option-shown Setting.feedback_queues = refl
is_option-shown Setting.format_filesys = refl
is_option-shown (Setting.seed c w) = refl
is_option-shown (Setting.user_pages c w) = refl
is_option-shown (Setting.filesys_device c w) = refl
is_option-shown (Setting.scratch_device c w) = refl
is_option-shown (Setting.swap_device c w) = refl

module _ (build : Build) (atoi : Text → ℤ) where
  abbrev pub effect : Setting → List Event
  effect Setting.quit = Event.shutdown_configure ShutdownType.power_off ∷ []
  effect Setting.reboot = Event.shutdown_configure ShutdownType.reboot ∷ []
  effect Setting.feedback_queues = Event.set_mlfqs ∷ []
  effect Setting.format_filesys = []
  effect (Setting.seed c w) = Event.random_init (unsigned (atoi (c ∷ w))) ∷ []
  effect (Setting.user_pages c w) = []
  effect (Setting.filesys_device c w) = []
  effect (Setting.scratch_device c w) = []
  effect (Setting.swap_device c w) = []

  abbrev pub effects : List Setting → List Event
  effects [] = []
  effects (s ∷ settings) = effect s ++ effects settings

  abbrev pub assigned : Setting → OptionValues → OptionValues
  assigned Setting.quit o = o
  assigned Setting.reboot o = o
  assigned Setting.feedback_queues o = o
  assigned Setting.format_filesys o = record o { format_filesys = true }
  assigned (Setting.seed c w) o = o
  assigned (Setting.user_pages c w) o = record o { user_page_limit = unsigned (atoi (c ∷ w)) }
  assigned (Setting.filesys_device c w) o = record o { filesys_bdev_name = some (c ∷ w) }
  assigned (Setting.scratch_device c w) o = record o { scratch_bdev_name = some (c ∷ w) }
  assigned (Setting.swap_device c w) o = record o { swap_bdev_name = some (c ∷ w) }

  abbrev pub all_assigned : List Setting → OptionValues → OptionValues
  all_assigned [] o = o
  all_assigned (s ∷ settings) o = all_assigned settings (assigned s o)

  parse_option-shown :
      (s : Setting) (o : OptionValues)
      → Listed build s
      → parse_option build atoi (shown s) o ≡ finished (assigned s o) (effect s)
  unfolding parse_option
  parse_option-shown Setting.quit o h = refl
  parse_option-shown Setting.reboot o h = refl
  parse_option-shown Setting.feedback_queues o h = refl
  parse_option-shown Setting.format_filesys o h = rw h refl
  parse_option-shown (Setting.seed c w) o h = refl
  parse_option-shown (Setting.user_pages c w) o h = rw h refl
  parse_option-shown (Setting.filesys_device c w) o h = rw h refl
  parse_option-shown (Setting.scratch_device c w) o h = rw h refl
  parse_option-shown (Setting.swap_device c w) o h = rw h.0 (rw h.1 refl)

  options_loop-with_settings :
      (settings : List Setting) (argv : List Text) (o : OptionValues)
      → All (Listed build) settings
      → options_loop build atoi (with_settings settings argv) o
        ≡ behind (effects settings) (options_loop build atoi argv (all_assigned settings o))
  unfolding options_loop
  options_loop-with_settings [] argv o h = sym (behind-nil (options_loop build atoi argv o))
  options_loop-with_settings (s ∷ settings) argv o (hs, h) = rw (is_option-shown s) (
      rw (parse_option-shown s o hs) (
        rw (options_loop-with_settings settings argv (assigned s o) h) (
          behind-behind (effect s) (effects settings)
            (options_loop build atoi argv (all_assigned settings (assigned s o))))))

  options_loop_end :
      (argv : List Text) (o : OptionValues)
      → NoOption argv
      → options_loop build atoi argv o ≡ pure (o, argv)
  unfolding options_loop
  options_loop_end [] o h = refl
  options_loop_end (w ∷ argv) o h = rw h refl

  -- Options that are written as `usage` lists them for the build, -h left out, have their effects in
  -- order and set their variables, a later one over an earlier one; the random numbers are seeded once
  -- more by the time, and the words from the first that does not start with `-` are returned.
  pub parse_options-with_settings :
      (now : ℕ) (settings : List Setting) (argv : List Text)
      → All (Listed build) settings
      → NoOption argv
      → parse_options build atoi now (with_settings settings argv)
        ≡ finished
            (all_assigned settings defaults, argv)
            (effects settings ++ (Event.random_init (now % 2 ^ 32) ∷ []))
  unfolding parse_options
  parse_options-with_settings now settings argv listed h =
      rw (options_loop-with_settings settings argv defaults listed) (
        rw (options_loop_end argv (all_assigned settings defaults) h) (
          ap
            (λ es.
              finished (all_assigned settings defaults, argv)
                (es ++ (Event.random_init (now % 2 ^ 32) ∷ [])))
            (append-nil (effects settings))))

  -- `-rs` without a seed, behind options that are written as `usage` lists them for the build, has no
  -- defined behaviour: `atoi` is called on a null pointer.
  pub parse_options-no_seed :
      (now : ℕ) (settings : List Setting) (argv : List Text)
      → All (Listed build) settings
      → parse_options build atoi now (with_settings settings ((b'-' ∷ b'r' ∷ b's' ∷ []) ∷ argv))
        ≡ undefined
  unfolding parse_options options_loop parse_option
  parse_options-no_seed now settings argv listed =
      rw (options_loop-with_settings settings ((b'-' ∷ b'r' ∷ b's' ∷ []) ∷ argv) defaults listed)
        refl

  -- Nor has `-ul` without a count, in a build that has it.
  parse_options-no_count :
      (now : ℕ) (settings : List Setting) (argv : List Text)
      → build.userprog ≡ true
      → All (Listed build) settings
      → parse_options build atoi now (with_settings settings ((b'-' ∷ b'u' ∷ b'l' ∷ []) ∷ argv))
        ≡ undefined
  unfolding parse_options options_loop parse_option
  parse_options-no_count now settings argv users listed =
      rw (options_loop-with_settings settings ((b'-' ∷ b'u' ∷ b'l' ∷ []) ∷ argv) defaults listed)
        (rw users refl)
