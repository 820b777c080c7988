-- ===== src/CommandLine/Start.antt =====
-- `main` as a whole.
use os_pintos.Base.{
  ℕ, zero, suc, arith, none_below, append_assoc, ◌%◌, ◌^◌, ◌<◌, ◌≡◌, refl, ap, if◌then◌else◌, List,
  [], ◌∷◌, ◌++◌, All, length, length-append, ◌∙◌,
}
use os_pintos.Base.Int.{ℤ}
use os_pintos.Boot.{Text, Build, Event, finished, emit, behind, ◌>>◌}
use os_pintos.CommandLine.{OptionValues, defaults}
use os_pintos.CommandLine.Tasks.{run_actions, actions_loop}
use os_pintos.Main.{Blocks, locate_block_devices, main}
use os_pintos.CommandLine.Words.{IsWord, encoded, read_command_line-encoded}
use os_pintos.CommandLine.Options.{
  Setting, Listed, with_settings, effects, all_assigned, NoOption, parse_options-with_settings,
}
use os_pintos.CommandLine.Commands.{
  Alone, Taking, Command, verb, words, commands, IsOffered, AllOffered, command_event, runs,
}
use os_pintos.CommandLine.Devices.{AllPresent, roles_given, locate_block_devices_lem, when-finished}

commands-NoOption : (cs : List Command) → NoOption (commands cs)
commands-NoOption [] = tt
commands-NoOption (Command.alone Alone.ls ∷ cs) = refl
commands-NoOption (Command.alone Alone.extract ∷ cs) = refl
commands-NoOption (Command.taking Taking.run argument ∷ cs) = refl
commands-NoOption (Command.taking Taking.cat argument ∷ cs) = refl
commands-NoOption (Command.taking Taking.rm argument ∷ cs) = refl
commands-NoOption (Command.taking Taking.append argument ∷ cs) = refl

words_some : (c : Command) → 0 < length (words c)
words_some (Command.alone v) = omega arith
words_some (Command.taking v argument) = omega arith

module _ (build : Build) where
  actions_loop-words :
      (fuel : ℕ) (c : Command) (argv : List Text)
      → IsOffered build (verb c)
      → actions_loop build (suc fuel) (words c ++ argv)
        ≡ behind (command_event build c ∷ []) (actions_loop build fuel argv)
  unfolding actions_loop
  actions_loop-words fuel (Command.alone Alone.ls) argv h = rw h refl
  actions_loop-words fuel (Command.alone Alone.extract) argv h = rw h refl
  actions_loop-words fuel (Command.taking Taking.run argument) argv h = refl
  actions_loop-words fuel (Command.taking Taking.cat argument) argv h = rw h refl
  actions_loop-words fuel (Command.taking Taking.rm argument) argv h = rw h refl
  actions_loop-words fuel (Command.taking Taking.append argument) argv h = rw h refl

  actions_loop-commands :
      (fuel : ℕ) (cs : List Command)
      → AllOffered build cs
      → length (commands cs) < fuel
      → actions_loop build fuel (commands cs) ≡ finished tt (runs build cs)
  unfolding actions_loop
  actions_loop-commands zero cs offered h = elim (none_below h) [ ]
  actions_loop-commands (suc fuel) [] offered h = refl
  actions_loop-commands (suc fuel) (c ∷ cs) (hc, offered) h =
      let room : length (commands cs) < fuel =
        omega (arith, length-append (words c) (commands cs), words_some c) in
      actions_loop-words fuel c (commands cs) hc
      ∙ ap (behind (command_event build c ∷ [])) (actions_loop-commands fuel cs offered room)

  run_actions-commands :
      (cs : List Command)
      → AllOffered build cs
      → run_actions build (commands cs) ≡ finished tt (runs build cs)
  unfolding run_actions
  run_actions-commands cs offered =
      actions_loop-commands (suc (length (commands cs))) cs offered (omega arith)

module _ (blocks : Blocks) (build : Build) (atoi : Text → ℤ) (now : ℕ) where
  abbrev if_userprog : List Event → List Event
  if_userprog es = if build.userprog then es else []

  -- From `thread_init` to `filesys_init`.
  abbrev pub start : OptionValues → List Event → List Event
  start o es =
      Event.thread_init
      ∷ Event.console_init
      ∷ Event.palloc_init o.user_page_limit
      ∷ Event.malloc_init
      ∷ Event.paging_init
      ∷ (if_userprog (Event.tss_init ∷ Event.gdt_init ∷ [])
          ++ (Event.intr_init
              ∷ Event.timer_init
              ∷ Event.kbd_init
              ∷ Event.input_init
              ∷ (if_userprog (Event.exception_init ∷ Event.syscall_init ∷ [])
                  ++ (Event.thread_start
                      ∷ Event.serial_init_queue
                      ∷ Event.timer_calibrate
                      ∷ ((if build.filesys
                            then Event.ide_init
                              ∷ (roles_given blocks build o
                                  ++ (Event.filesys_init o.format_filesys ∷ []))
                            else [])
                          ++ es)))))

  abbrev pub booted : (settings : List Setting) (cs : List Command) → List Event
  booted settings cs =
      let o = all_assigned build atoi settings defaults in
      Event.bss_init
      ∷ (effects build atoi settings
          ++ (Event.random_init (now % 2 ^ 32)
              ∷ start o (runs build cs ++ (Event.shutdown ∷ Event.thread_exit ∷ []))))

  -- A command line of options and actions that the build has, written as `usage` lists them, no
  -- word of it empty or with a NUL inside, in an area of fewer than 2^31 bytes, where every block
  -- device that it names is there: `main` has the effects of the options in order before it starts
  -- the threads, and passes the values that they set on to `palloc_init`, the roles of the block
  -- devices and `filesys_init`. Behind the calibration, in a build with file systems, it gives the
  -- block devices their roles, and it runs the actions in order before it shuts down.
  pub main-encoded :
      (settings : List Setting) (cs : List Command) (others : List ℕ)
      → All (Listed build) settings
      → AllOffered build cs
      → AllPresent blocks (all_assigned build atoi settings defaults)
      → All IsWord (with_settings settings (commands cs))
      → length (encoded (with_settings settings (commands cs)) others) < 2 ^ 31
      → main blocks build atoi now
          (encoded (with_settings settings (commands cs)) others)
          (length (with_settings settings (commands cs)))
        ≡ finished tt (booted settings cs)
  unfolding main
  main-encoded settings cs others listed offered present words bound =
      let argv = with_settings settings (commands cs) in
      let o = all_assigned build atoi settings defaults in
      rw (read_command_line-encoded argv others words bound) (
        rw
          (parse_options-with_settings build atoi now settings (commands cs) listed
            (commands-NoOption cs))
          (rw
            (when-finished blocks build.userprog (emit Event.tss_init >> emit Event.gdt_init)
              (Event.tss_init ∷ Event.gdt_init ∷ []) refl)
            (rw
              (when-finished blocks build.userprog
                (emit Event.exception_init >> emit Event.syscall_init)
                (Event.exception_init ∷ Event.syscall_init ∷ []) refl)
              (rw
                (when-finished blocks build.filesys
                  (emit Event.ide_init
                    >> locate_block_devices blocks build o
                    >> emit (Event.filesys_init o.format_filesys))
                  (Event.ide_init
                    ∷ (roles_given blocks build o ++ (Event.filesys_init o.format_filesys ∷ [])))
                  (rw (locate_block_devices_lem blocks build o present) refl))
                (rw (run_actions-commands build cs offered) (
                  ap (λ es. finished tt (Event.bss_init ∷ es))
                    (append_assoc (effects build atoi settings)
                      (Event.random_init (now % 2 ^ 32) ∷ [])
                      (start o (runs build cs ++ (Event.shutdown ∷ Event.thread_exit ∷ []))))))))))
