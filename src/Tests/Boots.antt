-- ===== src/Tests/Boots.antt =====
-- A boot from a command line.
use os_pintos.Base.{
  ◌-◌, ◌≡◌, refl, true, if◌then◌else◌, none, some, List, [], ◌∷◌, ◌++◌, All, length, arith,
}
use os_pintos.Base.Int.{ℤ, pos}
use os_pintos.Boot.{Text, Build, threads_build, Role, finished, panicked, undefined}
use os_pintos.CommandLine.{text_eq, read_command_line, parse_options}
use os_pintos.CommandLine.Tasks.{run_actions}
use os_pintos.CommandLine.Words.{IsWord, encoded, zeros, read_command_line-zeros}
use os_pintos.CommandLine.Options.{Setting, with_settings, parse_options-no_seed}
use os_pintos.CommandLine.Commands.{Alone, Taking, Command, commands}
use os_pintos.CommandLine.Actions.{Ran, run_actions_lem}
use os_pintos.CommandLine.Start.{booted, main-encoded}
use os_pintos.Main.{Blocks, main}

abbrev alarm : Text
alarm = b'a' ∷ b'l' ∷ b'a' ∷ b'r' ∷ b'm' ∷ []

-- The number of the first digit of a text.
abbrev first_digit : Text → ℤ
first_digit [] = pos 0
first_digit (c ∷ w) = pos (c - 48)

abbrev settings : List Setting
settings = Setting.quit ∷ Setting.seed b'7' [] ∷ Setting.feedback_queues ∷ []

abbrev run_alarm : List Command
run_alarm = Command.taking Taking.run alarm ∷ []

-- -q -rs=7 -mlfqs run alarm
abbrev argv : List Text
argv = with_settings settings (commands run_alarm)

argv-IsWord : All IsWord argv
argv-IsWord = omega arith

-- A build with user programs, file systems and virtual memory.
abbrev full_build : Build
full_build = record { filesys = true; vm = true; userprog = true }

abbrev disk : Text
disk = b'h' ∷ b'd' ∷ b'b' ∷ []

-- The device 0 is called hdb and has no type of ours; 1 is for file systems, 2 and 3 are for swapping.
abbrev disks : Blocks
disks = record {
  block_get_by_name = λ name. if text_eq name disk then some 0 else none;
  probed = (0, none) ∷ (1, some Role.filesys) ∷ (2, some Role.swap) ∷ (3, some Role.swap) ∷ [];
}

abbrev full_settings : List Setting
full_settings =
    Setting.format_filesys
    ∷ Setting.user_pages b'9' []
    ∷ Setting.scratch_device b'h' (b'd' ∷ b'b' ∷ [])
    ∷ settings

abbrev extract_and_run : List Command
extract_and_run = Command.alone Alone.extract ∷ run_alarm

-- -f -ul=9 -scratch=hdb -q -rs=7 -mlfqs extract run alarm
abbrev full_argv : List Text
full_argv = with_settings full_settings (commands extract_and_run)

full_argv-IsWord : All IsWord full_argv
full_argv-IsWord = omega arith

read_command_line-zeros_example : read_command_line (zeros 128) 65 ≡ undefined
read_command_line-zeros_example =
    read_command_line-zeros 128 65 (omega arith) (omega arith) (omega arith)

parse_options-no_seed_example :
    parse_options threads_build first_digit 1000
      (with_settings settings ((b'-' ∷ b'r' ∷ b's' ∷ []) ∷ commands run_alarm))
    ≡ undefined
parse_options-no_seed_example =
    parse_options-no_seed threads_build first_digit 1000 settings (commands run_alarm)
      (tt, (tt, (tt, tt)))

run_actions_lem_example :
    Ran full_build
      (commands extract_and_run ++ (alarm ∷ []))
      (run_actions full_build (commands extract_and_run ++ (alarm ∷ [])))
run_actions_lem_example = run_actions_lem full_build (commands extract_and_run ++ (alarm ∷ []))

main-encoded_example :
    main disks full_build first_digit 1000 (encoded full_argv (zeros 100)) (length full_argv)
    ≡ finished tt (booted disks full_build first_digit 1000 full_settings extract_and_run)
main-encoded_example =
    main-encoded disks full_build first_digit 1000 full_settings extract_and_run (zeros 100)
      (refl, (refl, (refl, (tt, (tt, (tt, tt)))))) (refl, (tt, tt)) (tt, (λ e. cc), tt)
      full_argv-IsWord (omega arith)

-- -x
unknown_option :
    parse_options threads_build first_digit 1000 ((b'-' ∷ b'x' ∷ []) ∷ []) ≡ panicked []
unfolding parse_options
unknown_option = refl

-- -f, which this build does not have
option_of_other_build :
    parse_options threads_build first_digit 1000 ((b'-' ∷ b'f' ∷ []) ∷ []) ≡ panicked []
unfolding parse_options
option_of_other_build = refl

-- ls, which this build does not have
action_of_other_build : run_actions threads_build ((b'l' ∷ b's' ∷ []) ∷ []) ≡ panicked []
unfolding run_actions
action_of_other_build = refl
