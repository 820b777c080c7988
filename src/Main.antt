-- ===== src/Main.antt =====
-- threads/init.c: `main`, and the block devices of a build with file systems.
use os_pintos.Base.{
  ℕ, Bool, ◌&&◌, true, false, leb, ltb, if◌then◌else◌, Option, none, some, List, [], ◌∷◌,
}
use os_pintos.Base.Int.{ℤ}
use os_pintos.Boot.{Text, Build, Role, Event, Boot, panicked, ◌>>=◌, ◌>>◌, pure, emit, when}
use os_pintos.CommandLine.{OptionValues, read_command_line, parse_options}
use os_pintos.CommandLine.Tasks.{run_actions}

-- memset (&_start_bss, 0, &_end_bss - &_start_bss)
unfoldable pub bss_init : (start_bss end_bss : ℕ) → (memory : ℕ → ℕ) → ℕ → ℕ
bss_init start_bss end_bss memory p = if leb start_bss p && ltb p end_bss then 0 else memory p

-- What devices/block.c knows: the block devices in probe order, each with its type, and the one with
-- a given name.
pub record Blocks : Type 0 where
  pub block_get_by_name : Text → Option ℕ
  pub probed : List (ℕ × Option Role)

abbrev pub role_eq : Role → Role → Bool
role_eq Role.filesys Role.filesys = true
role_eq Role.filesys Role.scratch = false
role_eq Role.filesys Role.swap = false
role_eq Role.scratch Role.filesys = false
role_eq Role.scratch Role.scratch = true
role_eq Role.scratch Role.swap = false
role_eq Role.swap Role.filesys = false
role_eq Role.swap Role.scratch = false
role_eq Role.swap Role.swap = true

-- A device of another type, such as BLOCK_RAW, has no role to match.
abbrev pub has_type : Role → Option Role → Bool
has_type role none = false
has_type role (some type) = role_eq type role

-- The loop from block_first () over block_next (block).
abbrev pub first_of_type : Role → List (ℕ × Option Role) → Option ℕ
first_of_type role [] = none
first_of_type role ((block, type) ∷ blocks) =
    if has_type role type then some block else first_of_type role blocks

module _ (blocks : Blocks) where
  unfoldable pub locate_block_device : Role → Option Text → Boot (Unit {0})
  locate_block_device role (some name) = elim (blocks.block_get_by_name name) [
    | none ↦ panicked []
    | some block ↦ emit (Event.set_role role block)
  ]
  locate_block_device role none = elim (first_of_type role blocks.probed) [
    | none ↦ pure tt
    | some block ↦ emit (Event.set_role role block)
  ]

  unfoldable pub locate_block_devices : Build → OptionValues → Boot (Unit {0})
  unfolding locate_block_device
  locate_block_devices build o = do
    locate_block_device Role.filesys o.filesys_bdev_name
    locate_block_device Role.scratch o.scratch_bdev_name
    when build.vm (locate_block_device Role.swap o.swap_bdev_name)

  unfoldable pub main :
      (build : Build) (atoi : Text → ℤ) (now : ℕ) (area : List ℕ) (count : ℕ) → Boot (Unit {0})
  unfolding read_command_line parse_options run_actions locate_block_devices
  main build atoi now area count = do
    emit Event.bss_init
    argv ← read_command_line area count
    parsed ← parse_options build atoi now argv
    let o = parsed.0
    emit Event.thread_init
    emit Event.console_init
    emit (Event.palloc_init o.user_page_limit)
    emit Event.malloc_init
    emit Event.paging_init
    when build.userprog (emit Event.tss_init >> emit Event.gdt_init)
    emit Event.intr_init
    emit Event.timer_init
    emit Event.kbd_init
    emit Event.input_init
    when build.userprog (emit Event.exception_init >> emit Event.syscall_init)
    emit Event.thread_start
    emit Event.serial_init_queue
    emit Event.timer_calibrate
    when build.filesys (
        emit Event.ide_init
        >> locate_block_devices build o
        >> emit (Event.filesys_init o.format_filesys))
    run_actions build parsed.1
    emit Event.shutdown
    emit Event.thread_exit
