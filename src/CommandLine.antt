-- ===== src/CommandLine.antt =====
-- threads/init.c: the words and the options of the kernel command line.
pub mod Words
pub mod Tasks
pub mod Commands
pub mod Actions
pub mod Options
pub mod Devices
pub mod Start
use os_pintos.Base.{
  ℕ, zero, suc, ◌+◌, ◌-◌, ◌/◌, ◌%◌, ◌^◌, Bool, true, false, ◌&&◌, ◌==◌, if◌then◌else◌, Option, none,
  some, List, [], ◌∷◌, ◌++◌, length, is_empty,
}
use os_pintos.Base.Int.{ℤ, pos, negsuc, wrap32}
use os_pintos.Boot.{
  Text, Build, ShutdownType, Event, Boot, finished, panicked, powered_off, undefined, behind, ◌>>=◌,
  ◌>>◌, pure, emit,
}

-- !strcmp (a, b)
abbrev pub text_eq : Text → Text → Bool
text_eq [] [] = true
text_eq [] (d ∷ b) = false
text_eq (c ∷ a) [] = false
text_eq (c ∷ a) (d ∷ b) = (c == d) && text_eq a b

-- p + strnlen (p, end - p) + 1
abbrev pub skip_word : List ℕ → List ℕ
skip_word [] = []
skip_word (c ∷ p) = if c == 0 then p else skip_word p

-- The string at `p`, if it ends before the area of the arguments does.
abbrev pub c_string : List ℕ → Option Text
c_string [] = none
c_string (c ∷ p) =
    if c == 0 then some [] else elim (c_string p) [ none ↦ none | some w ↦ some (c ∷ w) ]

-- The loop that fills `argv`, which has `slots` left, and the NULL behind it. A pointer into the area
-- is the list of the bytes from there to its end.
unfoldable pub split_words : (left slots : ℕ) (p : List ℕ) → Boot (List (List ℕ))
split_words zero zero p = undefined
split_words zero (suc slots) p = pure []
split_words (suc left) slots [] = panicked []
split_words (suc left) zero (c ∷ p) = undefined
split_words (suc left) (suc slots) (c ∷ p) = do
  argv ← split_words left slots (skip_word (c ∷ p))
  pure ((c ∷ p) ∷ argv)

-- The loop that prints the words reads them to their ends.
unfoldable pub read_words : List (List ℕ) → Boot (List Text)
read_words [] = pure []
read_words (p ∷ argv) = elim (c_string p) [
  | none ↦ undefined
  | some w ↦ do words ← read_words argv; pure (w ∷ words)
]

-- `area` is the LOADER_ARGS_LEN bytes from LOADER_ARGS on, and `count` the number at LOADER_ARG_CNT.
unfoldable pub read_command_line : (area : List ℕ) (count : ℕ) → Boot (List Text)
unfolding split_words read_words
read_command_line area count = elim (wrap32 (pos count)) [
  | pos argc ↦ split_words argc (length area / 2 + 1) area >>= read_words
  | negsuc n ↦ undefined
]

-- strtok_r (word, "=", &save_ptr), for a word that starts with another character
abbrev pub option_name : Text → Text
option_name [] = []
option_name (c ∷ w) = if c == b'=' then [] else c ∷ option_name w

abbrev pub unless_empty : Text → Option Text
unless_empty [] = none
unless_empty (c ∷ w) = some (c ∷ w)

-- strtok_r (NULL, "", &save_ptr)
abbrev pub option_value : Text → Option Text
option_value [] = none
option_value (c ∷ w) = if c == b'=' then unless_empty w else option_value w

-- The conversion of an `int` to `unsigned`.
abbrev pub unsigned : ℤ → ℕ
unsigned (pos n) = n % 2 ^ 32
unsigned (negsuc n) = 2 ^ 32 - 1 - n % 2 ^ 32

abbrev pub is_option : Text → Bool
is_option [] = false
is_option (c ∷ w) = c == b'-'

abbrev pub usage : {A : Type 0} → Boot A
usage = powered_off []

-- What the options set, next to the flag for the feedback queues.
pub record OptionValues : Type 0 where
  pub format_filesys : Bool
  pub filesys_bdev_name : Option Text
  pub scratch_bdev_name : Option Text
  pub swap_bdev_name : Option Text
  pub user_page_limit : ℕ

-- With SIZE_MAX for the limit.
abbrev pub defaults : OptionValues
defaults = record {
  format_filesys = false;
  filesys_bdev_name = none;
  scratch_bdev_name = none;
  swap_bdev_name = none;
  user_page_limit = 2 ^ 32 - 1;
}

abbrev pub atoi_of : {A : Type 0} → (atoi : Text → ℤ) → Option Text → (ℕ → Boot A) → Boot A
atoi_of atoi none f = undefined
atoi_of atoi (some value) f = f (unsigned (atoi value))

-- `atoi` is the library's.
module _ (build : Build) (atoi : Text → ℤ) where
  unfoldable pub parse_option : Text → OptionValues → Boot OptionValues
  parse_option w o =
      let name = option_name w in
      let value = option_value w in
      if text_eq name (b'-' ∷ b'h' ∷ [])
      then usage
      else if text_eq name (b'-' ∷ b'q' ∷ [])
      then emit (Event.shutdown_configure ShutdownType.power_off) >> pure o
      else if text_eq name (b'-' ∷ b'r' ∷ [])
      then emit (Event.shutdown_configure ShutdownType.reboot) >> pure o
      else if text_eq name (b'-' ∷ b'f' ∷ []) && build.filesys
      then pure (record o { format_filesys = true })
      else if text_eq name (b'-' ∷ b'f' ∷ b'i' ∷ b'l' ∷ b'e' ∷ b's' ∷ b'y' ∷ b's' ∷ [])
          && build.filesys
      then pure (record o { filesys_bdev_name = value })
      else if text_eq name (b'-' ∷ b's' ∷ b'c' ∷ b'r' ∷ b'a' ∷ b't' ∷ b'c' ∷ b'h' ∷ [])
          && build.filesys
      then pure (record o { scratch_bdev_name = value })
      else if text_eq name (b'-' ∷ b's' ∷ b'w' ∷ b'a' ∷ b'p' ∷ []) && build.filesys && build.vm
      then pure (record o { swap_bdev_name = value })
      else if text_eq name (b'-' ∷ b'r' ∷ b's' ∷ [])
      then atoi_of atoi value (λ n. emit (Event.random_init n) >> pure o)
      else if text_eq name (b'-' ∷ b'm' ∷ b'l' ∷ b'f' ∷ b'q' ∷ b's' ∷ [])
      then emit Event.set_mlfqs >> pure o
      else if text_eq name (b'-' ∷ b'u' ∷ b'l' ∷ []) && build.userprog
      then atoi_of atoi value (λ n. pure (record o { user_page_limit = n }))
      else panicked []

  unfoldable pub options_loop : List Text → OptionValues → Boot (OptionValues × List Text)
  unfolding parse_option
  options_loop [] o = pure (o, [])
  options_loop (w ∷ argv) o =
      if is_option w then parse_option w o >>= (λ o'. options_loop argv o') else pure (o, w ∷ argv)

  -- `now` is the result of rtc_get_time.
  unfoldable pub parse_options : (now : ℕ) → List Text → Boot (OptionValues × List Text)
  unfolding options_loop
  parse_options now argv = do
    parsed ← options_loop argv defaults
    emit (Event.random_init (now % 2 ^ 32))
    pure parsed
