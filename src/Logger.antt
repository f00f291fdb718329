-- ===== src/Logger.antt =====
-- util/logger.h and util/logger.cpp: one line of the log, and the time that a thread keeps formatted.
-- A text is the list of its bytes. What is printed by the C library and by the stream is given.
pub mod Laws
use quarrel.Prelude.{
  ℕ, ◌+◌, ◌-◌, ◌*◌, ◌/◌, ◌%◌, List, [], ◌∷◌, ◌++◌, Option, none, some, Bool, true, false, ◌==◌,
  if◌then◌else◌, length, take,
}
use quarrel.Prelude.Int.{ℤ, pos, is_zero}
use Prim.Native.Char.{code}
use Prim.Native.String as Text
use Prim.Native.String.{String}

-- The bytes of a literal.
abbrev pub codes : String → List ℕ
codes Text.[] = []
codes (Text.◌∷◌ c s) = code c ∷ codes s

pub data LogLevel : Type 0 where
  trace : LogLevel
  debug : LogLevel
  info : LogLevel
  warn : LogLevel
  error : LogLevel
  fatal : LogLevel

unfoldable pub log_level_name : LogLevel → List ℕ
log_level_name trace = codes "TRACE "
log_level_name debug = codes "DEBUG "
log_level_name info = codes "INFO  "
log_level_name warn = codes "WARN  "
log_level_name error = codes "ERROR "
log_level_name fatal = codes "FATAL "

abbrev pub is_fatal : LogLevel → Bool
is_fatal fatal = true
is_fatal _ = false

-- `strrchr(s, '/') + 1`: what stands after the last slash. No result is a text without a slash.
unfoldable pub after_slash : List ℕ → Option (List ℕ)
after_slash [] = none
after_slash (c ∷ s) =
    let later = after_slash s in
    elim later [ some base ↦ some base | none ↦ if c == b'/' then some s else none ]

pub record SourceFile : Type 0 where
  pub name : List ℕ
  pub size : ℕ

-- The constructor from an array of the text `s` and its end: the size is that of the array, less what
-- stands before the name.
unfoldable pub of_array : List ℕ → SourceFile
unfolding after_slash
of_array s = elim (after_slash s) [
  | none ↦ record { name = s; size = length s }
  | some base ↦ record { name = base; size = length s - (length s - length base) }
]

-- The constructor from a pointer.
unfoldable pub of_pointer : List ℕ → SourceFile
unfolding after_slash
of_pointer s =
    let name : List ℕ = elim (after_slash s) [ none ↦ s | some base ↦ base ] in
    record { name = name; size = length name }

-- What the C library prints: a second by `gmtime_r` and the first `snprintf`, the microseconds by the
-- second one, an error by `strerror_r`, and a number by the stream.
pub record Printer : Type 0 where
  pub stamp : ℕ → List ℕ
  pub micros : ℕ → List ℕ
  pub strerror : ℤ → List ℕ
  pub number : ℤ → List ℕ

-- `t_time` and `t_lastSecond` of a thread.
pub record Times : Type 0 where
  pub t_time : List ℕ
  pub t_last_second : ℕ

-- A thread's own variables begin as zeros.
abbrev pub no_times : Times
no_times = record { t_time = []; t_last_second = 0 }

-- The four constructors of a line.
pub data Opening : Type 0 where
  plain : Opening
  leveled : LogLevel → Opening
  named : LogLevel → List ℕ → Opening
  failing : Bool → ℤ → Opening

-- A line of the log: where it is written, when (in microseconds, from `gettimeofday`), and what.
pub record Line : Type 0 where
  pub opening : Opening
  pub file : SourceFile
  pub number : ℤ
  pub now : ℕ
  pub body : List ℕ

-- The levels and the error that a constructor gives to the line.
unfoldable pub level_of : Opening → LogLevel
level_of plain = info
level_of (leveled level) = level
level_of (named level func) = level
level_of (failing abort saved) = if abort then fatal else error

abbrev pub errno_of : Opening → ℤ
errno_of plain = pos 0
errno_of (leveled level) = pos 0
errno_of (named level func) = pos 0
errno_of (failing abort saved) = saved

abbrev pub prefix_of : Opening → List ℕ
prefix_of plain = []
prefix_of (leveled level) = []
prefix_of (named level func) = func ++ codes " "
prefix_of (failing abort saved) = []

-- `stream_ << T(t_time, 17) << T(ud, sz)`. No result is the failed assertion of `T` that the text has
-- the size.
unfoldable pub print_time : Printer → ℕ → Times → Option (List ℕ × Times)
print_time printer now t =
    if length t.t_time == 17 then some (t.t_time ++ printer.micros (now % 1000000), t) else none

-- `formatTime`; no result is a failed assertion, of the size that was printed or of `T`.
unfoldable pub format_time : Printer → ℕ → Times → Option (List ℕ × Times)
unfolding print_time
format_time printer now t =
    let seconds = now / 1000000 in
    if seconds == t.t_last_second
    then print_time printer now t
    else if length (printer.stamp seconds) == 17
    then print_time printer now (record { t_time = printer.stamp seconds; t_last_second = seconds })
    else none

-- The error that `Impl` prints after the level.
unfoldable pub print_error : Printer → ℤ → List ℕ
print_error printer saved =
    if is_zero saved
    then []
    else printer.strerror saved ++ codes " (errno=" ++ printer.number saved ++ codes ") "

-- `finish`
unfoldable pub finish : Printer → SourceFile → ℤ → List ℕ
finish printer file number =
    codes " - " ++ take file.size file.name ++ codes ":" ++ printer.number number ++ b'\n' ∷ []

-- A line from its constructor to `g_output`: the text, and whether the process ends. No result is a
-- failed assertion.
unfoldable pub write_line : Printer → Line → Times → Option (List ℕ × (Bool × Times))
unfolding log_level_name level_of format_time print_error finish
write_line printer line t = elim (format_time printer line.now t) [
  | none ↦ none
  | some (time, t') ↦
      let level = level_of line.opening in
      let text =
        time
        ++ log_level_name level
        ++ print_error printer (errno_of line.opening)
        ++ prefix_of line.opening
        ++ line.body
        ++ finish printer line.file line.number in
      some (text, (is_fatal level, t'))
]

-- How the lines of a thread end.
pub data Ending : Type 0 where
  all_written : Ending
  fatal_line : Ending
  failed_assertion : Ending

-- What a thread writes, and how that ends: nothing is written after a fatal line or a failed
-- assertion, which abort.
unfoldable pub write_all : Printer → List Line → Times → List (List ℕ) × Ending
unfolding write_line
write_all printer [] t = ([], all_written)
write_all printer (line ∷ lines) t = elim (write_line printer line t) [
  | none ↦ ([], failed_assertion)
  | some (text, (ends, t')) ↦
      let (rest, how) = write_all printer lines t' in
      if ends then (text ∷ [], fatal_line) else (text ∷ rest, how)
]
