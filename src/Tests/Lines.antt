-- ===== src/Tests/Lines.antt =====
-- Lines of the log.
use quarrel.Prelude.{
  ℕ, ◌≡◌, ◌⊎◌, refl, List, [], ◌∷◌, ◌++◌, true, arith, length, replicate, tally, ◌==◌,
}
use quarrel.Prelude.Int.{pos}
use quarrel.Logger.{
  leveled, failing, warn, after_slash, of_array, of_pointer, Printer, no_times, Line, codes,
  log_level_name, level_of, print_time, format_time, fatal_line, failed_assertion, print_error,
  finish, write_line, write_all,
}
use quarrel.Logger.Laws.{texts, of_array_lem, write_all_lem}

-- A second is printed as 17 bytes, the microseconds as one.
abbrev printer : Printer
printer = record {
  stamp = λ s. replicate 17 s;
  micros = λ u. u ∷ [];
  strerror = λ e. [];
  number = λ n. [];
}

abbrev line : ℕ → Line
line now = record {
  opening = leveled warn;
  file = of_array (codes "src/core/paxos.cpp");
  number = pos 12;
  now = now;
  body = codes "started";
}

-- Two lines of one second, one of the next, and a fatal one with a line after it.
abbrev lines : List Line
lines =
    line 7000001
    ∷ line 7000002
    ∷ line 8000000
    ∷ record (line 8000005) { opening = failing true (pos 2) }
    ∷ line 9000000
    ∷ []

four_lines :
    (length (write_all printer lines no_times).0 ≡ 4)
    × ((write_all printer lines no_times).1 ≡ fatal_line)
unfolding write_all write_line format_time print_time level_of log_level_name print_error finish
    of_array after_slash
four_lines = (refl, refl)

-- A thread whose first line is of the second 0 prints no time before it prints the line.
second_zero : write_all printer (line 5 ∷ []) no_times ≡ ([], failed_assertion)
unfolding write_all write_line format_time print_time
second_zero = refl

write_all_lem_example : write_all printer lines no_times ≡ texts printer lines
write_all_lem_example = write_all_lem printer lines (
  omega arith,
  refl,
  (omega arith, refl, (omega arith, refl, (omega arith, refl, (omega arith, refl, tt)))),
)

basename : (of_array (codes "src/core/paxos.cpp")).name ≡ codes "paxos.cpp"
unfolding of_array after_slash
basename = refl

of_array_lem_example :
    let path = codes "src/core/paxos.cpp" in
    let file = of_array path in
    (of_pointer path ≡ file)
    × (file.size ≡ length file.name)
    × (tally (λ (c : ℕ). c == b'/') file.name ≡ 0)
    × ((file.name ≡ path) ⊎ ((pre : List ℕ) × (path ≡ pre ++ b'/' ∷ file.name)))
of_array_lem_example = of_array_lem (codes "src/core/paxos.cpp")
