-- ===== src/Logger/Laws.antt =====
-- What the log shows of the file and of the time.
use quarrel.Prelude.{
  ℕ, ◌-◌, ◌/◌, ◌%◌, ◌<◌, ◌≡◌, ◌⊎◌, inl, inr, refl, sym, ap, ◌∙◌, List, [], ◌∷◌, ◌++◌, none, some,
  Bool, true, ◌==◌, arith, if◌then◌else◌, length, tally, length-append, Bool-cases,
}
use quarrel.Logger.{
  is_fatal, log_level_name, after_slash, of_array, of_pointer, Printer, Times, no_times, Line,
  level_of, errno_of, prefix_of, print_time, format_time, print_error, finish, write_line,
  write_all, Ending, all_written, fatal_line,
}

abbrev is_slash : ℕ → Bool
is_slash c = c == b'/'

-- The last slash of a text: what stands before it, and no slash after it.
after_slash_lem :
    (s : List ℕ)
    → ((after_slash s ≡ none) × (tally is_slash s ≡ 0))
      ⊎ ((pre : List ℕ) × (base : List ℕ) × (after_slash s ≡ some base)
          × (s ≡ pre ++ b'/' ∷ base)
          × (tally is_slash base ≡ 0))
unfolding after_slash
after_slash_lem [] = inl (refl, refl)
after_slash_lem (c ∷ s) = elim (after_slash_lem s) [
  | inr (pre, base, e, split, clean) ↦
      inr (c ∷ pre, base, rw (after_slash, e) refl, ap (λ (l : List ℕ). c ∷ l) split, clean)
  | inl (e, clean) ↦ elim (Bool-cases (is_slash c)) [
    | inl f ↦
        let same : c ≡ b'/' = ground arith in
        inr ([], s, rw (after_slash, e, f) refl, ap (λ (x : ℕ). x ∷ s) same, clean)
    | inr f ↦ inl (rw (after_slash, e, f) refl, rw f (omega (arith, clean)))
  ]
]

-- Of the path of a source file, as an array or as a pointer to its bytes, the log shows the same name
-- of the same size: the size of the name; it has no slash, and it is the whole path or what stands
-- after a slash of it.
pub of_array_lem :
    (s : List ℕ)
    → let file = of_array s in
      (of_pointer s ≡ file)
      × (file.size ≡ length file.name)
      × (tally is_slash file.name ≡ 0)
      × ((file.name ≡ s) ⊎ ((pre : List ℕ) × (s ≡ pre ++ b'/' ∷ file.name)))
unfolding of_array of_pointer
of_array_lem s = elim (after_slash_lem s) [
  | inl (e, clean) ↦ rw (of_array, of_pointer, e) (refl, refl, clean, inl refl)
  | inr (pre, base, e, split, clean) ↦
      let size : length s - (length s - length base) ≡ length base =
        omega (arith, ap length split, length-append pre (b'/' ∷ base)) in
      rw (of_array, of_pointer, e)
        (ap (λ (n : ℕ). record { name = base; size = n }) (sym size), size, clean, inr (pre, split))
]

-- The text of a line, its time printed anew.
abbrev pub line_text : Printer → Line → List ℕ
line_text printer line =
    (printer.stamp (line.now / 1000000) ++ printer.micros (line.now % 1000000))
    ++ log_level_name (level_of line.opening)
    ++ print_error printer (errno_of line.opening)
    ++ prefix_of line.opening
    ++ line.body
    ++ finish printer line.file line.number

-- The texts of the lines up to the first fatal one, and whether there is one.
abbrev pub texts : Printer → List Line → List (List ℕ) × Ending
texts printer [] = ([], all_written)
texts printer (line ∷ lines) =
    let (rest, how) = texts printer lines in
    if is_fatal (level_of line.opening)
    then (line_text printer line ∷ [], fatal_line)
    else (line_text printer line ∷ rest, how)

-- Each line is of a second after the first one of 1970 that is printed in 17 bytes: `gmtime_r` and
-- `snprintf` print one of a year of four digits so.
abbrev pub AllPrinted : Printer → List Line → Type 0
AllPrinted printer [] = Unit {0}
AllPrinted printer (line ∷ lines) =
    (0 < line.now / 1000000)
    × (length (printer.stamp (line.now / 1000000)) ≡ 17)
    × AllPrinted printer lines

-- The time that is kept is that of the second that is kept.
abbrev IsCurrent : Printer → Times → Type 0
IsCurrent printer t = (t.t_last_second ≡ 0) ⊎ (t.t_time ≡ printer.stamp t.t_last_second)

print_time_lem :
    (printer : Printer) (now : ℕ) (t : Times)
    → length t.t_time ≡ 17
    → print_time printer now t ≡ some (t.t_time ++ printer.micros (now % 1000000), t)
unfolding print_time
print_time_lem printer now t size =
    let test : (length t.t_time == 17) ≡ true = ground arith in rw (print_time, test) refl

-- What `formatTime` prints, and what it keeps.
record Printed (printer : Printer) (now : ℕ) (t : Times) : Type 0 where
  times : Times
  prints :
      format_time printer now t
      ≡ some (printer.stamp (now / 1000000) ++ printer.micros (now % 1000000), times)
  current : IsCurrent printer times

format_time_lem :
    (printer : Printer) (now : ℕ) (t : Times)
    → 0 < now / 1000000
    → length (printer.stamp (now / 1000000)) ≡ 17
    → IsCurrent printer t
    → Printed printer now t
unfolding format_time
format_time_lem printer now t later size h = elim (Bool-cases (now / 1000000 == t.t_last_second)) [
  | inr e ↦
      let test : (length (printer.stamp (now / 1000000)) == 17) ≡ true = ground arith in
      let times : Times = record {
        t_time = printer.stamp (now / 1000000);
        t_last_second = now / 1000000;
      } in
      record { times = times; prints = rw (format_time, e, test) refl; current = inr refl }
  | inl e ↦
      let same : now / 1000000 ≡ t.t_last_second = ground arith in
      let kept : t.t_time ≡ printer.stamp (now / 1000000) = elim h [
        | inl none_ ↦ absurd (omega (arith, later, same, none_))
        | inr k ↦ k ∙ ap printer.stamp (sym same)
      ] in
      record {
        times = t;
        prints =
            rw (format_time, e)
              (print_time_lem printer now t (ap length kept ∙ size)
                ∙ ap (λ (x : List ℕ). some (x ++ printer.micros (now % 1000000), t)) kept);
        current = h;
      }
]

write_all-texts :
    (printer : Printer) (lines : List Line) (t : Times)
    → AllPrinted printer lines
    → IsCurrent printer t
    → write_all printer lines t ≡ texts printer lines
unfolding write_all write_line
write_all-texts printer [] t later h = refl
write_all-texts printer (line ∷ lines) t (first, size, later) h =
    let p = format_time_lem printer line.now t first size h in
    rw (write_all, write_line, p.prints, write_all-texts printer lines p.times later p.current) refl

-- The lines that a thread writes from its start, its formatted second kept from line to line, are the
-- lines with their times printed anew each, up to the first fatal one, and no assertion fails, where
-- no line is of the second 0, which is also the mark of a thread that has formatted none, and the
-- seconds of the lines are printed in 17 bytes.
pub write_all_lem :
    (printer : Printer) (lines : List Line)
    → AllPrinted printer lines
    → write_all printer lines no_times ≡ texts printer lines
write_all_lem printer lines printed = write_all-texts printer lines no_times printed (inl refl)
