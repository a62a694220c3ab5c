-- ===== src/Shell/Parser/Outcome.antt =====
-- src/shell/parser.c: what `parse_command` returns.
use pennos.Base.{
  ℕ, ◌+◌, ◌≡◌, refl, ap, sym, subst, Bool, true, false, not, List, [], ◌∷◌, ◌++◌, none, arith, ◌==◌,
  if◌then◌else◌, length, length-append,
}
use pennos.Shell.Lexer.{
  is_nil, skip_space, before_comment, trim_end, ends_in_ampersand, without_last,
}
use pennos.Shell.Parser.{
  Tokens, Checked, error, checked, unfinished, check_tokens, fill, ParsedCommand, Memory, Parsed,
  no_memory, parse_error, parsed, runs_on, empty_command, no_tokens, nothing_filled, finished,
  second_pass, parse_line, parse_trimmed, parse_command,
}
use pennos.Shell.Parser.Loops.{IsCode, check_tokens-ends}
use pennos.Shell.Parser.Fill.{AllBelow, AllBelow-mono, Counted}
use pennos.Shell.Parser.Passes.{check_tokens-Counted, check_tokens-IsCode}

-- `num_commands` argument vectors, each of which starts inside the array of arguments.
abbrev pub IsWellFormed : Parsed → Type 0
IsWellFormed no_memory = Unit
IsWellFormed (parse_error e) = IsCode e
IsWellFormed (parsed c) =
    (length c.commands ≡ c.num_commands) × AllBelow (length c.arguments) c.commands
IsWellFormed runs_on = ⊥

nothing_filled-Counted : Counted no_tokens nothing_filled
nothing_filled-Counted = record { arguments = refl; commands = refl; starts = (omega arith, tt) }

-- When the first pass has passed a line, the second pass ends, and the array of arguments that it
-- writes has the length for which memory was asked: one pointer for each string that was counted
-- and one null pointer for each command.
pub fill-fits :
    (line : List ℕ) (st : Tokens) (is_background : Bool)
    → check_tokens (length line) line no_tokens ≡ checked st
    → (c : ParsedCommand) × (finished is_background st
          (fill (length line) st.is_file_append line nothing_filled)
        ≡ parsed c)
      × (c.num_commands ≡ st.num_commands + 1)
      × (length c.arguments ≡ st.total_strings + c.num_commands)
      × (length c.commands ≡ c.num_commands)
      × AllBelow (length c.arguments) c.commands
fill-fits line st is_background h =
    let (b, filled, counted) =
      check_tokens-Counted (length line) line no_tokens st nothing_filled (λ _. refl)
        nothing_filled-Counted h in
    let size = length-append b.arguments (none ∷ []) in
    (
      record {
        is_background = is_background;
        is_file_append = st.is_file_append;
        stdin_file = b.stdin_file;
        stdout_file = b.stdout_file;
        num_commands = st.num_commands + 1;
        commands = b.commands;
        arguments = b.arguments ++ none ∷ [];
      },
      ap (finished is_background st) filled,
      refl,
      omega (arith, size, counted.arguments),
      counted.commands,
      AllBelow-mono _ _ b.commands counted.starts (omega (arith, size)),
    )

if-IsWellFormed :
    (b : Bool) (p q : Parsed) → IsWellFormed p → IsWellFormed q → IsWellFormed (if b then p else q)
if-IsWellFormed true p q hp hq = hp
if-IsWellFormed false p q hp hq = hq

second_pass-IsWellFormed :
    (m : Memory) (is_background : Bool) (line : List ℕ) (st : Tokens)
    → check_tokens (length line) line no_tokens ≡ checked st
    → IsWellFormed (second_pass m is_background line st)
unfolding second_pass
second_pass-IsWellFormed m is_background line st h =
    let (c, is, _, _, commands, starts) = fill-fits line st is_background h in
    let code : IsCode 7 = (omega arith, omega arith) in
    let pipe : IsCode 3 = (omega arith, omega arith) in
    if-IsWellFormed (st.total_strings == 0) _ _
      (if-IsWellFormed _ (parse_error 7) (parsed empty_command) code (refl, tt))
      (if-IsWellFormed (not st.has_token_last) (parse_error 3) _ pipe (
        if-IsWellFormed (not m.realloc) no_memory _ tt
          (subst IsWellFormed (sym is) (commands, starts))))

parse_line-IsWellFormed :
    (m : Memory) (is_background : Bool) (line : List ℕ)
    → IsWellFormed (parse_line m is_background line)
unfolding parse_line
parse_line-IsWellFormed m is_background line =
    by_outcome (check_tokens (length line) line no_tokens) refl
  where
    by_outcome :
        (q : Checked)
        → check_tokens (length line) line no_tokens ≡ q
        → IsWellFormed (elim q [
          | error e ↦ parse_error e
          | unfinished ↦ runs_on
          | checked st ↦ second_pass m is_background line st
        ])
    by_outcome (error e) h = check_tokens-IsCode (length line) line no_tokens e (λ _. refl) h
    by_outcome unfinished h = check_tokens-ends (length line) line no_tokens (omega arith) h
    by_outcome (checked st) h = second_pass-IsWellFormed m is_background line st h

-- For every line and whatever memory is granted, `parse_command` ends, with no memory, with one of the
-- codes 1 to 7, or with a command whose `num_commands` argument vectors all start inside its array of
-- arguments.
pub parse_command-IsWellFormed :
    (m : Memory) (cmd_line : List ℕ) → IsWellFormed (parse_command m cmd_line)
unfolding parse_command parse_trimmed
parse_command-IsWellFormed m cmd_line =
    let line = trim_end (skip_space (before_comment cmd_line)) in
    if-IsWellFormed (not m.calloc) no_memory _ tt (
      if-IsWellFormed (is_nil line) (parsed empty_command) _ (refl, tt)
        (if-IsWellFormed (ends_in_ampersand line) _ _
          (parse_line-IsWellFormed m true (without_last line))
          (parse_line-IsWellFormed m false line)))
