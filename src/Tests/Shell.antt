-- ===== src/Tests/Shell.antt =====
-- src/shell: the parser on command lines.
use pennos.Base.{ℕ, ◌+◌, ◌≡◌, refl, true, false, List, [], ◌∷◌, none, some, length}
use pennos.Shell.Lexer.{before_comment, trim_end, ends_in_ampersand}
use pennos.Shell.Parser.{
  Tokens, Memory, ParsedCommand, parsed, parse_command, parse_trimmed, parse_line, second_pass,
  check_tokens, kind_of, unless, finished, fill, nothing_filled,
}
use pennos.Shell.Parser.Fill.{AllBelow}
use pennos.Shell.Parser.Outcome.{IsWellFormed, fill-fits, parse_command-IsWellFormed}

abbrev enough : Memory
enough = record { calloc = true; realloc = true }

-- `a <f | b c >>g`.
abbrev line : List ℕ
line = b'a' ∷ 32 ∷ b'<' ∷ b'f' ∷ 32 ∷ b'|' ∷ 32 ∷ b'b' ∷ 32 ∷ b'c' ∷ 32 ∷ b'>' ∷ b'>' ∷ b'g' ∷ []

abbrev line_tokens : Tokens
line_tokens = record {
  num_commands = 1;
  total_strings = 3;
  has_token_last = true;
  has_file_input = true;
  has_file_output = true;
  is_file_append = true;
}

-- The line with blanks and a comment around it.
line_parsed :
    parse_command enough (32 ∷ b'a' ∷ 32 ∷ b'|' ∷ b'b' ∷ 32 ∷ b'&' ∷ b'#' ∷ b'&' ∷ [])
    ≡ parsed (record {
      is_background = true;
      is_file_append = false;
      stdin_file = none;
      stdout_file = none;
      num_commands = 2;
      commands = 0 ∷ 2 ∷ [];
      arguments = some (b'a' ∷ []) ∷ none ∷ some (b'b' ∷ []) ∷ none ∷ [];
    })
unfolding parse_command parse_trimmed parse_line second_pass check_tokens fill kind_of unless
    before_comment trim_end ends_in_ampersand
line_parsed = refl

fill-fits_example :
    (c : ParsedCommand) × (finished false line_tokens (fill (length line) true line nothing_filled)
      ≡ parsed c)
    × (c.num_commands ≡ 2)
    × (length c.arguments ≡ 3 + c.num_commands)
    × (length c.commands ≡ c.num_commands)
    × AllBelow (length c.arguments) c.commands
unfolding check_tokens kind_of unless
fill-fits_example = fill-fits line line_tokens false refl

parse_command-IsWellFormed_example : IsWellFormed (parse_command enough line)
parse_command-IsWellFormed_example = parse_command-IsWellFormed enough line
