-- ===== src/Shell/Parser.antt =====
-- src/shell/parser.c: `parse_command`. A line is the list of its bytes, and a position in it is what is
-- left of it up to `end`.
pub mod Loops
pub mod Fill
pub mod Passes
pub mod Outcome
use pennos.Base.{
  ℕ, zero, suc, ◌+◌, Bool, true, false, ◌&&◌, ◌||◌, not, List, [], ◌∷◌, ◌++◌, Option, none, some,
  ltb, leb, ◌==◌, if◌then◌else◌, length,
}
use pennos.Shell.Lexer.{
  skip_word, skip_space, word_at, is_nil, before_comment, trim_end, ends_in_ampersand, without_last,
  starts_with, tail_if,
}

-- What the first pass keeps.
pub record Tokens : Type 0 where
  pub num_commands : ℕ
  pub total_strings : ℕ
  pub has_token_last : Bool
  pub has_file_input : Bool
  pub has_file_output : Bool
  pub is_file_append : Bool

-- One round of the first pass: an error code, or the position behind the token.
pub data Step : Type 0 where
  jump_out : ℕ → Step
  next : List ℕ → Tokens → Step

-- The cases of the two `switch` statements on the byte at a position.
pub data Kind : Type 0 where
  ampersand input output pipe argument : Kind

unfoldable pub kind_of : ℕ → Kind
kind_of c =
    if c == b'&'
    then ampersand
    else if c == b'<'
    then input
    else if c == b'>'
    then output
    else if c == b'|'
    then pipe
    else argument

-- `if (bad) JUMP_OUT(code)`.
unfoldable pub unless : (bad : Bool) → (code : ℕ) → Step → Step
unless true code step = jump_out code
unless false code step = step

-- The file name of a redirection, which must not be missing.
abbrev pub pass_name : (code : ℕ) → List ℕ → Tokens → Step
pass_name code s st =
    unless (is_nil (word_at (skip_space s))) code (next (skip_word (skip_space s)) st)

abbrev pub check_kind : Kind → ℕ → List ℕ → Tokens → Step
check_kind ampersand c s st = jump_out 4
check_kind input c s st =
    unless (ltb 0 st.num_commands || st.has_file_input) 1
      (pass_name 5 s (record st { has_file_input = true }))
check_kind output c s st = unless st.has_file_output 2 (
    pass_name 6 (tail_if (starts_with b'>' s) s) (record st {
      has_file_output = true;
      is_file_append = starts_with b'>' s || st.is_file_append;
    }))
check_kind pipe c s st = unless st.has_file_output 2 (
    unless (not st.has_token_last) 3
      (next s (record st { has_token_last = false; num_commands = st.num_commands + 1 })))
check_kind argument c s st =
    next (skip_word (c ∷ s))
      (record st { has_token_last = true; total_strings = st.total_strings + 1 })

abbrev pub check_token : ℕ → List ℕ → Tokens → Step
check_token c = check_kind (kind_of c) c

pub data Checked : Type 0 where
  error : ℕ → Checked
  checked : Tokens → Checked
  unfinished : Checked

-- The loop of the first pass. A round passes at least one byte, so that one round for each byte is
-- enough.
unfoldable pub check_tokens : (rounds : ℕ) → List ℕ → Tokens → Checked
check_tokens rounds [] st = checked st
check_tokens zero (c ∷ s) st = unfinished
check_tokens (suc rounds) (c ∷ s) st = elim (check_token c s st) [
  | jump_out e ↦ error e
  | next r st' ↦ check_tokens rounds (skip_space r) st'
]

-- What the second pass has written: the array of arguments, of which `none` is the null pointer that
-- ends an argument vector, and for each command the index at which its vector starts.
pub record Filled : Type 0 where
  pub arguments : List (Option (List ℕ))
  pub commands : List ℕ
  pub stdin_file : Option (List ℕ)
  pub stdout_file : Option (List ℕ)

pub data Placing : Type 0 where
  placed : List ℕ → Filled → Placing

abbrev pub place_argument : ℕ → List ℕ → Filled → Placing
place_argument c s b =
    placed (skip_word (c ∷ s)) (record b { arguments = b.arguments ++ some (word_at (c ∷ s)) ∷ [] })

-- `&`, which the first pass does not leave here, is taken as an argument.
abbrev pub place_kind : Kind → (is_file_append : Bool) → ℕ → List ℕ → Filled → Placing
place_kind input append c s b =
    placed (skip_word (skip_space s)) (record b { stdin_file = some (word_at (skip_space s)) })
place_kind output append c s b =
    placed (skip_word (skip_space (tail_if append s)))
      (record b { stdout_file = some (word_at (skip_space (tail_if append s))) })
place_kind pipe append c s b = placed s (record b {
  arguments = b.arguments ++ none ∷ [];
  commands = b.commands ++ (length b.arguments + 1) ∷ [];
})
place_kind ampersand append c s b = place_argument c s b
place_kind argument append c s b = place_argument c s b

unfoldable pub fill : (rounds : ℕ) → (is_file_append : Bool) → List ℕ → Filled → Option Filled
fill rounds append [] b = some b
fill zero append (c ∷ s) b = none
fill (suc rounds) append (c ∷ s) b = elim (place_kind (kind_of c) append c s b) [
  | placed r b' ↦ fill rounds append (skip_space r) b'
]

-- `struct parsed_command`, with the arrays behind it.
pub record ParsedCommand : Type 0 where
  pub is_background : Bool
  pub is_file_append : Bool
  pub stdin_file : Option (List ℕ)
  pub stdout_file : Option (List ℕ)
  pub num_commands : ℕ
  pub commands : List ℕ
  pub arguments : List (Option (List ℕ))

-- The memory that is granted: the zeroed struct, and the larger one.
pub record Memory : Type 0 where
  pub calloc : Bool
  pub realloc : Bool

pub data Parsed : Type 0 where
  no_memory : Parsed
  parse_error : ℕ → Parsed
  parsed : ParsedCommand → Parsed
  runs_on : Parsed

abbrev pub empty_command : ParsedCommand
empty_command = record {
  is_background = false;
  is_file_append = false;
  stdin_file = none;
  stdout_file = none;
  num_commands = 0;
  commands = [];
  arguments = [];
}

abbrev pub no_tokens : Tokens
no_tokens = record {
  num_commands = 0;
  total_strings = 0;
  has_token_last = false;
  has_file_input = false;
  has_file_output = false;
  is_file_append = false;
}

abbrev pub nothing_filled : Filled
nothing_filled = record { arguments = []; commands = 0 ∷ []; stdin_file = none; stdout_file = none }

abbrev pub finished : (is_background : Bool) → Tokens → Option Filled → Parsed
finished is_background st none = runs_on
finished is_background st (some b) = parsed (record {
  is_background = is_background;
  is_file_append = st.is_file_append;
  stdin_file = b.stdin_file;
  stdout_file = b.stdout_file;
  num_commands = st.num_commands + 1;
  commands = b.commands;
  arguments = b.arguments ++ none ∷ [];
})

-- Behind the first pass.
unfoldable pub second_pass : Memory → (is_background : Bool) → List ℕ → Tokens → Parsed
second_pass m is_background line st =
    if st.total_strings == 0
    then (if is_background || st.has_file_input || st.has_file_output
        then parse_error 7
        else parsed empty_command)
    else if not st.has_token_last
    then parse_error 3
    else if not m.realloc
    then no_memory
    else finished is_background st (fill (length line) st.is_file_append line nothing_filled)

unfoldable pub parse_line : Memory → (is_background : Bool) → List ℕ → Parsed
parse_line m is_background line = elim (check_tokens (length line) line no_tokens) [
  | error e ↦ parse_error e
  | unfinished ↦ runs_on
  | checked st ↦ second_pass m is_background line st
]

unfoldable pub parse_trimmed : Memory → List ℕ → Parsed
parse_trimmed m line =
    if not m.calloc
    then no_memory
    else if is_nil line
    then parsed empty_command
    else if ends_in_ampersand line
    then parse_line m true (without_last line)
    else parse_line m false line

unfoldable pub parse_command : Memory → List ℕ → Parsed
parse_command m cmd_line = parse_trimmed m (trim_end (skip_space (before_comment cmd_line)))
