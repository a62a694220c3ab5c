-- ===== src/Shell/Parser/Fill.antt =====
-- src/shell/parser.c: the second pass writes what the first pass has counted.
use pennos.Base.{
  ℕ, ◌+◌, ◌≤◌, ◌<◌, ◌≡◌, refl, ◌∙◌, Bool, true, false, ◌||◌, List, [], ◌∷◌, ◌++◌, none, some, arith,
  length, length-append,
}
use pennos.Shell.Lexer.{skip_space, word_at, tail_if, starts_with}
use pennos.Shell.Parser.{
  Tokens, Kind, ampersand, input, output, pipe, argument, kind_of, check_kind, Filled, placed,
  place_kind,
}
use pennos.Shell.Parser.Loops.{Always, stopped, went_on, unless-Always}

abbrev pub AllBelow : ℕ → List ℕ → Type 0
AllBelow n [] = Unit
AllBelow n (i ∷ l) = (i < n) × AllBelow n l

AllBelow-append : (n m i : ℕ) (l : List ℕ) → AllBelow n l → n ≤ m → i < m → AllBelow m (l ++ i ∷ [])
AllBelow-append n m i [] all le lt = (lt, tt)
AllBelow-append n m i (j ∷ l) all le lt =
    (omega (arith, all.0), AllBelow-append n m i l all.1 le lt)

pub AllBelow-mono : (n m : ℕ) (l : List ℕ) → AllBelow n l → n ≤ m → AllBelow m l
AllBelow-mono n m [] all le = tt
AllBelow-mono n m (j ∷ l) all le = (omega (arith, all.0), AllBelow-mono n m l all.1 le)

-- The pointers written so far are as many as the strings and the ends of commands that were counted,
-- and each command starts at one of them or behind the last.
pub record Counted (st : Tokens) (b : Filled) : Type 0 where
  pub arguments : length b.arguments ≡ st.total_strings + st.num_commands
  pub commands : length b.commands ≡ st.num_commands + 1
  pub starts : AllBelow (length b.arguments + 1) b.commands

-- Without an output file nothing is appended to.
abbrev pub Plain : Tokens → Type 0
Plain st = st.has_file_output ≡ false → st.is_file_append ≡ false

-- Once there is an output file, the flag is final.
abbrev pub Final : Tokens → Bool → Type 0
Final st append = st.has_file_output ≡ true → append ≡ st.is_file_append

or_false : (a b : Bool) → b ≡ false → (a || b) ≡ a
or_false true b h = refl
or_false false b h = h

-- What a round of the first pass does to the flags.
abbrev pub Flags : Tokens → List ℕ → Tokens → Type 0
Flags st r st' = Plain st' × ((append : Bool) → Final st' append → Final st append)

pub check_kind-Flags :
    (k : Kind) (c : ℕ) (s : List ℕ) (st : Tokens)
    → Plain st
    → Always (Flags st) (check_kind k c s st)
check_kind-Flags ampersand c s st plain = stopped (omega arith, omega arith)
check_kind-Flags input c s st plain =
    unless-Always 1 (omega arith, omega arith)
      λ _. unless-Always 5 (omega arith, omega arith) λ _. went_on (plain, λ append f. f)
check_kind-Flags output c s st plain =
    unless-Always 2 (omega arith, omega arith)
      λ new.
        unless-Always 6 (omega arith, omega arith)
          λ _. went_on (λ no. absurd (ground arith), λ append f yes. absurd (ground arith))
check_kind-Flags pipe c s st plain =
    unless-Always 2 (omega arith, omega arith)
      λ _. unless-Always 3 (omega arith, omega arith) λ _. went_on (plain, λ append f. f)
check_kind-Flags argument c s st plain = went_on (plain, λ append f. f)

-- What a round of the first pass says of the same round of the second.
pub record Round (k : Kind) (c : ℕ) (s : List ℕ) (st : Tokens) (b : Filled) (r : List ℕ)
    (st' : Tokens) : Type 0 where
  pub placing :
      (append : Bool)
      → Final st' append
      → (b' : Filled) × (place_kind k append c s b ≡ placed r b') × Counted st' b'

module _ (c : ℕ) (s : List ℕ) (st : Tokens) (b : Filled) (plain : Plain st)
    (counted : Counted st b) where
  Counted-argument :
      (word : List ℕ)
      → Counted
          (record st { has_token_last = true; total_strings = st.total_strings + 1 })
          (record b { arguments = b.arguments ++ some word ∷ [] })
  Counted-argument word =
      let size = length-append b.arguments (some word ∷ []) in
      record {
        arguments = omega (arith, size, counted.arguments);
        commands = counted.commands;
        starts = AllBelow-mono _ _ b.commands counted.starts (omega (arith, size));
      }

  Counted-pipe :
      Counted
        (record st { has_token_last = false; num_commands = st.num_commands + 1 })
        (record b {
          arguments = b.arguments ++ none ∷ [];
          commands = b.commands ++ (length b.arguments + 1) ∷ [];
        })
  Counted-pipe =
      let size = length-append b.arguments (none ∷ []) in
      let count = length-append b.commands ((length b.arguments + 1) ∷ []) in
      record {
        arguments = omega (arith, size, counted.arguments);
        commands = omega (arith, count, counted.commands);
        starts =
            AllBelow-append _ _ _ b.commands counted.starts (omega (arith, size))
              (omega (arith, size));
      }

  pub check_kind-Round :
      (k : Kind) → kind_of c ≡ k → Always (Round k c s st b) (check_kind k c s st)
  check_kind-Round ampersand is = stopped (omega arith, omega arith)
  check_kind-Round input is =
      unless-Always 1 (omega arith, omega arith)
        λ _.
          unless-Always 5 (omega arith, omega arith)
            λ _. went_on (record {
              placing = λ append f. (
                record b { stdin_file = some (word_at (skip_space s)) },
                refl,
                record {
                  arguments = counted.arguments;
                  commands = counted.commands;
                  starts = counted.starts;
                },
              );
            })
  check_kind-Round output is =
      unless-Always 2 (omega arith, omega arith)
        λ new.
          unless-Always 6 (omega arith, omega arith)
            λ _. went_on (record {
              placing = λ append f.
                  let same : append ≡ starts_with b'>' s =
                    f refl ∙ or_false (starts_with b'>' s) st.is_file_append (plain new) in
                  (
                    record b { stdout_file = some (word_at (skip_space (tail_if append s))) },
                    rw same refl,
                    record {
                      arguments = counted.arguments;
                      commands = counted.commands;
                      starts = counted.starts;
                    },
                  );
            })
  check_kind-Round pipe is =
      unless-Always 2 (omega arith, omega arith)
        λ _.
          unless-Always 3 (omega arith, omega arith)
            λ _. went_on (record {
              placing = λ append f. (
                record b {
                  arguments = b.arguments ++ none ∷ [];
                  commands = b.commands ++ (length b.arguments + 1) ∷ [];
                },
                refl,
                Counted-pipe,
              );
            })
  check_kind-Round argument is = went_on (record {
    placing = λ append f. (
      record b { arguments = b.arguments ++ some (word_at (c ∷ s)) ∷ [] },
      refl,
      Counted-argument (word_at (c ∷ s)),
    );
  })
