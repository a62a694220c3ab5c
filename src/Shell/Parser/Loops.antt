-- ===== src/Shell/Parser/Loops.antt =====
-- src/shell/parser.c: the loops of both passes end.
use pennos.Base.{
  ℕ, zero, suc, ◌≤◌, ◌≡◌, ◌≢◌, refl, Bool, true, false, List, [], ◌∷◌, arith, length, Bool-cases,
  inl, inr,
}
use pennos.Shell.Lexer.{is_space, is_word, skip_word, skip_space, tail_if, starts_with}
use pennos.Shell.Parser.{
  Tokens, Step, jump_out, next, Kind, ampersand, input, output, pipe, argument, kind_of, unless,
  check_kind, Checked, error, unfinished, check_tokens,
}

pub length-skip_word : (s : List ℕ) → length (skip_word s) ≤ length s
length-skip_word [] = omega arith
length-skip_word (c ∷ s) = ground (arith, length-skip_word s)

pub length-skip_space : (s : List ℕ) → length (skip_space s) ≤ length s
length-skip_space [] = omega arith
length-skip_space (c ∷ s) = ground (arith, length-skip_space s)

length-tail_if : (b : Bool) (s : List ℕ) → length (tail_if b s) ≤ length s
length-tail_if false s = omega arith
length-tail_if true [] = omega arith
length-tail_if true (c ∷ s) = omega arith

-- The codes from UNEXPECTED_FILE_INPUT to EXPECT_COMMANDS.
abbrev pub IsCode : ℕ → Type 0
IsCode e = (1 ≤ e) × (e ≤ 7)

-- What holds of the position and the tokens, if the round does not end in an error.
pub data Always (P : List ℕ → Tokens → Type 0) : Step → Type 0 where
  stopped : {e : ℕ} → IsCode e → Always P (jump_out e)
  went_on : {r : List ℕ} {st : Tokens} → P r st → Always P (next r st)

pub unless-Always :
    {P : List ℕ → Tokens → Type 0} {bad : Bool} (code : ℕ) {step : Step}
    → IsCode code
    → (bad ≡ false → Always P step)
    → Always P (unless bad code step)
unless-Always {bad = true} code is h = unfold unless in stopped is
unless-Always {bad = false} code is h = unfold unless in h refl

pub Always-both :
    {P Q : List ℕ → Tokens → Type 0} {step : Step}
    → Always P step
    → Always Q step
    → Always (λ r st. P r st × Q r st) step
Always-both (stopped e) q = stopped e
Always-both (went_on p) (went_on q) = went_on (p, q)

-- The rest of the first pass behind a round.
abbrev pub behind : (List ℕ → Tokens → Checked) → Step → Checked
behind f (jump_out e) = error e
behind f (next r st) = f r st

pub behind-Always :
    {P : List ℕ → Tokens → Type 0} {step : Step} (Q : Checked → Type 0)
    (f : List ℕ → Tokens → Checked)
    → Always P step
    → ((e : ℕ) → IsCode e → Q (error e))
    → ((r : List ℕ) (st : Tokens) → P r st → Q (f r st))
    → Q (behind f step)
behind-Always Q f (stopped {e} code) failed more = failed e code
behind-Always Q f (went_on {r} {st} p) failed more = more r st p

-- A round goes on behind the byte that it looked at.
abbrev pub IsBehind : List ℕ → Step → Type 0
IsBehind s = Always (λ r _. length (skip_space r) ≤ length s)

pub name-shrinks :
    (append : Bool) (s : List ℕ)
    → length (skip_space (skip_word (skip_space (tail_if append s)))) ≤ length s
name-shrinks append s =
    let t = skip_space (tail_if append s) in
    omega (
      arith,
      length-tail_if append s,
      length-skip_space (tail_if append s),
      length-skip_word t,
      length-skip_space (skip_word t),
    )

-- A byte that is no operator is part of a word, or white space.
pub argument-shrinks :
    (c : ℕ) (s : List ℕ) → kind_of c ≡ argument → length (skip_space (skip_word (c ∷ s))) ≤ length s
unfolding kind_of
argument-shrinks c s k = elim (Bool-cases (is_word c)) [
  | inl word ↦ rw word (omega (arith, length-skip_word s, length-skip_space (skip_word s)))
  | inr no_word ↦
      let space : is_space c ≡ true = ground arith in
      rw no_word (rw space (omega (arith, length-skip_space s)))
]

check_kind-IsBehind :
    (k : Kind) (c : ℕ) (s : List ℕ) (st : Tokens) → kind_of c ≡ k → IsBehind s (check_kind k c s st)
check_kind-IsBehind ampersand c s st is = stopped (omega arith, omega arith)
check_kind-IsBehind input c s st is =
    unless-Always 1 (omega arith, omega arith)
      λ _. unless-Always 5 (omega arith, omega arith) λ _. went_on (name-shrinks false s)
check_kind-IsBehind output c s st is =
    unless-Always 2 (omega arith, omega arith)
      λ _.
        unless-Always 6 (omega arith, omega arith)
          λ _. went_on (name-shrinks (starts_with b'>' s) s)
check_kind-IsBehind pipe c s st is =
    unless-Always 2 (omega arith, omega arith)
      λ _. unless-Always 3 (omega arith, omega arith) λ _. went_on (length-skip_space s)
check_kind-IsBehind argument c s st is = went_on (argument-shrinks c s is)

-- The first pass ends.
pub check_tokens-ends :
    (rounds : ℕ) (s : List ℕ) (st : Tokens)
    → length s ≤ rounds
    → check_tokens rounds s st ≢ unfinished
unfolding check_tokens
check_tokens-ends rounds [] st enough = λ e. cc
check_tokens-ends zero (c ∷ s) st enough = absurd (omega arith)
check_tokens-ends (suc rounds) (c ∷ s) st enough =
    behind-Always (λ q. q ≢ unfinished) (λ r st'. check_tokens rounds (skip_space r) st')
      (check_kind-IsBehind (kind_of c) c s st refl) (λ e _ h. cc)
      λ r st' h. check_tokens-ends rounds (skip_space r) st' (omega (arith, h))
