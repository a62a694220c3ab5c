-- ===== src/Shell/Lexer.antt =====
-- src/shell/parser.c: bytes and words of a line.
use pennos.Base.{ℕ, Bool, true, false, ◌&&◌, ◌||◌, not, List, [], ◌∷◌, leb, ◌==◌, if◌then◌else◌}

-- `isspace` in the C locale.
abbrev pub is_space : ℕ → Bool
is_space c = c == 32 || (leb 9 c && leb c 13)

-- The characters that end a word: `<`, `>`, `|`, `&` and white space.
abbrev pub is_word : ℕ → Bool
is_word c = not (c == b'<' || c == b'>' || c == b'|' || c == b'&' || is_space c)

abbrev pub skip_word : List ℕ → List ℕ
skip_word [] = []
skip_word (c ∷ s) = let rest = skip_word s in if is_word c then rest else c ∷ s

abbrev pub skip_space : List ℕ → List ℕ
skip_space [] = []
skip_space (c ∷ s) = let rest = skip_space s in if is_space c then rest else c ∷ s

-- The word at a position: the bytes that `skip_word` passes.
abbrev pub word_at : List ℕ → List ℕ
word_at [] = []
word_at (c ∷ s) = let rest = word_at s in if is_word c then c ∷ rest else []

abbrev pub is_nil : List ℕ → Bool
is_nil [] = true
is_nil (c ∷ s) = false

-- The line up to the first `#`.
unfoldable pub before_comment : List ℕ → List ℕ
before_comment [] = []
before_comment (c ∷ s) = let rest = before_comment s in if c == b'#' then [] else c ∷ rest

unfoldable pub trim_end : List ℕ → List ℕ
trim_end [] = []
trim_end (c ∷ s) = let rest = trim_end s in if is_nil rest && is_space c then [] else c ∷ rest

unfoldable pub ends_in_ampersand : List ℕ → Bool
ends_in_ampersand [] = false
ends_in_ampersand (c ∷ []) = c == b'&'
ends_in_ampersand (c ∷ d ∷ s) = ends_in_ampersand (d ∷ s)

abbrev pub without_last : List ℕ → List ℕ
without_last [] = []
without_last (c ∷ []) = []
without_last (c ∷ d ∷ s) = c ∷ without_last (d ∷ s)

abbrev pub starts_with : ℕ → List ℕ → Bool
starts_with d [] = false
starts_with d (c ∷ s) = c == d

abbrev pub tail_if : Bool → List ℕ → List ℕ
tail_if false s = s
tail_if true [] = []
tail_if true (c ∷ s) = s
