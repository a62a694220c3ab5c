-- ===== src/Fat/Names.antt =====
-- src/pennfat/fat.c: file names and the comparison of C strings. A string is the list of its bytes
-- before the terminating 0.
pub mod Valid
use pennos.Base.{
  ℕ, Bool, true, false, ◌&&◌, ◌||◌, List, [], ◌∷◌, ltb, leb, ◌==◌, if◌then◌else◌, length, list_eq,
  min,
}

-- The bytes of a char array up to its first 0.
unfoldable pub c_string : List ℕ → List ℕ
c_string [] = []
c_string (b ∷ bs) = let rest = c_string bs in if b == 0 then [] else b ∷ rest

-- `strcmp(fname, array) == 0`.
unfoldable pub strcmp_eq : List ℕ → List ℕ → Bool
strcmp_eq fname array = list_eq fname (c_string array)

unfoldable pub is_filename_char : ℕ → Bool
is_filename_char c =
    (leb b'a' c && leb c b'z')
    || (leb b'A' c && leb c b'Z')
    || (leb b'0' c && leb c b'9')
    || c == b'.'
    || c == b'_'
    || c == b'-'

unfoldable pub check_filename_charset : List ℕ → Bool
check_filename_charset [] = true
check_filename_charset (c ∷ cs) = is_filename_char c && check_filename_charset cs

-- `strnlen(fname, 31)`, and the byte behind: it is the terminator only if the string is no longer.
unfoldable pub is_valid_filename : List ℕ → Bool
unfolding check_filename_charset is_filename_char
is_valid_filename fname =
    let strlen = min (length fname) 31 in
    if ltb strlen 1
    then false
    else if ltb strlen (length fname)
    then false
    else check_filename_charset fname
