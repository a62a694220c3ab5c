-- ===== src/Fat/Names/Valid.antt =====
-- src/pennfat/fat.c: the file names of `is_valid_filename`.
use pennos.Base.{ℕ, ◌≤◌, ◌≡◌, refl, ◌↔◌, ◌⊎◌, true, List, [], ◌∷◌, arith, length}
use pennos.Fat.Names.{is_filename_char, check_filename_charset, is_valid_filename}

-- A lower or upper case letter, a digit, a dot, an underscore or a dash, by their byte values.
abbrev pub IsFilenameChar : ℕ → Type 0
IsFilenameChar c =
    ((97 ≤ c) × (c ≤ 122))
    ⊎ ((65 ≤ c) × (c ≤ 90))
    ⊎ ((48 ≤ c) × (c ≤ 57))
    ⊎ (c ≡ 46)
    ⊎ (c ≡ 95)
    ⊎ (c ≡ 45)

abbrev pub AllFilenameChars : List ℕ → Type 0
AllFilenameChars [] = Unit {0}
AllFilenameChars (c ∷ cs) = IsFilenameChar c × AllFilenameChars cs

is_filename_char_sound : (c : ℕ) → is_filename_char c ≡ true → IsFilenameChar c
unfolding is_filename_char
is_filename_char_sound c h = ground arith

is_filename_char_complete : (c : ℕ) → IsFilenameChar c → is_filename_char c ≡ true
unfolding is_filename_char
is_filename_char_complete c h = ground arith

check_filename_charset_iff :
    (cs : List ℕ) → (check_filename_charset cs ≡ true) ↔ AllFilenameChars cs
unfolding check_filename_charset
check_filename_charset_iff [] = (λ _. tt, λ _. refl)
check_filename_charset_iff (c ∷ cs) =
    let rec = check_filename_charset_iff cs in
    (
      λ h. (is_filename_char_sound c (ground arith), rec.0 (ground arith)),
      λ h. rw (is_filename_char_complete c h.0) (rec.1 h.1),
    )

-- `is_valid_filename` accepts exactly the names of 1 to 31 bytes whose bytes are all letters, digits,
-- dots, underscores and dashes.
pub is_valid_filename_iff :
    (fname : List ℕ)
    → (is_valid_filename fname ≡ true)
      ↔ ((1 ≤ length fname) × (length fname ≤ 31) × AllFilenameChars fname)
unfolding is_valid_filename
is_valid_filename_iff fname =
    let rec = check_filename_charset_iff fname in
    (λ h. (ground arith, ground arith, rec.0 (ground arith)), λ h. ground (arith, rec.1 h.2))
