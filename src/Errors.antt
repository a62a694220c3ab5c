-- ===== src/Errors.antt =====
-- src/utils/errno.c: the texts of the error numbers, which error_codes.h has as negative numbers.
use pennos.Base.{
  ℕ, ◌+◌, ◌≤◌, ◌≡◌, refl, Bool, true, ◌&&◌, List, [], ◌∷◌, arith, ◌==◌, leb, if◌then◌else◌, length,
  codes, ℤ, pos, negsuc, Bool-cases, inl, inr,
}

-- The `case`s of the switch statement, by the absolute value of the number.
abbrev texts : List (ℕ × List ℕ)
texts =
    (1, codes "No init process")
    ∷ (2, codes "Init already exists")
    ∷ (3, codes "Failed to allocate")
    ∷ (4, codes "Bad argv")
    ∷ (5, codes "Str format failed")
    ∷ (6, codes "Str too long for fprintf buf")
    ∷ (7, codes "Invalid pcb")
    ∷ (8, codes "Invalid scheduler state")
    ∷ (9, codes "No such process")
    ∷ (10, codes "Invalid argument")
    ∷ (11, codes "Tried to kill init")
    ∷ (12, codes "No terminal control")
    ∷ (13, codes "Continue non-stopped process")
    ∷ (14, codes "Stop stopped process")
    ∷ (15, codes "Stop non-active queue process")
    ∷ (16, codes "PID not found")
    ∷ (17, codes "No current process")
    ∷ (18, codes "Running process not in ready queue")
    ∷ (19, codes "Invalid filename")
    ∷ (20, codes "Find file in root dir failed")
    ∷ (21, codes "Global fd table full")
    ∷ (22, codes "File does not exist")
    ∷ (23, codes "Malloc failed")
    ∷ (24, codes "Time failed")
    ∷ (25, codes "Already write locked")
    ∷ (26, codes "Write new root dir entry failed")
    ∷ (27, codes "No empty blocks")
    ∷ (28, codes "Wrong permissions")
    ∷ (29, codes "Write root dir entry failed")
    ∷ (30, codes "FD out of range")
    ∷ (31, codes "Special FD")
    ∷ (32, codes "Write root dir entry failed")
    ∷ (33, codes "FD out of range")
    ∷ (34, codes "FD not in table")
    ∷ (35, codes "Could not jump to block for offset")
    ∷ (36, codes "Wrong permissions")
    ∷ (37, codes "Read failed")
    ∷ (38, codes "Lseek: Bad whence")
    ∷ (39, codes "Lseek: Negative offset")
    ∷ (40, codes "Offset overflow")
    ∷ (41, codes "FD out of range")
    ∷ (42, codes "FD not in table")
    ∷ (43, codes "Lseek: Wrong permissions")
    ∷ (44, codes "Special FD")
    ∷ (45, codes "Wrong permissions")
    ∷ (46, codes "FD not in table")
    ∷ (47, codes "FD out of range")
    ∷ (48, codes "Get block failed")
    ∷ (49, codes "Next block num failed")
    ∷ (50, codes "Write block failed")
    ∷ (51, codes "Write root dir entry failed")
    ∷ (52, codes "No empty blocks")
    ∷ (53, codes "Time failed")
    ∷ (54, codes "Write failed")
    ∷ (55, codes "Unlink: File not found")
    ∷ (56, codes "Unlink: Find file in root dir failed")
    ∷ (57, codes "Unlink: Write root dir entry failed")
    ∷ (58, codes "Unlink: Invalid filename")
    ∷ (59, codes "Write failed")
    ∷ (60, codes "Find file in root dir failed")
    ∷ (61, codes "Not implemented")
    ∷ (62, codes "Malloc failed")
    ∷ (63, codes "Get block failed")
    ∷ (64, codes "Next block num failed")
    ∷ (65, codes "File not found")
    ∷ (66, codes "Write root dir entry failed")
    ∷ (67, codes "Wrong permissions")
    ∷ (68, codes "Invalid filename")
    ∷ (69, codes "Invalid mode")
    ∷ (70, codes "File not found")
    ∷ (71, codes "Wrong permissions")
    ∷ (72, codes "Unlink failed")
    ∷ (73, codes "Invalid filename")
    ∷ (74, codes "Open failed")
    ∷ (75, codes "Write root dir entry failed")
    ∷ (76, codes "Close failed")
    ∷ (77, codes "FD out of range")
    ∷ (78, codes "Bad mode")
    ∷ (79, codes "FD not in use")
    ∷ (80, codes "FD out of range")
    ∷ (81, codes "FD not in use")
    ∷ (103, codes "Unknown FD")
    ∷ (100, codes "Process file table full")
    ∷ (101, codes "Read: Unknown FD")
    ∷ (104, codes "String format failed")
    ∷ (105, codes "String too long for printf buf")
    ∷ []

abbrev pub text_in : List (ℕ × List ℕ) → ℕ → List ℕ
text_in [] n = codes "Unknown error"
text_in ((code, text) ∷ rest) n = let later = text_in rest n in if code == n then text else later

unfoldable pub u_strerror : ℤ → List ℕ
u_strerror (pos n) = codes "Unknown error"
u_strerror (negsuc n) = text_in texts (n + 1)

abbrev pub err_message_size : ℕ
err_message_size = 101

abbrev texts_fit : List (ℕ × List ℕ) → Bool
texts_fit [] = true
texts_fit ((code, text) ∷ rest) = leb (length text) 100 && texts_fit rest

text_in-fits :
    (table : List (ℕ × List ℕ)) (n : ℕ) → texts_fit table ≡ true → length (text_in table n) ≤ 100
text_in-fits [] n fit = omega arith
text_in-fits ((code, text) ∷ rest) n fit = elim (Bool-cases (code == n)) [
  | inl found ↦ rw found (ground (arith, fit))
  | inr other ↦ rw other (text_in-fits rest n (ground (arith, fit)))
]

-- Every error number has a text that fits, with the null byte at its end, into the buffer
-- `err_message` of 101 bytes.
pub u_strerror-fits : (errno : ℤ) → length (u_strerror errno) + 1 ≤ err_message_size
unfolding u_strerror
u_strerror-fits (pos n) = omega arith
u_strerror-fits (negsuc n) = let fits = text_in-fits texts (n + 1) refl in omega arith
