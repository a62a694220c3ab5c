-- ===== src/Fat/Edit.antt =====
-- src/pennfat/fat.c: the calls that edit directory entries, `k_unlink`, `k_chmod`, `k_mv`.
pub mod Permissions
pub mod Unlink
use pennos.Base.{
  ℕ, ◌+◌, ◌-◌, Bool, true, false, ◌&&◌, ◌||◌, List, Option, none, some, ltb, leb, ◌==◌,
  if◌then◌else◌, ℤ, pos, negsuc, neg, is_neg, not, bit_and, bit_or,
}
use pennos.Fat.State.{DirEntry, FdEntry, Kernel, Cmd, pure, ◌>>=◌, ◌>>◌, get, deref, set_fd, f_read}
use pennos.Fat.Chain.{clear_fat_file}
use pennos.Fat.Names.{is_valid_filename}
use pennos.Fat.Dir.{
  FindFile, find_failed, file_not_found, file_deleted, file_found, find_file_in_root_dir,
  write_root_dir_entry,
}
use pennos.Fat.FdTable.{find_file_in_global_fd_table}
use pennos.Fat.Open.{k_open, k_close, set_entry, set_name0, strcpy, efs_not_mounted}

unfoldable pub unlink_status : ℕ → ℤ
unlink_status s = if s == 0 then pos 0 else neg 57

abbrev pub free_blocks : DirEntry → Cmd (Unit {0})
free_blocks e = if e.first_block == 0 then pure tt else clear_fat_file e.first_block

-- A file that is open keeps its blocks until the last `k_close`.
unfoldable pub unlink_open : ℕ → Cmd ℤ
unlink_open fd = do
  k ← get
  let g = k.table fd
  e ← deref g.ptr_to_dir_entry
  let e' = set_name0 e (if ltb 0 g.ref_count then 2 else 1)
  set_fd fd (set_entry g e')
  _ ← (if ltb 0 g.ref_count then pure tt else free_blocks e)
  s ← write_root_dir_entry e' g.dir_entry_block_num g.dir_entry_idx
  pure (unlink_status s)

unfoldable pub unlink_closed : DirEntry → (block idx : ℕ) → Cmd ℤ
unlink_closed e block idx = do
  free_blocks e
  s ← write_root_dir_entry (set_name0 e 1) block idx
  pure (unlink_status s)

unfoldable pub k_unlink : List ℕ → Cmd ℤ
k_unlink fname = do
  k ← get
  if not k.is_mounted
      then pure efs_not_mounted
      else if not (is_valid_filename fname)
      then pure (neg 58)
      else (do
        open_fd ← find_file_in_global_fd_table fname
        elim open_fd [
          | some fd ↦ unlink_open fd
          | none ↦ do
            found ← find_file_in_root_dir fname
            elim found [
              | find_failed ↦ pure (neg 56)
              | file_not_found ↦ pure (neg 55)
              | file_deleted _ _ _ ↦ pure (neg 55)
              | file_found e block idx ↦ unlink_closed e block idx
            ]
        ])

-- The permissions that a mode gives: set, add, remove; `none` for any other mode.
unfoldable pub chmod_perm : (mode old perm : ℕ) → Option ℕ
chmod_perm mode old perm =
    if mode == 0
    then some perm
    else if mode == 1
    then some (bit_or old perm)
    else if mode == 2
    then some (bit_and old (255 - perm))
    else none

unfoldable pub chmod_found : DirEntry → (block idx perm mode : ℕ) → Cmd ℤ
chmod_found e block idx perm mode =
    if ltb 7 perm then pure (neg 67) else elim (chmod_perm mode e.perm perm) [
      | none ↦ pure (neg 69)
      | some p ↦ do
        s ← write_root_dir_entry (record e { perm = p }) block idx
        pure (if s == 0 then pos 0 else neg 66)
    ]

unfoldable pub k_chmod : List ℕ → (perm mode : ℕ) → Cmd ℤ
k_chmod fname perm mode = do
  k ← get
  if not k.is_mounted
      then pure efs_not_mounted
      else if not (is_valid_filename fname)
      then pure (neg 68)
      else (do
        found ← find_file_in_root_dir fname
        elim found [
          | find_failed ↦ pure (neg 65)
          | file_not_found ↦ pure (neg 65)
          | file_deleted _ _ _ ↦ pure (neg 65)
          | file_found e block idx ↦ chmod_found e block idx perm mode
        ])

abbrev pub is_zero_code : ℤ → Bool
is_zero_code (pos n) = n == 0
is_zero_code (negsuc _) = false

-- `EK_UNLINK_FILE_NOT_FOUND` and `EK_OPEN_FILE_DOES_NOT_EXIST`.
abbrev pub is_code : ℕ → ℤ → Bool
is_code c (pos _) = false
is_code c (negsuc m) = m + 1 == c

-- The source's entry takes the new name, in the descriptor and on disk; then it is closed.
unfoldable pub rename_open : ℕ → List ℕ → Cmd ℤ
rename_open fd dest = do
  k ← get
  let g = k.table fd
  e ← deref g.ptr_to_dir_entry
  let e' = record e { name = strcpy e.name dest }
  set_fd fd (set_entry g e')
  s ← write_root_dir_entry e' g.dir_entry_block_num g.dir_entry_idx
  c ← k_close (pos fd)
  pure (if not (is_zero_code c) then neg 76 else if s == 0 then pos 0 else neg 75)

unfoldable pub k_mv : (src dest : List ℕ) → Cmd ℤ
k_mv src dest = do
  k ← get
  if not k.is_mounted
      then pure efs_not_mounted
      else if not (is_valid_filename dest)
      then pure (neg 73)
      else (do
        u ← k_unlink dest
        if not (is_zero_code u) && not (is_code 55 u) then pure (neg 72) else (do
          src_fd ← k_open src f_read
          elim src_fd [
            | negsuc m ↦ pure (if m + 1 == 22 then neg 70 else neg 74)
            | pos fd ↦ rename_open fd dest
          ]))
