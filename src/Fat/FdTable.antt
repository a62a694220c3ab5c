-- ===== src/Fat/FdTable.antt =====
-- src/pennfat/fat.c: the global file descriptor table, its searches, and the calls that look at one
-- entry alone.
pub mod Search
pub mod Mode
use pennos.Base.{
  ℕ, zero, suc, ◌+◌, ◌-◌, Bool, true, false, ◌||◌, List, Option, none, some, ltb, leb, ◌==◌,
  if◌then◌else◌, ℤ, pos, negsuc, neg, not,
}
use pennos.Fat.State.{
  DirEntry, FdEntry, Kernel, Cmd, pure, ◌>>=◌, ◌>>◌, get, deref, set_fd, fault,
  global_fd_table_size, sentinel,
}
use pennos.Fat.Disk.{name0}
use pennos.Fat.Names.{strcmp_eq}

-- `name[0] < 3`, where `char` is signed.
unfoldable pub is_special_name : DirEntry → Bool
is_special_name e = ltb (name0 e) 3 || leb 128 (name0 e)

-- The loop of `find_file_in_global_fd_table` over the entries from `i` on.
unfoldable pub find_file_from : List ℕ → (rounds i : ℕ) → Cmd (Option ℕ)
find_file_from fname zero i = pure none
find_file_from fname (suc rounds) i = do
  k ← get
  if (k.table i).ref_count == 0 then find_file_from fname rounds (i + 1) else (do
    e ← deref (k.table i).ptr_to_dir_entry
    if is_special_name e
        then find_file_from fname rounds (i + 1)
        else if strcmp_eq fname e.name
        then pure (some i)
        else find_file_from fname rounds (i + 1))

unfoldable pub find_file_in_global_fd_table : List ℕ → Cmd (Option ℕ)
find_file_in_global_fd_table fname = find_file_from fname (global_fd_table_size - 3) 3

unfoldable pub empty_fd_from : (ℕ → FdEntry) → (rounds i : ℕ) → ℕ
empty_fd_from table zero i = sentinel
empty_fd_from table (suc rounds) i =
    let rest = empty_fd_from table rounds (i + 1) in if (table i).ref_count == 0 then i else rest

unfoldable pub find_empty_fd : (ℕ → FdEntry) → ℕ
find_empty_fd table = empty_fd_from table (global_fd_table_size - 3) 3

-- An index that is neither negative nor at or above the table's size.
unfoldable pub is_special_fd : ℕ → Bool
is_special_fd fd = fd == 0 || fd == 1 || fd == 2

unfoldable pub set_mode : ℕ → FdEntry → ℤ → Cmd ℤ
set_mode fd g (negsuc _) = pure (neg 78)
set_mode fd g (pos m) =
    if leb 3 m then pure (neg 78) else (do set_fd fd (record g { write_locked = m }); pure (pos 0))

-- `k_setmode` and `k_getmode` test the upper bound alone: a negative index reads outside the table.
unfoldable pub k_setmode : (fd mode : ℤ) → Cmd ℤ
k_setmode (negsuc _) mode = λ _. fault
k_setmode (pos fd) mode = do
  k ← get
  if leb global_fd_table_size fd
      then pure (neg 77)
      else if (k.table fd).ref_count == 0
      then pure (neg 79)
      else set_mode fd (k.table fd) mode

unfoldable pub k_getmode : (fd : ℤ) → Cmd ℤ
k_getmode (negsuc _) = λ _. fault
k_getmode (pos fd) = do
  k ← get
  if leb global_fd_table_size fd
      then pure (neg 80)
      else if (k.table fd).ref_count == 0
      then pure (neg 81)
      else pure (pos (k.table fd).write_locked)
