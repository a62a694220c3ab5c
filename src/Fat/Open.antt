-- ===== src/Fat/Open.antt =====
-- src/pennfat/fat.c: `k_open`, `k_close`.
pub mod Close
pub mod Lock
use pennos.Base.{
  ℕ, ◌+◌, ◌-◌, Bool, true, false, ◌&&◌, ◌||◌, List, ◌++◌, Option, none, some, ltb, leb, ◌==◌,
  if◌then◌else◌, ℤ, pos, negsuc, neg, not, length, replicate, take, drop, ◌∷◌, [],
}
use pennos.Fat.State.{
  DirEntry, FdEntry, Kernel, Cmd, pure, ◌>>=◌, ◌>>◌, get, deref, set_fd, fault,
  global_fd_table_size, sentinel, f_read, f_write, f_append,
}
use pennos.Fat.Chain.{clear_fat_file}
use pennos.Fat.Disk.{name0}
use pennos.Fat.Names.{is_valid_filename}
use pennos.Fat.Dir.{
  FindFile, find_failed, file_not_found, file_deleted, file_found, find_file_in_root_dir,
  write_root_dir_entry, NewEntry, write_new_root_dir_entry,
}
use pennos.Fat.FdTable.{find_file_in_global_fd_table, find_empty_fd, is_special_fd}

abbrev pub efs_not_mounted : ℤ
efs_not_mounted = pos 99

-- `strcpy(name, fname)`: the string and its terminator replace the first bytes.
unfoldable pub strcpy : List ℕ → List ℕ → List ℕ
strcpy name fname = fname ++ (0 ∷ drop (length fname + 1) name)

-- The permissions for which `k_open` refuses a mode.
unfoldable pub is_refused : (perm mode : ℕ) → Bool
is_refused perm mode =
    perm == 0
    || (perm == 2 && mode == f_read)
    || ((perm == 4 || perm == 5) && (mode == f_write || mode == f_append))

abbrev pub set_entry : FdEntry → DirEntry → FdEntry
set_entry g e = record g { ptr_to_dir_entry = some e }

-- The end of `k_open`: the descriptor's mode and offset.
unfoldable pub open_offset : (fd mode : ℕ) → Cmd ℤ
open_offset fd mode = do
  k ← get
  e ← deref (k.table fd).ptr_to_dir_entry
  let g = k.table fd
  let offset =
      (if mode == f_append
        then e.size
        else if mode == f_write
        then 0
        else if mode == f_read
        then g.offset
        else 0)
  set_fd fd (record g { write_locked = mode; offset = offset })
  pure (pos fd)

-- `F_WRITE` empties a file that is not empty.
unfoldable pub open_truncate : (fd mode : ℕ) → Cmd ℤ
open_truncate fd mode = do
  k ← get
  e ← deref (k.table fd).ptr_to_dir_entry
  if not (mode == f_write && ltb 0 e.size) then open_offset fd mode else elim k.host.time [
    | none ↦ pure (neg 24)
    | some mtime ↦ do
      let g = k.table fd
      _ ← (if e.first_block == 0 then pure tt else clear_fat_file e.first_block)
      let emptied = record e { size = 0; mtime = mtime; first_block = 0 }
      set_fd fd (set_entry g emptied)
      s ← write_root_dir_entry emptied g.dir_entry_block_num g.dir_entry_idx
      if s == 0 then open_offset fd mode else pure (neg 29)
  ]

-- From the permission check on; the reference is counted only behind it.
unfoldable pub open_checked : (fd mode : ℕ) → Cmd ℤ
open_checked fd mode = do
  k ← get
  e ← deref (k.table fd).ptr_to_dir_entry
  if is_refused e.perm mode then pure (neg 28) else (do
    let g = k.table fd
    set_fd fd (record g { ref_count = g.ref_count + 1 })
    open_truncate fd mode)

unfoldable pub fresh_entry : (mode block idx : ℕ) → DirEntry → FdEntry
fresh_entry mode block idx e = record {
  ref_count = 0;
  ptr_to_dir_entry = some e;
  dir_entry_block_num = block;
  dir_entry_idx = idx;
  write_locked = mode;
  offset = 0;
}

abbrev pub new_dir_entry : List ℕ → ℕ → DirEntry
new_dir_entry fname mtime = record {
  name = strcpy (replicate 32 0) fname;
  size = 0;
  first_block = 0;
  type = 1;
  perm = 6;
  mtime = mtime;
  padding = replicate 16 0;
}

-- A file that is not in the directory is created, unless it is only read.
unfoldable pub open_created : List ℕ → (fd mode : ℕ) → Cmd ℤ
open_created fname fd mode = do
  k ← get
  if mode == f_read then pure (neg 22) else elim k.host.time [
    | none ↦ pure (neg 24)
    | some mtime ↦ do
      n ← write_new_root_dir_entry (new_dir_entry fname mtime)
      if not (n.status == 0) then pure (neg 26) else (do
        set_fd fd (fresh_entry mode n.block n.idx (new_dir_entry fname mtime))
        open_checked fd mode)
  ]

-- A file that has no descriptor yet.
unfoldable pub open_new : List ℕ → ℕ → Cmd ℤ
open_new fname mode = do
  k ← get
  let fd = find_empty_fd k.table
  if fd == sentinel then pure (neg 21) else if not k.host.malloc then pure (neg 23) else (do
    found ← find_file_in_root_dir fname
    elim found [
      | find_failed ↦ pure (neg 20)
      | file_not_found ↦ open_created fname fd mode
      | file_deleted e block idx ↦ open_created fname fd mode
      | file_found e block idx ↦ do set_fd fd (fresh_entry mode block idx e); open_checked fd mode
    ])

unfoldable pub k_open : List ℕ → ℕ → Cmd ℤ
k_open fname mode = do
  k ← get
  if not k.is_mounted
      then pure efs_not_mounted
      else if not (is_valid_filename fname)
      then pure (neg 19)
      else (do
        found ← find_file_in_global_fd_table fname
        elim found [
          | none ↦ open_new fname mode
          | some fd ↦
              if not ((k.table fd).write_locked == 0) && (mode == f_write || mode == f_append)
              then pure (neg 25)
              else open_checked fd mode
        ])

-- `name[0] = c`.
abbrev pub set_name0 : DirEntry → ℕ → DirEntry
set_name0 e c = record e { name = c ∷ drop 1 e.name }

abbrev pub released : FdEntry → FdEntry
released g = record g { ptr_to_dir_entry = none; write_locked = 0 }

-- The last reference is gone: a file that was unlinked while it was open is freed now.
unfoldable pub close_last : ℕ → FdEntry → Cmd ℤ
close_last fd g = do
  e ← deref g.ptr_to_dir_entry
  if not (name0 e == 2) then (do set_fd fd (released g); pure (pos 0)) else (do
    _ ← (if e.first_block == 0 then pure tt else clear_fat_file e.first_block)
    let gone = record (set_name0 e 1) { first_block = 0 }
    set_fd fd (set_entry g gone)
    s ← write_root_dir_entry gone g.dir_entry_block_num g.dir_entry_idx
    if not (s == 0) then pure (neg 32) else (do set_fd fd (released g); pure (pos 0)))

unfoldable pub k_close : ℤ → Cmd ℤ
k_close fd = do
  k ← get
  if not k.is_mounted then pure efs_not_mounted else elim fd [
    | negsuc _ ↦ pure (neg 30)
    | pos i ↦
        if leb global_fd_table_size i
        then pure (neg 30)
        else if is_special_fd i
        then pure (neg 31)
        else (do
          let g = record (k.table i) { ref_count = (k.table i).ref_count - 1 }
          set_fd i g
          if g.ref_count == 0 then close_last i g else pure (pos 0))
  ]
