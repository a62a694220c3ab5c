-- ===== src/Fat/Dir.antt =====
-- src/pennfat/fat.c: the root directory, a chain of blocks of entries that starts at block 1.
pub mod Find
pub mod Store
use pennos.Base.{
  ℕ, zero, suc, ◌+◌, ◌-◌, ◌/◌, Bool, true, false, ◌&&◌, ◌||◌, List, ltb, ◌==◌, if◌then◌else◌,
  replicate, not,
}
use pennos.Fat.State.{
  DirEntry, Kernel, Cmd, diverge, pure, ◌>>=◌, ◌>>◌, get, set_buf, fat_write, end_of_file,
  dir_entry_size,
}
use pennos.Fat.Chain.{next_block_num, chain_fuel, first_empty_block}
use pennos.Fat.Disk.{get_block, write_block, entry_at, set_entry_at, name0}
use pennos.Fat.Names.{strcmp_eq}

unfoldable pub n_dir_entry_per_block : Kernel → ℕ
n_dir_entry_per_block k = k.block_size / dir_entry_size

-- What the walk over the entries of one block finds.
pub data Scan : Type 0 where
  end_of_dir : ℕ → Scan
  hit : DirEntry → ℕ → Scan
  more : Scan

-- The inner loop of `find_file_in_root_dir`, for entries `i` to `i + rounds - 1` of the buffer.
unfoldable pub scan_names : List ℕ → List ℕ → (rounds i : ℕ) → Scan
scan_names fname buf zero i = more
scan_names fname buf (suc rounds) i =
    let rest = scan_names fname buf rounds (i + 1) in
    if name0 (entry_at buf i) == 0
    then end_of_dir i
    else if strcmp_eq fname (entry_at buf i).name
    then hit (entry_at buf i) i
    else rest

pub data FindFile : Type 0 where
  find_failed file_not_found : FindFile
  file_deleted file_found : (entry : DirEntry) (block idx : ℕ) → FindFile

-- A directory has at most 65536 blocks, so a longer walk goes in a circle and never returns.
unfoldable pub find_file_loop : ℕ → List ℕ → ℕ → Cmd FindFile
find_file_loop zero fname block = λ _. diverge
find_file_loop (suc fuel) fname block = do
  s ← get_block block
  k ← get
  if not (s == 0)
      then pure find_failed
      else elim (scan_names fname k.block_buf (n_dir_entry_per_block k) 0) [
        | end_of_dir i ↦ pure file_not_found
        | hit e i ↦
            pure (
              if name0 e == 1 || name0 e == 2 then file_deleted e block i else file_found e block i)
        | more ↦ do
          n ← next_block_num block block
          if not (n.status == 0) then pure find_failed else find_file_loop fuel fname n.block
      ]

unfoldable pub find_file_in_root_dir : List ℕ → Cmd FindFile
find_file_in_root_dir fname = find_file_loop chain_fuel fname 1

-- The inner loop of `find_empty_spot_in_root_dir`; a negative `char` is no special entry and no
-- name, and the loop goes on.
pub data Spot : Type 0 where
  deleted_spot end_spot : ℕ → Spot
  no_spot : Spot

unfoldable pub scan_spots : List ℕ → (rounds i : ℕ) → Spot
scan_spots buf zero i = no_spot
scan_spots buf (suc rounds) i =
    let rest = scan_spots buf rounds (i + 1) in
    let c = name0 (entry_at buf i) in
    if c == 0 then end_spot i else if c == 1 || c == 2 then deleted_spot i else rest

pub data EmptySpot : Type 0 where
  spot_failed : EmptySpot
  spot_deleted spot_end_entry : (block offset : ℕ) → EmptySpot

unfoldable pub empty_spot_loop : ℕ → ℕ → Cmd EmptySpot
empty_spot_loop zero block = λ _. diverge
empty_spot_loop (suc fuel) block = do
  s ← get_block block
  k ← get
  if not (s == 0)
      then pure spot_failed
      else elim (scan_spots k.block_buf (n_dir_entry_per_block k) 0) [
        | end_spot i ↦ pure (spot_end_entry block i)
        | deleted_spot i ↦ pure (spot_deleted block i)
        | no_spot ↦ do
          n ← next_block_num block block
          if not (n.status == 0) then pure spot_failed else empty_spot_loop fuel n.block
      ]

unfoldable pub find_empty_spot_in_root_dir : Cmd EmptySpot
find_empty_spot_in_root_dir = empty_spot_loop chain_fuel 1

unfoldable pub write_root_dir_entry : DirEntry → (block offset : ℕ) → Cmd ℕ
write_root_dir_entry e block offset = do
  s ← get_block block
  if not (s == 0) then pure 1 else (do
    k ← get
    set_buf (set_entry_at k.block_buf offset e)
    w ← write_block block (set_entry_at k.block_buf offset e)
    pure (if w == 0 then 0 else 3))

abbrev pub empty_dir_entry : DirEntry
empty_dir_entry = record {
  name = replicate 32 0;
  size = 0;
  first_block = 0;
  type = 0;
  perm = 0;
  mtime = 0;
  padding = replicate 16 0;
}

-- The status, and where the entry was written.
pub record NewEntry : Type 0 where
  pub status : ℕ
  pub block : ℕ
  pub idx : ℕ

abbrev new_entry_failed : ℕ → NewEntry
new_entry_failed s = record { status = s; block = 0; idx = 0 }

-- The last part of `write_new_root_dir_entry`.
unfoldable pub write_at_spot : DirEntry → (block offset : ℕ) → Cmd NewEntry
write_at_spot e block offset = do
  s ← write_root_dir_entry e block offset
  pure (if s == 0 then record { status = 0; block = block; idx = offset } else new_entry_failed 2)

-- The directory grows by a block of zeros, whose first entry is its new end.
unfoldable pub extend_directory : DirEntry → (block offset : ℕ) → Cmd NewEntry
extend_directory e block offset = do
  k ← get
  empty_block ← first_empty_block
  if empty_block == 0 then pure (new_entry_failed 2) else (do
    let zeros = replicate k.block_size 0
    set_buf zeros
    w ← write_block empty_block zeros
    if not (w == 0) then pure (new_entry_failed 3) else (do
      fat_write block empty_block
      fat_write empty_block end_of_file
      write_at_spot e block offset))

unfoldable pub write_new_root_dir_entry : DirEntry → Cmd NewEntry
write_new_root_dir_entry e = do
  found ← find_empty_spot_in_root_dir
  k ← get
  elim found [
    | spot_failed ↦ pure (new_entry_failed 1)
    | spot_deleted block offset ↦ write_at_spot e block offset
    | spot_end_entry block offset ↦
        if offset == n_dir_entry_per_block k - 1 then extend_directory e block offset else (do
          _ ← write_root_dir_entry empty_dir_entry block (offset + 1)
          write_at_spot e block offset)
  ]
