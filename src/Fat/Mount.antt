-- ===== src/Fat/Mount.antt =====
-- src/pennfat/fat.c: `mount` and `unmount`.
pub mod Lifecycle
use pennos.Base.{
  update, ℕ, zero, suc, ◌+◌, ◌*◌, Bool, true, false, List, Option, none, some, ltb, ◌==◌,
  if◌then◌else◌, ℤ, pos, negsuc, neg, is_neg, not, replicate,
}
use pennos.Fat.State.{
  FdEntry, Host, Kernel, Cmd, pure, ◌>>=◌, ◌>>◌, get, put, set_fd, global_fd_table_size,
}
use pennos.Fat.Config.{Parsed, parse_first_fat_entry}
use pennos.Fat.Open.{k_close}

-- What the host answers to the calls of `mount`, and what the file then holds.
pub record HostFile : Type 0 where
  pub opens : Bool
  pub first_entry : Option ℕ
  pub maps : Bool
  pub allocates : Bool
  pub fat : ℕ → ℕ
  pub blocks : ℕ → List ℕ
  pub buffer : List ℕ

abbrev pub std_entry : FdEntry → FdEntry
std_entry g = record {
  ref_count = 1;
  ptr_to_dir_entry = none;
  dir_entry_block_num = 0;
  dir_entry_idx = 0;
  write_locked = 0;
  offset = 0;
}

abbrev pub with_std : (ℕ → FdEntry) → ℕ → FdEntry
with_std table i = if ltb i 3 then std_entry (table i) else table i

-- `parse_first_fat_entry` is given the address of a local variable, which is not null.
abbrev pub local_ptr : ℕ
local_ptr = 1

unfoldable pub mounted : HostFile → ℕ → Kernel → Kernel
mounted f entry k =
    let p = parse_first_fat_entry local_ptr entry in
    record k {
      is_mounted = true;
      fat = f.fat;
      fat_size = p.blocks_in_fat * p.block_size;
      block_size = p.block_size;
      blocks_in_fat = p.blocks_in_fat;
      block_buf = f.buffer;
      blocks = f.blocks;
      table = with_std k.table;
    }

unfoldable pub mount : HostFile → Cmd ℕ
mount f = do
  k ← get
  if k.is_mounted then pure 2 else if not f.opens then pure 5 else elim f.first_entry [
    | none ↦ pure 8
    | some entry ↦
        if is_neg (parse_first_fat_entry local_ptr entry).status
        then pure 1
        else if not f.maps
        then pure 6
        else if not f.allocates
        then pure 4
        else (do put (mounted f entry k); pure 0)
  ]

-- The loop of `unmount` over the descriptors from `i` on: each open one is closed for good.
unfoldable pub close_all : (rounds i : ℕ) → Cmd (Unit {0})
close_all zero i = pure tt
close_all (suc rounds) i = do
  k ← get
  if (k.table i).ref_count == 0 then close_all rounds (i + 1) else (do
    set_fd i (record (k.table i) { ref_count = 1 })
    _ ← k_close (pos i)
    close_all rounds (i + 1))

-- `unmaps` and `closes` are the answers to `munmap` and `close`. `fs` becomes zero but for `fd`.
unfoldable pub unmount : (unmaps closes : Bool) → Cmd ℕ
unmount unmaps closes = do
  k ← get
  if not k.is_mounted then pure 99 else (do
    close_all global_fd_table_size 0
    if not unmaps then pure 1 else if not closes then pure 2 else (do
      l ← get
      put (record l {
        is_mounted = false;
        fat_size = 0;
        block_size = 0;
        blocks_in_fat = 0;
        block_buf = replicate 0 0;
      })
      pure 0))
