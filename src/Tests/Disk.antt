-- ===== src/Tests/Disk.antt =====
-- src/pennfat: a disk of 256-byte blocks with one file, and the calls on its blocks.
use pennos.Base.{
  ℕ, ◌≤◌, ◌<◌, ◌≡◌, refl, true, false, List, [], ◌∷◌, ◌++◌, none, some, arith, ◌==◌, if◌then◌else◌,
  replicate,
}
use pennos.Base.Returns.{Returns}
use pennos.Fat.State.{DirEntry, FdEntry, Host, Kernel, n_entries}
use pennos.Fat.Chain.Empty.{first_empty_block-full}
use pennos.Fat.State.{fault}
use pennos.Fat.Chain.{first_empty_block, get_blocks_in_data_region, clear_fat_file}
use pennos.Fat.Chain.Clear.{done, link, Cleared, clear_fat_file-Cleared}
use pennos.Fat.Disk.{encode, decode, entry_at}
use pennos.Fat.Disk.Whole.{Whole}
use pennos.Fat.Disk.RoundTrip.{Fits}
use pennos.Fat.Config.{mkfs, block_size_of_config}
use pennos.Fat.Mount.{HostFile, mount}
use pennos.Fat.Mount.Lifecycle.{mkfs-mount}

-- The file `a` of 5 bytes in block 2.
abbrev pub file_entry : DirEntry
file_entry = record {
  name = 97 ∷ replicate 31 0;
  size = 5;
  first_block = 2;
  type = 1;
  perm = 6;
  mtime = 100;
  padding = replicate 16 0;
}

pub file_entry-Fits : Fits file_entry
file_entry-Fits = record {
  name = refl;
  size = omega arith;
  first_block = omega arith;
  type = omega arith;
  perm = omega arith;
  mtime = omega arith;
  padding = refl;
}

abbrev pub file_bytes : List ℕ
file_bytes = 10 ∷ 20 ∷ 30 ∷ 40 ∷ 50 ∷ replicate 251 0

unfoldable pub disk_blocks : ℕ → List ℕ
unfolding encode pennos.Fat.Disk.to_bytes
disk_blocks b =
    if b == 1
    then encode file_entry ++ replicate 192 0
    else if b == 2
    then file_bytes
    else replicate 256 0

abbrev pub whole_host : Host
whole_host = record {
  lseek = λ _. true;
  read = λ _. some 256;
  write = λ _. some 256;
  std_read = λ fd n. some [];
  std_write = λ fd n. some n;
  time = some 200;
  malloc = true;
}

abbrev closed_fd : FdEntry
closed_fd = record {
  ref_count = 0;
  ptr_to_dir_entry = none;
  dir_entry_block_num = 0;
  dir_entry_idx = 0;
  write_locked = 0;
  offset = 0;
}

-- Descriptor 3 has the file open for writing, at offset 2.
abbrev pub open_fd : FdEntry
open_fd = record {
  ref_count = 1;
  ptr_to_dir_entry = some file_entry;
  dir_entry_block_num = 1;
  dir_entry_idx = 0;
  write_locked = 1;
  offset = 2;
}

abbrev pub disk : Kernel
disk = record {
  is_mounted = true;
  fat = λ i. if i == 1 then 65535 else if i == 2 then 65535 else if i == 0 then 256 else 0;
  fat_size = 256;
  block_size = 256;
  blocks_in_fat = 1;
  block_buf = replicate 256 0;
  blocks = disk_blocks;
  table = λ i. if i == 3 then open_fd else closed_fd;
  host = whole_host;
}

pub disk-Whole1 : Whole disk 1
unfolding get_blocks_in_data_region disk_blocks encode pennos.Fat.Disk.to_bytes
disk-Whole1 = record {
  not_zero = omega arith;
  in_region = omega arith;
  seeks = refl;
  moves = (256, omega arith, refl, refl);
  filled = refl;
}

pub disk-Whole2 : Whole disk 2
unfolding get_blocks_in_data_region disk_blocks
disk-Whole2 = record {
  not_zero = omega arith;
  in_region = omega arith;
  seeks = refl;
  moves = (256, omega arith, refl, refl);
  filled = refl;
}

clear_fat_file-Cleared_example : Returns (Cleared disk (2 ∷ [])) (clear_fat_file 2 disk)
clear_fat_file-Cleared_example =
    clear_fat_file-Cleared disk (link (omega arith) (λ e. ground arith) refl refl (done refl))
      (omega arith)

-- A full FAT of 4 entries.
abbrev full_disk : Kernel
full_disk = record disk { fat = λ i. 65535; fat_size = 8 }

first_empty_block-full_example : first_empty_block full_disk ≡ fault
first_empty_block-full_example =
    first_empty_block-full full_disk (λ m lo hi. ground arith) (omega arith)

abbrev unmounted : Kernel
unmounted = record disk { is_mounted = false }

abbrev made_file : HostFile
made_file = record {
  opens = true;
  first_entry = some 257;
  maps = true;
  allocates = true;
  fat = λ i. 0;
  blocks = λ b. replicate 512 0;
  buffer = replicate 512 0;
}

mkfs-mount_example :
    Returns
      (λ r g.
        (r ≡ 0)
        × (g.is_mounted ≡ true)
        × (g.block_size ≡ block_size_of_config 1)
        × (g.blocks_in_fat ≡ 1)
        × (g.fat_size ≡ 512)
        × (255 < n_entries g)
        × ((i : ℕ) → i < 3 → (g.table i).ref_count ≡ 1)
        × ((i : ℕ) → 3 ≤ i → g.table i ≡ disk.table i))
      (mount made_file unmounted)
unfolding mkfs block_size_of_config
mkfs-mount_example =
    mkfs-mount unmounted made_file 1 1 512 255 257 refl (omega arith) refl refl refl refl refl
