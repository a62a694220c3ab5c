-- ===== src/Tests/Files.antt =====
-- src/pennfat/fat.c: the calls on files, on the example disk.
use pennos.Base.{
  update, ℕ, ◌≤◌, ◌≡◌, refl, ◌≢◌, ◌↔◌, true, [], ◌∷◌, none, some, arith, pos, replicate,
}
use pennos.Base.Returns.{Returns}
use pennos.Fat.State.{DirEntry, FdEntry, Host, Kernel, ok, f_read, f_write, global_fd_table_size}
use pennos.Fat.Disk.{encode, decode, entry_at, to_bytes, of_bytes, name0, get_block}
use pennos.Fat.Chain.{get_blocks_in_data_region, get_byte_offset_of_block}
use pennos.Fat.Dir.{find_file_in_root_dir, find_file_loop, scan_names, n_dir_entry_per_block}
use pennos.Fat.Dir.Store.{Stored}
use pennos.Fat.Names.{
  c_string, strcmp_eq, is_valid_filename, is_filename_char, check_filename_charset,
}
use pennos.Fat.Names.Valid.{AllFilenameChars, is_valid_filename_iff}
use pennos.Fat.FdTable.{
  is_special_name, find_file_from, find_file_in_global_fd_table, is_special_fd,
}
use pennos.Fat.FdTable.Search.{IsFirst, HasCopies, find_file_in_global_fd_table-IsFirst}
use pennos.Fat.Open.{k_open, is_refused}
use pennos.Fat.Open.Lock.{IsOpen, k_open-reader}
use pennos.Fat.Seek.Outcome.{Seekable, k_lseek-seek_outcome}
use pennos.Base.{negsuc, neg}
use pennos.Fat.State.{ok}
use pennos.Fat.Seek.{k_lseek}
use pennos.Fat.Read.{k_read}
use pennos.Fat.Read.InBlock.{SmallRead, k_read-in_block}
use pennos.Fat.Write.{may_write, k_write}
use pennos.Fat.Write.InBlock.{Last}
use pennos.Fat.Write.Overwrite.{Small, k_write-in_block}
use pennos.Fat.Edit.{k_unlink}
use pennos.Fat.Write.ReadBack.{write_and_read_back, k_write-k_read}
use pennos.Fat.Edit.Unlink.{k_unlink-frees}
use pennos.Fat.Chain.Clear.{done, link}
use pennos.Fat.Open.{set_name0}
use pennos.Fat.FdTable.{find_file_from}
use pennos.Base.{zero, suc, has, if◌then◌else◌, ◌+◌}
use pennos.Tests.Disk.{file_entry-Fits}
use pennos.Commands.Remove.{IsClosedFile}
use pennos.Tests.Disk.{disk, disk_blocks, file_entry, open_fd, disk-Whole1, disk-Whole2}

disk-Last : Last disk 2
disk-Last = record { whole = disk-Whole2; ends = refl; in_fat = omega arith }

pub disk-Small : Small disk 3 2 file_entry 2 2 200
disk-Small = record {
  last = disk-Last;
  dir = disk-Whole1;
  apart = λ e. ground arith;
  room = omega arith;
  copy = refl;
  full = refl;
  small = omega arith;
  ends_in_block = omega arith;
  inside = omega arith;
  some_bytes = omega arith;
  time = refl;
  fits = record {
    name = refl;
    size = omega arith;
    first_block = omega arith;
    type = omega arith;
    perm = omega arith;
    mtime = omega arith;
    padding = refl;
  };
}

-- Two bytes at offset 2 of a file of five leave a file of four.
k_write-in_block_example :
    Returns
      (λ r g.
        (r ≡ pos 2)
        × (g.blocks 2 ≡ 10 ∷ 20 ∷ 7 ∷ 8 ∷ 50 ∷ replicate 251 0)
        × (entry_at (g.blocks 1) 0 ≡ record file_entry { mtime = 200; size = 4 })
        × ((j : ℕ) → j ≢ 0 → entry_at (g.blocks 1) j ≡ entry_at (disk_blocks 1) j)
        × ((i : ℕ) → i ≢ 2 → i ≢ 1 → g.blocks i ≡ disk_blocks i)
        × (g.table 3 ≡ record (disk.table 3) {
          offset = 4;
          ptr_to_dir_entry = some (record file_entry { mtime = 200; size = 4 });
        })
        × ((i : ℕ) → i ≢ 3 → g.table i ≡ disk.table i)
        × ((i : ℕ) → g.fat i ≡ disk.fat i)
        × (g ≡ record disk {
          blocks = g.blocks;
          block_buf = g.block_buf;
          table = g.table;
          fat = g.fat;
        }))
      (k_write (pos 3) (7 ∷ 8 ∷ []) (pos 2) disk)
unfolding may_write disk_blocks
k_write-in_block_example =
    k_write-in_block disk 3 2 file_entry 2 2 200 (7 ∷ 8 ∷ []) disk-Small (omega arith) refl
      (omega arith) (omega arith) (λ e. ground arith) refl (λ e. ground arith) refl refl

pub disk-SmallRead : SmallRead disk 3 2 file_entry
disk-SmallRead = record {
  last = disk-Last;
  not_end = λ e. ground arith;
  copy = refl;
  first = refl;
  full = refl;
  small = omega arith;
  ends_in_block = omega arith;
  inside = omega arith;
}

k_read-in_block_example :
    k_read (pos 3) (pos 9) disk
    ≡ ok
        (record { status = pos 3; bytes = 30 ∷ 40 ∷ 50 ∷ [] })
        (record disk {
          block_buf = disk_blocks 2;
          table = update disk.table 3 (record open_fd { offset = 5 });
        })
unfolding disk_blocks pennos.Fat.Disk.to_bytes
k_read-in_block_example =
    k_read-in_block disk 3 2 file_entry disk-SmallRead 9 refl (omega arith) (omega arith)
      (λ e. ground arith) (omega arith) (omega arith)

pub disk-IsOpen : IsOpen disk (97 ∷ []) 3 file_entry
unfolding is_valid_filename check_filename_charset is_filename_char find_file_in_global_fd_table
    find_file_from is_special_name name0 strcmp_eq c_string
disk-IsOpen = record { is_mounted = refl; valid = refl; found = refl; copy = refl }

k_open-reader_example :
    Returns
      (λ r g.
        (r ≡ pos 3)
        × ((g.table 3).write_locked ≡ 0)
        × ((g.table 3).ref_count ≡ 2)
        × ((g.table 3).offset ≡ 2)
        × ((g.table 3).ptr_to_dir_entry ≡ some file_entry)
        × ((i : ℕ) → i ≢ 3 → g.table i ≡ disk.table i)
        × (g ≡ record disk { table = g.table }))
      (k_open (97 ∷ []) f_read disk)
unfolding is_refused
k_open-reader_example = k_open-reader disk-IsOpen refl

pub disk-Seekable : Seekable disk 3 file_entry
unfolding is_special_fd
disk-Seekable = record {
  is_mounted = refl;
  in_table = omega arith;
  not_special = refl;
  in_use = λ e. ground arith;
  copy = refl;
  readable = omega arith;
}

disk-HasCopies : HasCopies disk
disk-HasCopies i ge opened = (file_entry, ground arith)

find_file_in_global_fd_table-IsFirst_example :
    Returns
      (λ r g. (g ≡ disk) × IsFirst disk (97 ∷ []) 3 global_fd_table_size r)
      (find_file_in_global_fd_table (97 ∷ []) disk)
find_file_in_global_fd_table-IsFirst_example =
    find_file_in_global_fd_table-IsFirst disk disk-HasCopies (97 ∷ [])

is_valid_filename_iff_example :
    (is_valid_filename (97 ∷ 46 ∷ []) ≡ true)
    ↔ ((1 ≤ 2) × (2 ≤ 31) × AllFilenameChars (97 ∷ 46 ∷ []))
is_valid_filename_iff_example = is_valid_filename_iff (97 ∷ 46 ∷ [])

-- One byte back from the end of the file, which lies inside it.
k_lseek-seek_outcome_example : k_lseek (pos 3) (negsuc 0) 3 disk ≡ ok (neg 40) disk
k_lseek-seek_outcome_example =
    k_lseek-seek_outcome disk-Seekable 3 (negsuc 0) (omega arith) (omega arith) refl (omega arith)
      (omega arith)

-- The disk with no descriptor open.
abbrev pub at_rest : Kernel
at_rest = record disk {
  table = λ i. record {
    ref_count = 0;
    ptr_to_dir_entry = none;
    dir_entry_block_num = 0;
    dir_entry_idx = 0;
    write_locked = 0;
    offset = 0;
  };
}

nothing_open : (rounds i : ℕ) → find_file_from (97 ∷ []) rounds i at_rest ≡ ok none at_rest
unfolding find_file_from
nothing_open zero i = refl
nothing_open (suc rounds) i = nothing_open rounds (i + 1)

not_open : find_file_in_global_fd_table (97 ∷ []) at_rest ≡ ok none at_rest
unfolding find_file_in_global_fd_table
not_open = nothing_open 4093 3

-- The file `a` on it.
pub at_rest-IsClosedFile :
    IsClosedFile at_rest
      (record at_rest { block_buf = disk_blocks 1 })
      (97 ∷ [])
      file_entry
      1
      0
      (2 ∷ [])
unfolding is_valid_filename check_filename_charset is_filename_char strcmp_eq c_string
    find_file_in_root_dir find_file_loop scan_names n_dir_entry_per_block get_block
    get_blocks_in_data_region get_byte_offset_of_block entry_at encode decode to_bytes of_bytes
    name0 disk_blocks pennos.Fat.State.set_buf
at_rest-IsClosedFile = record {
  is_mounted = refl;
  valid = refl;
  not_open = not_open;
  found = refl;
  has_block = λ e. ground arith;
  chain = link (omega arith) (λ e. ground arith) refl refl (done refl);
  short = omega arith;
  whole = record {
    not_zero = omega arith;
    in_region = omega arith;
    seeks = refl;
    moves = (256, omega arith, refl, refl);
    filled = refl;
  };
  full = refl;
  fits = file_entry-Fits;
  room = omega arith;
}

k_unlink-frees_example :
    Returns
      (λ r g.
        (r ≡ pos 0)
        × ((i : ℕ) → g.fat i ≡ (if has i (2 ∷ []) then 0 else disk.fat i))
        × Stored (record at_rest { fat = g.fat }) 1 0 (set_name0 file_entry 1) g)
      (k_unlink (97 ∷ []) at_rest)
k_unlink-frees_example =
    let f = at_rest-IsClosedFile in
    k_unlink-frees at_rest (record at_rest { block_buf = disk_blocks 1 }) (97 ∷ []) file_entry 1 0
      f.is_mounted f.valid f.not_open f.found f.has_block f.chain f.short f.whole f.full f.fits
      f.room

k_write-k_read_example :
    Returns
      (λ r _. r ≡ record { status = pos 2; bytes = 7 ∷ 8 ∷ [] })
      (write_and_read_back 3 2 (7 ∷ 8 ∷ 9 ∷ []) 2 disk)
unfolding may_write
k_write-k_read_example =
    k_write-k_read disk 3 2 file_entry 2 2 200 (7 ∷ 8 ∷ 9 ∷ []) disk-Small (omega arith)
      (λ e. ground arith) refl (omega arith) (omega arith) (λ e. ground arith) refl (omega arith)
      (λ e. ground arith) refl refl
