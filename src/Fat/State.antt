-- ===== src/Fat/State.antt =====
-- The state that src/pennfat/fat.c keeps in its globals `fs` and `global_fd_table`, the host file
-- behind it, and commands over that state.
pub mod Steps
pub use pennos.Base.Run.{Run, ok, fault, diverge, pure, ◌>>=◌, ◌>>◌, get, put, deref}
use pennos.Base.{ℕ, ◌/◌, Bool, Option, none, some, List, ltb, ◌==◌, if◌then◌else◌, update}

-- `directory_entry` of fat.h, 64 bytes on disk.
pub record DirEntry : Type 0 where
  pub name : List ℕ
  pub size : ℕ
  pub first_block : ℕ
  pub type : ℕ
  pub perm : ℕ
  pub mtime : ℕ
  pub padding : List ℕ

-- `global_fd_entry` of fat.h; `none` is the null pointer to the entry's copy.
pub record FdEntry : Type 0 where
  pub ref_count : ℕ
  pub ptr_to_dir_entry : Option DirEntry
  pub dir_entry_block_num : ℕ
  pub dir_entry_idx : ℕ
  pub write_locked : ℕ
  pub offset : ℕ

-- What the host system answers: whether a seek to a byte offset works, how many bytes a read or a
-- write there moves (`none` is -1), the bytes a standard stream gives, the clock, and `malloc`.
pub record Host : Type 0 where
  pub lseek : ℕ → Bool
  pub read : ℕ → Option ℕ
  pub write : ℕ → Option ℕ
  pub std_read : ℕ → ℕ → Option (List ℕ)
  pub std_write : ℕ → ℕ → Option ℕ
  pub time : Option ℕ
  pub malloc : Bool

-- `blocks b` are the bytes of the host file at the offset of block `b`, and `is_mounted` says that
-- `fs.fd` is not -1.
pub record Kernel : Type 0 where
  pub is_mounted : Bool
  pub fat : ℕ → ℕ
  pub fat_size : ℕ
  pub block_size : ℕ
  pub blocks_in_fat : ℕ
  pub block_buf : List ℕ
  pub blocks : ℕ → List ℕ
  pub table : ℕ → FdEntry
  pub host : Host

abbrev pub Cmd : Type 0 → Type 0
Cmd A = Kernel → Run Kernel A

-- `fs.fat` has `fat_size / 2` entries.
abbrev pub n_entries : Kernel → ℕ
n_entries k = k.fat_size / 2

unfoldable pub fat_read : ℕ → Cmd ℕ
fat_read i k = if ltb i (n_entries k) then ok (k.fat i) k else fault

unfoldable pub fat_write : ℕ → ℕ → Cmd (Unit {0})
fat_write i v k = if ltb i (n_entries k) then ok tt (record k { fat = update k.fat i v }) else fault

unfoldable pub set_fd : ℕ → FdEntry → Cmd (Unit {0})
set_fd fd g k = ok tt (record k { table = update k.table fd g })

unfoldable pub set_buf : List ℕ → Cmd (Unit {0})
set_buf bytes k = ok tt (record k { block_buf = bytes })

-- The constants of fat.c and fat.h.
abbrev pub global_fd_table_size : ℕ
global_fd_table_size = 4096

abbrev pub end_of_file : ℕ
end_of_file = 0xFFFF

abbrev pub sentinel : ℕ
sentinel = 0xFFFF

abbrev pub f_read : ℕ
f_read = 0

abbrev pub f_write : ℕ
f_write = 1

abbrev pub f_append : ℕ
f_append = 2

abbrev pub dir_entry_size : ℕ
dir_entry_size = 64
