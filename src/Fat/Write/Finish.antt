-- ===== src/Fat/Write/Finish.antt =====
-- src/pennfat/fat.c: the end of `k_write`.
use pennos.Base.{
  update, ℕ, ◌+◌, ◌*◌, ◌%◌, ◌^◌, ◌≤◌, ◌<◌, ◌≡◌, refl, some, arith, ◌==◌, if◌then◌else◌, pos, neg,
  length,
}
use pennos.Fat.State.{DirEntry, FdEntry, Kernel, ok, set_fd, end_of_file, dir_entry_size, n_entries}
use pennos.Base.Run.{and_then}
use pennos.Base.Returns
use pennos.Base.Returns.{Returns, returns}
use pennos.Fat.State.Steps.{fat_write-ok}
use pennos.Fat.Disk.Whole.{Whole, Whole-same}
use pennos.Fat.Dir.{write_root_dir_entry}
use pennos.Fat.Dir.Store.{Stored, write_root_dir_entry-Stored}
use pennos.Fat.Disk.RoundTrip.{Fits}
use pennos.Fat.Write.{finish_write}

-- After the copying loop: what `finish_write` stores.
module _ (k : Kernel) (fd b : ℕ) (e : DirEntry) (mtime offset n : ℕ) where
  abbrev pub written_entry : DirEntry
  written_entry = record e { mtime = mtime; size = offset + n }

  abbrev pub written_fd : FdEntry
  written_fd = record (k.table fd) { offset = offset + n; ptr_to_dir_entry = some written_entry }

  -- The kernel when the directory entry is written.
  abbrev pub before_entry : Kernel
  before_entry = record k {
    fat = update k.fat b end_of_file;
    table = update (update k.table fd (record (k.table fd) { offset = offset + n })) fd written_fd;
  }

  finish_write-run :
      b < n_entries k
      → k.host.time ≡ some mtime
      → (k.table fd).ptr_to_dir_entry ≡ some e
      → offset + n < 2 ^ 32
      → finish_write fd offset b n k
        ≡ and_then
            (write_root_dir_entry written_entry
              (k.table fd).dir_entry_block_num
              (k.table fd).dir_entry_idx
              before_entry)
            (λ s. ok (if s == 0 then pos n else neg 51))
  unfolding finish_write set_fd
  finish_write-run in_fat time copy small =
      let sum : (offset + n) % 2 ^ 32 ≡ offset + n = omega arith in
      ground (arith, fat_write-ok k end_of_file in_fat, time, copy, sum)

  pub finish_write-stores :
      let d = (k.table fd).dir_entry_block_num in
      let idx = (k.table fd).dir_entry_idx in
      b < n_entries k
      → k.host.time ≡ some mtime
      → (k.table fd).ptr_to_dir_entry ≡ some e
      → offset + n < 2 ^ 32
      → Whole k d
      → length k.block_buf ≡ k.block_size
      → Fits written_entry
      → dir_entry_size * idx + dir_entry_size ≤ k.block_size
      → Returns
          (λ r g. (r ≡ pos n) × Stored before_entry d idx written_entry g)
          (finish_write fd offset b n k)
  finish_write-stores in_fat time copy small whole full fits room =
      let d = (k.table fd).dir_entry_block_num in
      let idx = (k.table fd).dir_entry_idx in
      let whole' : Whole before_entry d =
        Whole-same k before_entry d whole refl refl refl whole.filled in
      rw (finish_write-run in_fat time copy small) (
        Returns.bind
          (write_root_dir_entry-Stored before_entry d idx written_entry whole' full fits room)
          λ s g (none_failed, st). rw none_failed (returns (refl, st)))
