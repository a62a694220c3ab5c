-- ===== src/Fat/Edit/Permissions.antt =====
-- src/pennfat/fat.c: what `k_chmod` does to the permissions of a file.
use pennos.Base.{
  ℕ, ◌≤◌, ◌≡◌, refl, true, false, List, some, arith, ltb, ◌==◌, if◌then◌else◌, pos, neg,
}
use pennos.Fat.State.{DirEntry, Kernel, ok}
use pennos.Base.Run.{and_then}
use pennos.Fat.Names.{is_valid_filename}
use pennos.Fat.Dir.{file_found, find_file_in_root_dir, write_root_dir_entry}
use pennos.Base.Returns
use pennos.Base.Returns.{Returns, returns}
use pennos.Base.{length, ◌+◌, ◌*◌}
use pennos.Fat.State.{dir_entry_size}
use pennos.Fat.Disk.Whole.{Whole}
use pennos.Fat.Disk.RoundTrip.{Fits}
use pennos.Fat.Dir.Store.{Stored, write_root_dir_entry-Stored}
use pennos.Fat.Edit.{chmod_perm, chmod_found, k_chmod}

k_chmod-writes :
    (k w : Kernel) (fname : List ℕ) (perm mode : ℕ) (e : DirEntry) (block idx p : ℕ)
    → k.is_mounted ≡ true
    → is_valid_filename fname ≡ true
    → find_file_in_root_dir fname k ≡ ok (file_found e block idx) w
    → perm ≤ 7
    → chmod_perm mode e.perm perm ≡ some p
    → k_chmod fname perm mode k
      ≡ and_then
          (write_root_dir_entry (record e { perm = p }) block idx w)
          (λ s. ok (if s == 0 then pos 0 else neg 66))
unfolding k_chmod chmod_found
k_chmod-writes k w fname perm mode e block idx p is_mounted valid found small gives =
    let small_enough : ltb 7 perm ≡ false = ground arith in
    ground (arith, is_mounted, valid, found, gives)

-- `k_chmod` on a file that the directory has, with permissions up to 7 and a mode that gives the
-- permissions `p`, returns 0 and leaves the file's entry with those permissions and nothing else
-- changed, the other entries and blocks as before. The entry's block must be one that the host reads
-- and writes whole.
-- The file system must be mounted, the name valid, and the fields of the new entry fit their
-- widths.
pub k_chmod-Stored :
    (k w : Kernel) (fname : List ℕ) (perm mode : ℕ) (e : DirEntry) (block idx p : ℕ)
    → k.is_mounted ≡ true
    → is_valid_filename fname ≡ true
    → find_file_in_root_dir fname k ≡ ok (file_found e block idx) w
    → perm ≤ 7
    → chmod_perm mode e.perm perm ≡ some p
    → Whole w block
    → length w.block_buf ≡ w.block_size
    → Fits (record e { perm = p })
    → dir_entry_size * idx + dir_entry_size ≤ w.block_size
    → Returns
        (λ s g. (s ≡ pos 0) × Stored w block idx (record e { perm = p }) g)
        (k_chmod fname perm mode k)
k_chmod-Stored k w fname perm mode e block idx p is_mounted valid found small gives whole full fits
      room =
    rw (k_chmod-writes k w fname perm mode e block idx p is_mounted valid found small gives) (
      Returns.bind
        (write_root_dir_entry-Stored w block idx (record e { perm = p }) whole full fits room)
        λ s g (zero, stored). rw zero (returns (refl, stored)))
