-- ===== src/Fat/Write/Refused.antt =====
-- src/pennfat/fat.c: the writes that `k_write` refuses.
use pennos.Base.{ℕ, ◌≤◌, ◌<◌, ◌≡◌, ◌≢◌, true, false, ◌⊎◌, ◌↔◌, List, some, arith, pos, neg}
use pennos.Fat.State.{DirEntry, Kernel, ok, global_fd_table_size}
use pennos.Fat.FdTable.{is_special_fd}
use pennos.Fat.Write.{may_write, k_write}

-- Which permissions the test of `k_write` accepts: 2, and 5 and above, among them the 5 that is read
-- and executable.
pub may_write_iff : (perm : ℕ) → (may_write perm ≡ true) ↔ ((perm ≡ 2) ⊎ (5 ≤ perm))
unfolding may_write
may_write_iff perm = ground arith

-- On a mounted file system and a descriptor that is no standard stream, `k_write` past the table, on a
-- closed descriptor, or on a file whose permissions do not pass, returns its error and changes
-- nothing; with nothing to write it returns 0 and changes nothing.
pub k_write-refused :
    (k : Kernel) (fd : ℕ) (str : List ℕ) (n : ℕ)
    → k.is_mounted ≡ true
    → 3 ≤ fd
    → (global_fd_table_size ≤ fd → k_write (pos fd) str (pos n) k ≡ ok (neg 47) k)
      × (fd < global_fd_table_size
          → (k.table fd).ref_count ≡ 0
          → k_write (pos fd) str (pos n) k ≡ ok (neg 46) k)
      × ((e : DirEntry)
          → fd < global_fd_table_size
          → (k.table fd).ref_count ≢ 0
          → (k.table fd).ptr_to_dir_entry ≡ some e
          → (may_write e.perm ≡ false → k_write (pos fd) str (pos n) k ≡ ok (neg 45) k)
            × (may_write e.perm ≡ true → n ≡ 0 → k_write (pos fd) str (pos n) k ≡ ok (pos 0) k))
unfolding k_write is_special_fd
k_write-refused k fd str n is_mounted not_std = (
  λ out. ground (arith, is_mounted),
  λ inside closed. ground (arith, is_mounted),
  λ e inside is_open copy. (
    λ refused. ground (arith, is_mounted, copy, refused),
    λ allowed nothing. ground (arith, is_mounted, copy, allowed),
  ),
)
