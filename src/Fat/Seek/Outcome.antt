-- ===== src/Fat/Seek/Outcome.antt =====
-- src/pennfat/fat.c: what `k_lseek` returns and stores.
use pennos.Base.{
  update, ℕ, ◌+◌, ◌^◌, ◌≤◌, ◌<◌, ◌≡◌, ◌≢◌, true, false, some, arith, ◌==◌, if◌then◌else◌, ℤ, pos,
  negsuc, neg, inl, inr, suc, Bool, ltb, leb, Bool-cases, refl,
}
use pennos.Base.Run.{Run}
use pennos.Fat.State.{DirEntry, Kernel, ok, set_fd, global_fd_table_size}
use pennos.Fat.FdTable.{is_special_fd}
use pennos.Fat.Seek.{as_u32, minus_as_u32, seek_from, seek_target, store_offset, k_lseek}

-- A descriptor that `k_lseek` can move: mounted, open, no standard stream, readable.
pub record Seekable (k : Kernel) (fd : ℕ) (e : DirEntry) : Type 0 where
  pub is_mounted : k.is_mounted ≡ true
  pub in_table : fd < global_fd_table_size
  pub not_special : is_special_fd fd ≡ false
  pub in_use : (k.table fd).ref_count ≢ 0
  pub copy : (k.table fd).ptr_to_dir_entry ≡ some e
  pub readable : 4 ≤ e.perm

-- The kernel with a descriptor's offset changed.
abbrev pub moved : Kernel → ℕ → ℕ → Kernel
moved k fd n = record k { table = update k.table fd (record (k.table fd) { offset = n }) }

module _ {k : Kernel} {fd : ℕ} {e : DirEntry} (s : Seekable k fd e) where
  k_lseek_step :
      (offset : ℤ) (whence : ℕ)
      → 1 ≤ whence
      → whence ≤ 3
      → k_lseek (pos fd) offset whence k
        ≡ store_offset fd (k.table fd) (seek_target whence (k.table fd).offset e.size offset) k
  unfolding k_lseek
  k_lseek_step offset whence lo hi = ground (arith, s.is_mounted, s.not_special, s.copy)

-- The position that an offset is relative to.
abbrev pub seek_base : (whence curr_offset size : ℕ) → ℕ
seek_base whence curr_offset size =
    if whence == 1 then 0 else if whence == 2 then curr_offset else size

seek_target-forward :
    (whence cur size n : ℕ)
    → n < 2 ^ 31
    → seek_base whence cur size + n < 2 ^ 32
    → seek_target whence cur size (pos n) ≡ pos (seek_base whence cur size + n)
unfolding seek_target seek_from as_u32
seek_target-forward whence cur size n small fits = ground arith

seek_target-overflow :
    (whence cur size n : ℕ)
    → n < 2 ^ 31
    → 1 ≤ whence
    → cur < 2 ^ 32
    → size < 2 ^ 32
    → 2 ^ 32 ≤ seek_base whence cur size + n
    → seek_target whence cur size (pos n) ≡ neg 40
unfolding seek_target seek_from as_u32
seek_target-overflow whence cur size n small lo c z over = ground arith

seek_target-backward :
    (whence cur size n : ℕ)
    → n < 2 ^ 31
    → cur < 2 ^ 32
    → size < 2 ^ 32
    → seek_target whence cur size (negsuc n)
      ≡ (if leb (suc n) (seek_base whence cur size) then neg 40 else neg 39)
unfolding seek_target seek_from as_u32 minus_as_u32
seek_target-backward whence cur size n small c s = ground arith

module _ {k : Kernel} {fd : ℕ} {e : DirEntry} (s : Seekable k fd e) where
  -- On an open and readable file, a seek by an offset that is not negative moves the descriptor to
  -- base plus offset, returns that position and changes nothing else, if the sum is below 2^32; if it
  -- is not, the seek returns EK_LSEEK_OFFSET_OVERFLOW and changes nothing.
  -- The offset must be below 2^31, the size and the old position below 2^32.
  pub k_lseek-forward :
      (whence n : ℕ)
      → 1 ≤ whence
      → whence ≤ 3
      → n < 2 ^ 31
      → (k.table fd).offset < 2 ^ 32
      → e.size < 2 ^ 32
      → let target = seek_base whence (k.table fd).offset e.size + n in
        (target < 2 ^ 32 → k_lseek (pos fd) (pos n) whence k ≡ ok (pos target) (moved k fd target))
        × (2 ^ 32 ≤ target → k_lseek (pos fd) (pos n) whence k ≡ ok (neg 40) k)
  unfolding store_offset set_fd
  k_lseek-forward whence n lo hi small c z = (
    λ fits. rw (
      k_lseek_step s (pos n) whence lo hi,
      seek_target-forward whence (k.table fd).offset e.size n small fits,
    ),
    λ over. rw (
      k_lseek_step s (pos n) whence lo hi,
      seek_target-overflow whence (k.table fd).offset e.size n small lo c z over,
    ),
  )

-- What a seek gives by the base and the offset: no negative offset moves the descriptor.
abbrev pub seek_outcome : (k : Kernel) (fd base : ℕ) → ℤ → Run Kernel ℤ
seek_outcome k fd base (pos n) =
    if ltb (base + n) (2 ^ 32) then ok (pos (base + n)) (moved k fd (base + n)) else ok (neg 40) k
seek_outcome k fd base (negsuc n) = ok (if leb (suc n) base then neg 40 else neg 39) k

-- The range of `int`.
abbrev pub is_int : ℤ → Bool
is_int (pos n) = ltb n (2 ^ 31)
is_int (negsuc n) = ltb n (2 ^ 31)

module _ {k : Kernel} {fd : ℕ} {e : DirEntry} (s : Seekable k fd e) where
  -- On a descriptor that is open, of a readable file and no standard stream, `k_lseek` relative to the
  -- start, the current offset or the end of the file moves the descriptor to base plus offset, returns
  -- that position and changes nothing else, if the offset is not negative and the sum is below 2^32.
  -- By a greater offset it returns EK_LSEEK_OFFSET_OVERFLOW. By a negative offset it never moves: it
  -- returns EK_LSEEK_NEGATIVE_OFFSET if base plus offset would be negative, and
  -- EK_LSEEK_OFFSET_OVERFLOW otherwise. On an error nothing changes.
  -- The file system must be mounted, the offset an `int`, the size and the old position below 2^32.
  pub k_lseek-seek_outcome :
      (whence : ℕ) (offset : ℤ)
      → 1 ≤ whence
      → whence ≤ 3
      → is_int offset ≡ true
      → (k.table fd).offset < 2 ^ 32
      → e.size < 2 ^ 32
      → k_lseek (pos fd) offset whence k
        ≡ seek_outcome k fd (seek_base whence (k.table fd).offset e.size) offset
  unfolding store_offset
  k_lseek-seek_outcome whence (pos n) lo hi is c z =
      let target = seek_base whence (k.table fd).offset e.size + n in
      let (moves, over) = k_lseek-forward s whence n lo hi (ground arith) c z in
      elim (Bool-cases (ltb target (2 ^ 32))) [
        | inl fits ↦ rw fits (moves (ground arith))
        | inr greater ↦ rw greater (over (ground arith))
      ]
  k_lseek-seek_outcome whence (negsuc n) lo hi is c z =
      let base = seek_base whence (k.table fd).offset e.size in
      let step = k_lseek_step s (negsuc n) whence lo hi in
      let target = seek_target-backward whence (k.table fd).offset e.size n (ground arith) c z in
      elim (Bool-cases (leb (suc n) base)) [
        | inl inside ↦ rw (step, target, inside) refl
        | inr before ↦ rw (step, target, before) refl
      ]
