-- ===== src/Fat/Write/Overwrite.antt =====
-- src/pennfat/fat.c: `k_write` inside the only block of a file, from end to end.
use native.Mathlib.Nat.{div-eq_of_lt, mod-eq_of_lt, add-div_right}
use pennos.Base.{
  update, ℕ, suc, ◌+◌, ◌*◌, ◌/◌, ◌%◌, ◌^◌, ◌≤◌, ◌<◌, ◌≡◌, ◌≢◌, refl, ap, sym, ◌∙◌, true, false,
  List, ◌++◌, some, arith, ◌==◌, pos, length, take, drop, length-take,
}
use pennos.Fat.State.{DirEntry, Kernel, end_of_file, f_append, dir_entry_size, global_fd_table_size}
use pennos.Base.Returns
use pennos.Base.Returns.{Returns, returns}
use pennos.Fat.Disk.{entry_at}
use pennos.Fat.Disk.Whole.{Whole, Whole-same}
use pennos.Fat.Dir.Store.{Stored}
use pennos.Fat.Disk.RoundTrip.{Fits}
use pennos.Fat.Write.{walk_blocks, grow_blocks, overwrite, finish_write, write_from}
use pennos.Fat.FdTable.{is_special_fd}
use pennos.Fat.Write.{may_write, write_entry, k_write}
use pennos.Fat.Write.InBlock.{
  zeroed, Last, length-zeroed, length-overwrite, next_block_num-last, with_block, zero_tail-last,
  write_loop-once,
}
use pennos.Fat.Write.Finish.{written_entry, before_entry, finish_write-stores}

-- The parts of a small write: the file's only block `b` holds the offset and the `n` bytes, the file
-- ends in it, and its directory entry `e` is in another block; both blocks are whole on the host.
pub record Small (k : Kernel) (fd b : ℕ) (e : DirEntry) (n offset mtime : ℕ) : Type 0 where
  pub last : Last k b
  pub dir : Whole k (k.table fd).dir_entry_block_num
  pub apart : (k.table fd).dir_entry_block_num ≢ b
  pub room : dir_entry_size * (k.table fd).dir_entry_idx + dir_entry_size ≤ k.block_size
  pub copy : (k.table fd).ptr_to_dir_entry ≡ some e
  pub full : length k.block_buf ≡ k.block_size
  pub small : k.block_size < 2 ^ 16
  pub ends_in_block : e.size ≤ k.block_size
  pub inside : offset + n ≤ k.block_size
  pub some_bytes : 0 < n
  pub time : k.host.time ≡ some mtime
  pub fits : Fits (written_entry k fd b e mtime offset n)

module _ (k : Kernel) (fd b : ℕ) (e : DirEntry) (n offset mtime : ℕ) (str : List ℕ) where
  -- The bytes of the block after the write.
  abbrev pub new_bytes : List ℕ
  new_bytes =
      let old = zeroed k.block_size e.size (k.blocks b) in
      take offset old ++ (take n str ++ drop (offset + n) old)

  overwrite-new_bytes :
      n ≤ length str
      → overwrite (zeroed k.block_size e.size (k.blocks b)) offset (take n str) ≡ new_bytes
  unfolding overwrite
  overwrite-new_bytes enough =
      let exact : length (take n str) ≡ n = omega (arith, length-take n str) in rw exact refl

  abbrev tailed : Kernel
  tailed = with_block k b (zeroed k.block_size e.size (k.blocks b))

  abbrev pub filled_in : Kernel
  filled_in = with_block tailed b new_bytes

  tailed-Last : Last k b → e.size ≤ k.block_size → Last tailed b
  tailed-Last l le = record {
    whole =
        Whole-same k tailed b l.whole refl refl refl
          (ground (arith, length-zeroed k.block_size e.size (k.blocks b) l.whole.filled le));
    ends = l.ends;
    in_fat = l.in_fat;
  }

  write_from-run :
      Small k fd b e n offset mtime
      → n ≤ length str
      → write_from fd b str n offset e.size k ≡ finish_write fd offset b n filled_in
  unfolding write_from walk_blocks grow_blocks
  write_from-run s enough =
      let nonzero : (k.block_size == 0) ≡ false = ground (arith, s.inside, s.some_bytes) in
      let below : (offset + k.block_size) % 2 ^ 32 ≡ offset + k.block_size =
        omega (arith, s.inside, s.small) in
      let first : offset / k.block_size ≡ 0 =
        div-eq_of_lt (omega (arith, s.inside, s.some_bytes)) in
      let target : (offset + k.block_size) / k.block_size ≡ 1 =
        add-div_right offset (omega (arith, s.inside, s.some_bytes)) ∙ rw first refl in
      let back : offset % k.block_size ≡ offset =
        mod-eq_of_lt (omega (arith, s.inside, s.some_bytes)) in
      let self : tailed.blocks b ≡ zeroed k.block_size e.size (k.blocks b) = ground arith in
      let n_suc : n + 1 ≡ suc n = omega arith in
      let last' = tailed-Last s.last s.ends_in_block in
      let bytes_full =
        length-zeroed k.block_size e.size (k.blocks b) s.last.whole.filled s.ends_in_block in
      let once =
        write_loop-once tailed b last' str n offset e.size bytes_full s.small s.some_bytes enough
          s.inside in
      rw
        (
          nonzero,
          below,
          target,
          next_block_num-last k b s.last 0,
          zero_tail-last k b s.last e.size s.full s.ends_in_block s.small,
        )
        (rw (below, target) (rw (back, n_suc, once, self, overwrite-new_bytes enough) refl))

  pub new_bytes-length :
      Small k fd b e n offset mtime → n ≤ length str → length new_bytes ≡ k.block_size
  new_bytes-length s enough =
      let z = length-zeroed k.block_size e.size (k.blocks b) s.last.whole.filled s.ends_in_block in
      let fits : offset + length (take n str) ≤ length (zeroed k.block_size e.size (k.blocks b)) =
        omega (arith, length-take n str, s.inside, z) in
      ap length (sym (overwrite-new_bytes enough))
      ∙ length-overwrite (zeroed k.block_size e.size (k.blocks b)) offset (take n str) fits
      ∙ z

  pub write_from-stores :
      Small k fd b e n offset mtime
      → n ≤ length str
      → Returns
          (λ r g.
            (r ≡ pos n)
            × Stored
                (before_entry filled_in fd b e mtime offset n)
                (k.table fd).dir_entry_block_num
                (k.table fd).dir_entry_idx
                (written_entry k fd b e mtime offset n)
                g)
          (write_from fd b str n offset e.size k)
  write_from-stores s enough =
      let d = (k.table fd).dir_entry_block_num in
      let dir_same : filled_in.blocks d ≡ k.blocks d = ground (arith, s.apart) in
      let whole : Whole filled_in d =
        Whole-same k filled_in d s.dir refl refl refl (rw dir_same s.dir.filled) in
      rw (write_from-run s enough) (
        finish_write-stores filled_in fd b e mtime offset n s.last.in_fat s.time s.copy
          (s.fits.size) whole (new_bytes-length s enough) s.fits s.room)

  pub k_write-run :
      Small k fd b e n offset mtime
      → k.is_mounted ≡ true
      → 3 ≤ fd
      → fd < global_fd_table_size
      → (k.table fd).ref_count ≢ 0
      → may_write e.perm ≡ true
      → (k.table fd).write_locked ≢ f_append
      → (k.table fd).offset ≡ offset
      → e.first_block ≡ b
      → k_write (pos fd) str (pos n) k ≡ write_from fd b str n offset e.size k
  unfolding k_write is_special_fd write_entry
  k_write-run s is_mounted not_std in_table is_open allowed not_append at_offset first =
      ground
        (arith, is_mounted, s.copy, allowed, first, at_offset, s.some_bytes, s.last.whole.not_zero)

  -- `k_write` of `n` bytes to a file with one block, at the descriptor's offset and inside that block,
  -- returns `n`. The block then has the bytes at the offset, zeros behind the file's old end, and its
  -- old bytes elsewhere; the file's size becomes the offset plus `n`, also where the file was longer;
  -- the directory has the new entry, and the descriptor the new entry and offset, with its other
  -- fields as they were. The other entries of the directory's block, all other blocks, the other
  -- descriptors, all FAT entries and the rest of the state but the block buffer stay. The file must be open, not for
  -- appending, on a mounted file system, and its permissions must pass the test of `k_write`.
  -- The host must move the file's block and that of its directory entry whole and have a clock, a
  -- block have fewer than 2^16 bytes, and the fields of the new entry fit their widths.
  pub k_write-in_block :
      Small k fd b e n offset mtime
      → n ≤ length str
      → k.is_mounted ≡ true
      → 3 ≤ fd
      → fd < global_fd_table_size
      → (k.table fd).ref_count ≢ 0
      → may_write e.perm ≡ true
      → (k.table fd).write_locked ≢ f_append
      → (k.table fd).offset ≡ offset
      → e.first_block ≡ b
      → Returns
          (λ r g.
            (r ≡ pos n)
            × (g.blocks b ≡ new_bytes)
            × (entry_at (g.blocks (k.table fd).dir_entry_block_num) (k.table fd).dir_entry_idx
                ≡ record e { mtime = mtime; size = offset + n })
            × ((j : ℕ)
                → j ≢ (k.table fd).dir_entry_idx
                → entry_at (g.blocks (k.table fd).dir_entry_block_num) j
                  ≡ entry_at (k.blocks (k.table fd).dir_entry_block_num) j)
            × ((i : ℕ) → i ≢ b → i ≢ (k.table fd).dir_entry_block_num → g.blocks i ≡ k.blocks i)
            × (g.table fd ≡ record (k.table fd) {
              offset = offset + n;
              ptr_to_dir_entry = some (record e { mtime = mtime; size = offset + n });
            })
            × ((i : ℕ) → i ≢ fd → g.table i ≡ k.table i)
            × ((i : ℕ) → g.fat i ≡ k.fat i)
            × (g ≡ record k {
              blocks = g.blocks;
              block_buf = g.block_buf;
              table = g.table;
              fat = g.fat;
            }))
          (k_write (pos fd) str (pos n) k)
  k_write-in_block s enough is_mounted not_std in_table is_open allowed not_append at_offset first =
      rw (k_write-run s is_mounted not_std in_table is_open allowed not_append at_offset first) (
        Returns.mono (write_from-stores s enough) λ r g (is_n, st).
          let table : g.table ≡ (before_entry filled_in fd b e mtime offset n).table =
            ap (λ x. x.table) st.rest in
          let fat : g.fat ≡ update k.fat b end_of_file = ap (λ x. x.fat) st.rest in
          (
            is_n,
            st.blocks b (λ same. s.apart (sym same)) ∙ ground arith,
            st.is_there,
            λ j ne.
                let same : filled_in.blocks (k.table fd).dir_entry_block_num
                    ≡ k.blocks (k.table fd).dir_entry_block_num =
                  ground (arith, s.apart) in
                st.entries j ne ∙ ap (λ x. entry_at x j) same,
            λ i ne_b ne_d. st.blocks i ne_d ∙ ground arith,
            rw table (ground arith),
            λ i ne. rw table (ground arith),
            λ i. rw fat (ground (arith, s.last.ends)),
            st.rest
                ∙ ap
                    (λ x. record k {
                      blocks = g.blocks;
                      block_buf = g.block_buf;
                      table = x.table;
                      fat = x.fat;
                    })
                    (sym st.rest),
          ))
