-- ===== src/Fat/Write/ReadBack.antt =====
-- src/pennfat/fat.c: `k_write`, `k_lseek` and `k_read` in a row.
use pennos.Base.{
  ℕ, ◌+◌, ◌-◌, ◌≤◌, ◌<◌, ◌≡◌, ◌≢◌, refl, ap, sym, ◌∙◌, true, List, ◌++◌, some, arith, pos, length,
  take, drop, min, length-take, drop-append_of_length, take-append_of_length,
}
use pennos.Base.Returns
use pennos.Base.Returns.{Returns, returns}
use pennos.Base.Run.{◌>>=◌}
use pennos.Fat.State.{DirEntry, Kernel, Cmd, end_of_file, f_append, global_fd_table_size}
use pennos.Fat.Disk.Whole.{Whole-same}
use pennos.Fat.FdTable.{is_special_fd}
use pennos.Fat.Seek.{k_lseek}
use pennos.Fat.Seek.Outcome.{Seekable, moved, k_lseek-forward}
use pennos.Fat.Read.{Reading, k_read}
use pennos.Fat.Read.InBlock.{SmallRead, k_read-in_block}
use pennos.Fat.Write.{may_write, k_write}
use pennos.Fat.Write.InBlock.{zeroed, length-zeroed}
use pennos.Fat.Write.Finish.{written_entry, before_entry}
use pennos.Fat.Write.Overwrite.{
  Small, new_bytes, filled_in, new_bytes-length, k_write-run, write_from-stores,
}

-- Seeking to a position from the file's start and reading from there.
read_back : (fd offset n : ℕ) → Cmd Reading
read_back fd offset n = do _ ← k_lseek (pos fd) (pos offset) 1; k_read (pos fd) (pos n)

pub write_and_read_back : (fd offset : ℕ) → List ℕ → ℕ → Cmd Reading
write_and_read_back fd offset str n = do _ ← k_write (pos fd) str (pos n); read_back fd offset n

module _ (k : Kernel) (fd b : ℕ) (e : DirEntry) (n offset mtime : ℕ) (str : List ℕ) where
  abbrev bytes : List ℕ
  bytes = new_bytes k fd b e n offset mtime str

  -- The kernel after the write, with the blocks and the buffer that it then has.
  abbrev after : (ℕ → List ℕ) → List ℕ → Kernel
  after blocks buf =
      record (before_entry (filled_in k fd b e n offset mtime str) fd b e mtime offset n) {
        blocks = blocks;
        block_buf = buf;
      }

  pub slice :
      Small k fd b e n offset mtime → n ≤ length str → take n (drop offset bytes) ≡ take n str
  slice s enough =
      let z = zeroed k.block_size e.size (k.blocks b) in
      let whole =
        length-zeroed k.block_size e.size (k.blocks b) s.last.whole.filled s.ends_in_block in
      let front : length (take offset z) ≡ offset =
        omega (arith, length-take offset z, whole, s.inside) in
      let new : length (take n str) ≡ n = omega (arith, length-take n str) in
      rw (drop-append_of_length offset (take offset z) (take n str ++ drop (offset + n) z) front)
        (take-append_of_length n (take n str) (drop (offset + n) z) new)

  read_back-after :
      (blocks : ℕ → List ℕ) (buf : List ℕ)
      → Small k fd b e n offset mtime
      → n ≤ length str
      → blocks b ≡ bytes
      → length buf ≡ k.block_size
      → b ≢ end_of_file
      → k.is_mounted ≡ true
      → 3 ≤ fd
      → fd < global_fd_table_size
      → (k.table fd).ref_count ≢ 0
      → 4 ≤ e.perm
      → e.first_block ≡ b
      → Returns
          (λ r _. r ≡ record { status = pos n; bytes = take n str })
          (read_back fd offset n (after blocks buf))
  unfolding read_back is_special_fd
  read_back-after blocks buf s enough has_bytes full not_end is_mounted not_std in_table is_open
        readable first =
      let g = after blocks buf in
      let e' = written_entry k fd b e mtime offset n in
      let written : (g.table fd).ptr_to_dir_entry ≡ some e' = ground arith in
      let counted : (g.table fd).ref_count ≡ (k.table fd).ref_count = ground arith in
      let behind : (g.table fd).offset ≡ offset + n = ground arith in
      let seekable : Seekable g fd e' = record {
        is_mounted = is_mounted;
        in_table = in_table;
        not_special = ground arith;
        in_use = λ h. is_open (sym counted ∙ h);
        copy = written;
        readable = readable;
      } in
      let seek =
        (k_lseek-forward seekable 1 offset (omega arith) (omega arith)
            (omega (arith, s.inside, s.small)) (omega (arith, behind, s.inside, s.small))
            (omega (arith, s.inside, s.small))).0
          (omega (arith, s.inside, s.small)) in
      let h = moved g fd (0 + offset) in
      let at : (h.table fd).offset ≡ offset = ground arith in
      let small_read : SmallRead h fd b e' = record {
        last = record {
          whole =
              Whole-same k h b s.last.whole refl refl refl
                (ap length has_bytes ∙ new_bytes-length k fd b e n offset mtime str s enough);
          ends = ground arith;
          in_fat = s.last.in_fat;
        };
        not_end = not_end;
        copy = ground (arith, written);
        first = first;
        full = full;
        small = s.small;
        ends_in_block = s.inside;
        inside = omega (arith, at, s.some_bytes);
      } in
      let counted' : (h.table fd).ref_count ≡ (k.table fd).ref_count = ground arith in
      let read =
        k_read-in_block h fd b e' small_read n is_mounted not_std in_table
          (λ c. is_open (sym counted' ∙ c)) readable s.some_bytes in
      let left : min n (offset + n - (h.table fd).offset) ≡ n = omega (arith, at) in
      rw (seek, read) (returns (rw (left, at, has_bytes, slice s enough) refl))

  -- Bytes that are written to a file with one block, inside that block, are read back: after `k_write`
  -- of `n` bytes at the descriptor's offset, `k_lseek` to that offset from the file's start and `k_read`
  -- of `n` bytes on the same descriptor return `n` and the bytes. The file must be open, not for
  -- appending, on a mounted file system, and its permissions must pass the tests of both calls.
  -- The host must move the file's block and that of its directory entry whole and have a clock, a
  -- block have fewer than 2^16 bytes, and the fields of the new entry fit their widths. The block
  -- must not have the number 0xFFFF.
  pub k_write-k_read :
      Small k fd b e n offset mtime
      → n ≤ length str
      → b ≢ end_of_file
      → k.is_mounted ≡ true
      → 3 ≤ fd
      → fd < global_fd_table_size
      → (k.table fd).ref_count ≢ 0
      → may_write e.perm ≡ true
      → 4 ≤ e.perm
      → (k.table fd).write_locked ≢ f_append
      → (k.table fd).offset ≡ offset
      → e.first_block ≡ b
      → Returns
          (λ r _. r ≡ record { status = pos n; bytes = take n str })
          (write_and_read_back fd offset str n k)
  unfolding write_and_read_back
  k_write-k_read s enough not_end is_mounted not_std in_table is_open allowed readable not_append
        at_offset first =
      rw
        (k_write-run k fd b e n offset mtime str s is_mounted not_std in_table is_open allowed
          not_append at_offset first)
        (Returns.bind (write_from-stores k fd b e n offset mtime str s enough) λ r g (_, st).
          let has_bytes : g.blocks b ≡ bytes =
            st.blocks b (λ same. s.apart (sym same)) ∙ ground arith in
          rw st.rest (
            read_back-after g.blocks g.block_buf s enough has_bytes st.full not_end is_mounted
              not_std in_table is_open readable first))
