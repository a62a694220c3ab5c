-- ===== src/Fat/Read/InBlock.antt =====
-- src/pennfat/fat.c: `k_read` inside the only block of a file.
use native.Mathlib.Nat.{div-eq_of_lt, mod-eq_of_lt}
use pennos.Base.{
  update, ℕ, suc, ◌+◌, ◌-◌, ◌/◌, ◌%◌, ◌^◌, ◌≤◌, ◌<◌, ◌≡◌, ◌≢◌, refl, true, false, [], some, arith,
  leb, ◌==◌, pos, length, take, drop, min,
}
use pennos.Fat.State.{DirEntry, Kernel, ok, set_fd, end_of_file, global_fd_table_size}
use pennos.Fat.Disk.Whole.{Whole-same, get_block-whole}
use pennos.Fat.FdTable.{is_special_fd}
use pennos.Fat.Write.InBlock.{Last, next_block_num-last}
use pennos.Fat.Read.{skip_blocks, read_loop, readable, read_at, read_entry, k_read}

-- A read from a file whose only block is `b`, with its descriptor's offset inside the file.
pub record SmallRead (k : Kernel) (fd b : ℕ) (e : DirEntry) : Type 0 where
  pub last : Last k b
  pub not_end : b ≢ end_of_file
  pub copy : (k.table fd).ptr_to_dir_entry ≡ some e
  pub first : e.first_block ≡ b
  pub full : length k.block_buf ≡ k.block_size
  pub small : k.block_size < 2 ^ 16
  pub ends_in_block : e.size ≤ k.block_size
  pub inside : (k.table fd).offset < e.size

module _ (k : Kernel) (fd b : ℕ) (e : DirEntry) (s : SmallRead k fd b e) where
  abbrev loaded : Kernel
  loaded = record k { block_buf = k.blocks b }

  loaded-Last : Last loaded b
  loaded-Last = record {
    whole = Whole-same k loaded b s.last.whole refl refl refl s.last.whole.filled;
    ends = s.last.ends;
    in_fat = s.last.in_fat;
  }

  read_loop-once :
      (m left offset : ℕ)
      → 0 < left
      → offset + left ≤ k.block_size
      → read_loop (suc (suc m)) left b offset 0 [] k
        ≡ ok (left, take left (drop offset (k.blocks b))) loaded
  unfolding read_loop
  read_loop-once m left offset some_bytes fits =
      let todo : (left == 0) ≡ false = ground arith in
      let not_end : (b == end_of_file) ≡ false = ground (arith, s.not_end) in
      let all : min left (k.block_size - offset) ≡ left = omega arith in
      let done : left - left ≡ 0 = omega arith in
      let sum : 0 + left ≡ left = omega arith in
      rw (todo, not_end, get_block-whole k b s.last.whole s.full)
        (rw (all, next_block_num-last loaded b loaded-Last b) (rw (done, sum) refl))

  -- `k_read` returns the number of bytes that the file has from the offset on, or `n` if that is less,
  -- copies these bytes of the block, moves the offset behind them, and changes nothing else but the
  -- block buffer. The file must be open on a mounted file system, readable, and `n` positive.
  -- The host must move the block whole, the offset lie inside the file, a block have fewer than
  -- 2^16 bytes, and the block not have the number 0xFFFF.
  pub k_read-in_block :
      (n : ℕ)
      → let g = k.table fd in
        let left = min n (e.size - g.offset) in
        k.is_mounted ≡ true
        → 3 ≤ fd
        → fd < global_fd_table_size
        → g.ref_count ≢ 0
        → 4 ≤ e.perm
        → 0 < n
        → k_read (pos fd) (pos n) k
          ≡ ok
              (record { status = pos left; bytes = take left (drop g.offset (k.blocks b)) })
              (record k {
                block_buf = k.blocks b;
                table = update k.table fd (record g { offset = g.offset + left });
              })
  unfolding k_read is_special_fd read_entry read_at skip_blocks set_fd readable
  k_read-in_block n is_mounted not_std in_table is_open allowed some_bytes =
      let g = k.table fd in
      let left = min n (e.size - g.offset) in
      let run : k_read (pos fd) (pos n) k ≡ read_at fd e g n k =
        ground (arith, is_mounted, s.copy, s.inside) in
      let nonzero : (k.block_size == 0) ≡ false = ground (arith, s.inside, s.ends_in_block) in
      let block_0 : g.offset / k.block_size ≡ 0 =
        div-eq_of_lt (omega (arith, s.inside, s.ends_in_block)) in
      let in_block : g.offset % k.block_size ≡ g.offset =
        mod-eq_of_lt (omega (arith, s.inside, s.ends_in_block)) in
      let positive : leb (2 ^ 31) (e.size - g.offset) ≡ false =
        ground (arith, s.ends_in_block, s.small) in
      let fuel : left + 1 ≡ suc (suc (left - 1)) = omega (arith, s.inside) in
      let once =
        read_loop-once (left - 1) left g.offset (omega (arith, s.inside))
          (omega (arith, s.inside, s.ends_in_block)) in
      let sum : (g.offset + left) % 2 ^ 32 ≡ g.offset + left =
        omega (arith, s.inside, s.ends_in_block, s.small) in
      rw run
        (rw (nonzero, block_0) (rw (s.first, positive, in_block, fuel) (rw once (rw sum refl))))
