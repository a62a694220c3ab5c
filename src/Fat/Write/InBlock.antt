-- ===== src/Fat/Write/InBlock.antt =====
-- src/pennfat/fat.c: a write that stays inside the only block of a file.
use native.Mathlib.Nat.{div-eq_of_lt}
use pennos.Base.{
  update, ℕ, suc, ◌+◌, ◌-◌, ◌*◌, ◌/◌, ◌%◌, ◌^◌, ◌≤◌, ◌<◌, ◌≡◌, refl, ◌∙◌, true, false, List, ◌++◌,
  arith, ltb, leb, length, take, drop, replicate, min, length-append, length-take, length-drop,
  length-replicate,
}
use pennos.Fat.State.{Kernel, ok, set_buf, end_of_file, n_entries}
use pennos.Fat.State.Steps.{fat_read-ok}
use pennos.Fat.Chain.{next_block_num, get_blocks_in_data_region}
use pennos.Fat.Disk.Whole.{Whole, Whole-same, get_block-whole, write_block-whole}
use pennos.Fat.Write.{at, zero_tail, copied, load_for_write, overwrite, write_loop}

-- The block with zeros behind the file's end.
abbrev pub zeroed : (block_size file_size : ℕ) → List ℕ → List ℕ
zeroed block_size file_size bytes = take file_size bytes ++ replicate (block_size - file_size) 0

pub length-zeroed :
    (block_size file_size : ℕ) (bytes : List ℕ)
    → length bytes ≡ block_size
    → file_size ≤ block_size
    → length (zeroed block_size file_size bytes) ≡ block_size
length-zeroed bs size bytes h le = omega (
  arith,
  length-append (take size bytes) (replicate (bs - size) 0),
  length-take size bytes,
  length-replicate {A = ℕ} (bs - size) 0,
)

pub length-overwrite :
    (bytes : List ℕ) (offset : ℕ) (new : List ℕ)
    → offset + length new ≤ length bytes
    → length (overwrite bytes offset new) ≡ length bytes
unfolding overwrite
length-overwrite bytes offset new h = omega (
  arith,
  length-append (take offset bytes) (new ++ drop (offset + length new) bytes),
  length-append new (drop (offset + length new) bytes),
  length-take offset bytes,
  length-drop (offset + length new) bytes,
)

-- `k` with block `b` replaced, in the buffer too.
abbrev pub with_block : Kernel → ℕ → List ℕ → Kernel
with_block k b bytes = record k { block_buf = bytes; blocks = update k.blocks b bytes }

-- The last block of a chain, whole on the host.
pub record Last (k : Kernel) (b : ℕ) : Type 0 where
  pub whole : Whole k b
  pub ends : k.fat b ≡ end_of_file
  pub in_fat : b < n_entries k

module _ (k : Kernel) (b : ℕ) (l : Last k b) where
  pub next_block_num-last :
      (old : ℕ) → next_block_num b old k ≡ ok (record { status = 0; block = end_of_file }) k
  unfolding next_block_num
  next_block_num-last old =
      let positive : ltb b 1 ≡ false = ground (arith, l.whole.not_zero) in
      let inside : ltb (get_blocks_in_data_region k) b ≡ false =
        ground (arith, l.whole.in_region) in
      rw (positive, inside, fat_read-ok k l.in_fat, l.ends) refl

  pub zero_tail-last :
      (file_size : ℕ)
      → length k.block_buf ≡ k.block_size
      → file_size ≤ k.block_size
      → k.block_size < 2 ^ 16
      → zero_tail b 1 file_size k
        ≡ ok (at b 1) (with_block k b (zeroed k.block_size file_size (k.blocks b)))
  unfolding zero_tail set_buf
  zero_tail-last file_size full le small =
      let n : (file_size + 2 ^ 32 - (1 - 1) * k.block_size) % 2 ^ 32 % 2 ^ 16 ≡ file_size =
        omega arith in
      let fits : ltb k.block_size file_size ≡ false = ground arith in
      let z = zeroed k.block_size file_size (k.blocks b) in
      let w' = Whole-same k (record k { block_buf = z }) b l.whole refl refl refl l.whole.filled in
      rw
        (
          n,
          get_block-whole k b l.whole full,
          fits,
          write_block-whole (record k { block_buf = z }) b w' z
              (length-zeroed k.block_size file_size (k.blocks b) l.whole.filled le),
        )
        refl

  load_for_write-first :
      (max_block_idx : ℕ)
      → length k.block_buf ≡ k.block_size
      → load_for_write 0 max_block_idx b k ≡ ok true (record k { block_buf = k.blocks b })
  unfolding load_for_write
  load_for_write-first max_block_idx full =
      let not_behind : ltb max_block_idx 0 ≡ false = ground arith in
      rw (not_behind, get_block-whole k b l.whole full) refl

  pub write_loop-once :
      (str : List ℕ) (n offset file_size : ℕ)
      → length k.block_buf ≡ k.block_size
      → k.block_size < 2 ^ 16
      → 0 < n
      → n ≤ length str
      → offset + n ≤ k.block_size
      → write_loop (suc n) str n offset file_size 0 b offset k
        ≡ ok (copied b n) (with_block k b (overwrite (k.blocks b) offset (take n str)))
  unfolding write_loop set_buf
  write_loop-once str n offset file_size full small some_bytes enough inside =
      let todo : leb n 0 ≡ false = ground arith in
      let done : leb n (0 + n) ≡ true = ground arith in
      let sum : 0 + n ≡ n = omega arith in
      let below : (offset + 0) % 2 ^ 32 ≡ offset = omega arith in
      let first : offset / k.block_size ≡ 0 = div-eq_of_lt (omega arith) in
      let all : min (n - 0) (k.block_size - offset) ≡ n = omega arith in
      let new = overwrite (k.blocks b) offset (take n str) in
      let fits : offset + length (take n str) ≤ length (k.blocks b) =
        omega (arith, length-take n str, l.whole.filled) in
      let size : length new ≡ k.block_size =
        length-overwrite (k.blocks b) offset (take n str) fits ∙ l.whole.filled in
      let w' =
        Whole-same k (record k { block_buf = new }) b l.whole refl refl refl l.whole.filled in
      rw
        (
          todo,
          below,
          first,
          load_for_write-first ((file_size + k.block_size - 1) % 2 ^ 32 / k.block_size % 2 ^ 16)
              full,
          all,
          write_block-whole (record k { block_buf = new }) b w' new size,
          done,
          sum,
        )
        refl
