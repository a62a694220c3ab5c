-- ===== src/Fat/Disk/Whole.antt =====
-- src/pennfat/fat.c: blocks that the host reads and writes as a whole.
use pennos.Base.{
  update, ℕ, zero, suc, ◌≤◌, ◌≡◌, refl, true, false, List, [], ◌∷◌, ◌++◌, some, arith, ltb, length,
  take, drop, min,
}
use pennos.Fat.State.{Kernel, ok, set_buf}
use pennos.Fat.Chain.{get_blocks_in_data_region, get_byte_offset_of_block}
use pennos.Fat.Disk.{get_block, write_block}

-- Block `b` is in the data region, and the host seeks to it and moves as many bytes as it is asked
-- for.
pub record Whole (k : Kernel) (b : ℕ) : Type 0 where
  pub not_zero : 1 ≤ b
  pub in_region : b ≤ get_blocks_in_data_region k
  pub seeks : k.host.lseek (get_byte_offset_of_block k b) ≡ true
  pub moves :
      (n : ℕ) × (k.block_size ≤ n)
      × (k.host.read (get_byte_offset_of_block k b) ≡ some n)
      × (k.host.write (get_byte_offset_of_block k b) ≡ some n)
  pub filled : length (k.blocks b) ≡ k.block_size

take-all : {A : Type 0} (n : ℕ) (l : List A) → length l ≤ n → take n l ≡ l
take-all zero [] h = refl
take-all zero (x ∷ l) h = absurd (omega arith)
take-all (suc n) [] h = refl
take-all (suc n) (x ∷ l) h = rw (take-all n l (omega arith)) refl

drop-all : {A : Type 0} (n : ℕ) (l : List A) → length l ≤ n → drop n l ≡ []
drop-all zero [] h = refl
drop-all zero (x ∷ l) h = absurd (omega arith)
drop-all (suc n) [] h = refl
drop-all (suc n) (x ∷ l) h = drop-all n l (omega arith)

append_nil : {A : Type 0} (l : List A) → l ++ [] ≡ l
append_nil [] = refl
append_nil (x ∷ l) = rw (append_nil l) refl

whole-replaced :
    {A : Type 0} (n : ℕ) (new old : List A)
    → length new ≡ n
    → length old ≤ n
    → take n new ++ drop n old ≡ new
whole-replaced n new old h o = rw (take-all n new (omega arith), drop-all n old o) (append_nil new)

module _ (k : Kernel) (b : ℕ) (w : Whole k b) where
  -- `get_block` fills the buffer with the block.
  pub get_block-whole :
      length k.block_buf ≡ k.block_size → get_block b k ≡ ok 0 (record k { block_buf = k.blocks b })
  unfolding get_block set_buf
  get_block-whole full =
      let (n, enough, reads, _) = w.moves in
      let size : min n k.block_size ≡ k.block_size = omega arith in
      let pos : ltb b 1 ≡ false = ground (arith, w.not_zero) in
      let inside : ltb (get_blocks_in_data_region k) b ≡ false = ground (arith, w.in_region) in
      let same = whole-replaced k.block_size (k.blocks b) k.block_buf w.filled (omega arith) in
      let total : ltb k.block_size k.block_size ≡ false = ground arith in
      rw (pos, inside, w.seeks, reads, size, same, total) refl

  -- `write_block` replaces the block by the bytes that it is given.
  pub write_block-whole :
      (bytes : List ℕ)
      → length bytes ≡ k.block_size
      → write_block b bytes k ≡ ok 0 (record k { blocks = update k.blocks b bytes })
  unfolding write_block
  write_block-whole bytes full =
      let (n, enough, _, writes) = w.moves in
      let size : min n k.block_size ≡ k.block_size = omega arith in
      let pos : ltb b 1 ≡ false = ground (arith, w.not_zero) in
      let inside : ltb (get_blocks_in_data_region k) b ≡ false = ground (arith, w.in_region) in
      let same = whole-replaced k.block_size bytes (k.blocks b) full (omega (arith, w.filled)) in
      let total : ltb k.block_size k.block_size ≡ false = ground arith in
      rw (pos, inside, w.seeks, writes, size, same, total) refl

-- It stays so while the geometry, the host and the block's length stay.
pub Whole-same :
    (k g : Kernel) (b : ℕ)
    → Whole k b
    → g.fat_size ≡ k.fat_size
    → g.block_size ≡ k.block_size
    → g.host ≡ k.host
    → length (g.blocks b) ≡ k.block_size
    → Whole g b
unfolding get_blocks_in_data_region get_byte_offset_of_block
Whole-same k g b w fat_size block_size host full = record {
  not_zero = w.not_zero;
  in_region = rw fat_size w.in_region;
  seeks = rw (fat_size, block_size, host) w.seeks;
  moves = rw (fat_size, block_size, host) w.moves;
  filled = rw block_size full;
}
