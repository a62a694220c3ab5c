-- ===== src/Fat/Chain.antt =====
-- src/pennfat/fat.c: the FAT itself. Freeing a file's chain, looking for an empty block, following a
-- link, and where a block lies in the host file.
pub mod Clear
pub mod Empty
use pennos.Base.{ℕ, zero, suc, ◌+◌, ◌-◌, ◌*◌, ◌/◌, ◌^◌, ◌%◌, ltb, leb, ◌==◌, if◌then◌else◌}
use pennos.Fat.State.{
  Kernel, Cmd, diverge, pure, ◌>>=◌, ◌>>◌, get, fat_read, fat_write, end_of_file,
}

-- The loop of `clear_fat_file`. A chain has at most 65536 blocks, so a walk that is longer goes in
-- a circle, and the source never returns.
unfoldable pub clear_loop : ℕ → ℕ → Cmd (Unit {0})
clear_loop zero block = λ _. diverge
clear_loop (suc fuel) block =
    if block == end_of_file
    then pure tt
    else do next ← fat_read block; fat_write block 0; clear_loop fuel next

abbrev pub chain_fuel : ℕ
chain_fuel = 65537

unfoldable pub clear_fat_file : ℕ → Cmd (Unit {0})
clear_fat_file block = clear_loop chain_fuel block

-- The bound of the search in `first_empty_block`.
unfoldable pub search_bound : ℕ → ℕ
search_bound fat_size =
    let n = (if fat_size == 65536 then fat_size / 2 else 65535) in
    if leb (2 ^ 16) n then end_of_file else n

unfoldable pub first_empty_loop : (rounds i : ℕ) → Cmd ℕ
first_empty_loop zero i = pure 0
first_empty_loop (suc rounds) i = do
  v ← fat_read i
  if v == 0 then pure i else first_empty_loop rounds (i + 1)

unfoldable pub first_empty_block : Cmd ℕ
first_empty_block = do k ← get; first_empty_loop (search_bound k.fat_size - 1) 1

-- The subtraction is of `size_t`, and wraps to a 32-bit result if there is no FAT.
unfoldable pub get_blocks_in_data_region : Kernel → ℕ
get_blocks_in_data_region k = (k.fat_size / 2 + 2 ^ 32 - 1) % 2 ^ 32

unfoldable pub get_byte_offset_of_block : Kernel → ℕ → ℕ
get_byte_offset_of_block k block_num = (k.fat_size + (block_num - 1) * k.block_size) % 2 ^ 32

-- The status, and the new value of `*next_block_num`, which a failure leaves as it was.
pub record Next : Type 0 where
  pub status : ℕ
  pub block : ℕ

unfoldable pub next_block_num : (block_num old : ℕ) → Cmd Next
next_block_num block_num old = do
  k ← get
  if ltb block_num 1
      then pure (record { status = 1; block = old })
      else if ltb (get_blocks_in_data_region k) block_num
      then pure (record { status = 2; block = old })
      else do v ← fat_read block_num; pure (record { status = 0; block = v })
