-- ===== src/Fat/Config.antt =====
-- src/pennfat/fat_utils.c and the sizes that src/pennfat/mkfs.c computes: the first FAT entry, which
-- holds the number of FAT blocks in its high byte and the block size's code in its low byte.
pub mod RoundTrip
use pennos.Base.{
  ℕ, ◌+◌, ◌-◌, ◌*◌, ◌/◌, ◌%◌, ◌^◌, ◌≤◌, ◌<◌, ◌≡◌, refl, ◌≢◌, Bool, true, false, ◌||◌, ◌⊎◌, inl, inr,
  Option, none, some, arith, ltb, leb, ◌==◌, if◌then◌else◌, ℤ, pos, neg,
}

unfoldable pub block_size_of_config : ℕ → ℕ
block_size_of_config c =
    if c == 0
    then 256
    else if c == 1
    then 512
    else if c == 2
    then 1024
    else if c == 3
    then 2048
    else if c == 4
    then 4096
    else 0

-- What `parse_first_fat_entry` stores and returns. The test of the source compares the pointer
-- `block_size_ptr` with 0, never the size it points to; `ptr` is that pointer.
pub record Parsed : Type 0 where
  pub status : ℤ
  pub block_size : ℕ
  pub blocks_in_fat : ℕ

unfoldable pub parse_first_fat_entry : (ptr first_entry : ℕ) → Parsed
parse_first_fat_entry ptr first_entry = record {
  status = if ptr == 0 then neg 1 else pos 0;
  block_size = block_size_of_config (first_entry % 2 ^ 8);
  blocks_in_fat = first_entry / 2 ^ 8;
}

-- The refusals of `mkfs` before it touches the host, and what it then writes: the sizes of the FAT
-- and of the data region in blocks, and the first FAT entry.
pub data Mkfs : Type 0 where
  bad_blocks_in_fat_val bad_block_size_config_val mkfs_unknown_error : Mkfs
  makes : (fat_size blocks_in_data_region first_entry : ℕ) → Mkfs

unfoldable pub mkfs : (blocks_in_fat block_size_config : ℕ) → Mkfs
mkfs n c =
    if ltb n 1 || ltb 32 n
    then bad_blocks_in_fat_val
    else let block_size = block_size_of_config c in
      if block_size == 0
      then bad_block_size_config_val
      else let fat_size = block_size * n in
        let data_blocks = (if c == 4 then fat_size / 2 - 2 else fat_size / 2 - 1) in
        if leb (2 ^ 16) data_blocks
        then mkfs_unknown_error
        else makes fat_size data_blocks (n * 2 ^ 8 + c)
