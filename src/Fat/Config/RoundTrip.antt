-- ===== src/Fat/Config/RoundTrip.antt =====
-- src/pennfat/mkfs.c and src/pennfat/fat_utils.c: `mkfs` and `parse_first_fat_entry` together.
use pennos.Base.{ℕ, ◌*◌, ◌/◌, ◌%◌, ◌^◌, ◌<◌, ◌≡◌, ◌≢◌, arith, pos}
use pennos.Fat.Config.{block_size_of_config, parse_first_fat_entry, mkfs_unknown_error, makes, mkfs}

-- If `mkfs` accepts a number of FAT blocks and a block size code, then parsing the first entry that
-- it writes succeeds and gives the number and the block size back, the FAT has that many blocks, and
-- the numbers of the data region's blocks are below 2^16 and inside the FAT.
pub mkfs-parse :
    (ptr n c fat_size data_blocks entry : ℕ)
    → ptr ≢ 0
    → c < 2 ^ 8
    → mkfs n c ≡ makes fat_size data_blocks entry
    → let p = parse_first_fat_entry ptr entry in
      (p.status ≡ pos 0)
      × (p.blocks_in_fat ≡ n)
      × (p.block_size ≡ block_size_of_config c)
      × (p.blocks_in_fat * p.block_size ≡ fat_size)
      × (entry < 2 ^ 16)
      × (data_blocks < 2 ^ 16)
      × (data_blocks < fat_size / 2)
unfolding mkfs parse_first_fat_entry block_size_of_config
mkfs-parse ptr n c f d e ne small h = ground arith

-- The sizes that `mkfs` accepts never reach its last refusal, MKFS_UNKNOWN_ERROR.
pub mkfs-ne-unknown_error : (n c : ℕ) → mkfs n c ≢ mkfs_unknown_error
unfolding mkfs block_size_of_config
mkfs-ne-unknown_error n c h = ground arith

-- `parse_first_fat_entry` refuses no entry: also for a block size code above 4 it reports success,
-- with block size 0.
pub parse_first_fat_entry-unknown_code :
    (ptr entry : ℕ)
    → ptr ≢ 0
    → 4 < entry % 2 ^ 8
    → (let p = parse_first_fat_entry ptr entry in (p.status ≡ pos 0) × (p.block_size ≡ 0))
unfolding parse_first_fat_entry block_size_of_config
parse_first_fat_entry-unknown_code ptr entry ne h = ground arith
