-- ===== src/Fat/Mount/Lifecycle.antt =====
-- src/pennfat/fat.c and mkfs.c: mounting a file that `mkfs` made.
use pennos.Base.{ℕ, ◌/◌, ◌≤◌, ◌<◌, ◌≡◌, refl, true, false, some, arith, is_neg, ◌^◌}
use pennos.Fat.State.{Kernel, ok}
use pennos.Base.Returns.{Returns, returns}
use pennos.Fat.Config.{parse_first_fat_entry, block_size_of_config, makes, mkfs}
use pennos.Fat.Config.RoundTrip.{mkfs-parse}
use pennos.Fat.Mount.{HostFile, mounted, mount, local_ptr}

-- Mounting a file that `mkfs` made, on a host that does not fail, returns 0. The geometry is the one
-- that was asked for, the three standard descriptors are open, and all others are as before.
pub mkfs-mount :
    (k : Kernel) (f : HostFile) (n c fat_size data_blocks entry : ℕ)
    → mkfs n c ≡ makes fat_size data_blocks entry
    → c < 2 ^ 8
    → k.is_mounted ≡ false
    → f.opens ≡ true
    → f.first_entry ≡ some entry
    → f.maps ≡ true
    → f.allocates ≡ true
    → Returns
        (λ r g.
          (r ≡ 0)
          × (g.is_mounted ≡ true)
          × (g.block_size ≡ block_size_of_config c)
          × (g.blocks_in_fat ≡ n)
          × (g.fat_size ≡ fat_size)
          × (data_blocks < g.fat_size / 2)
          × ((i : ℕ) → i < 3 → (g.table i).ref_count ≡ 1)
          × ((i : ℕ) → 3 ≤ i → g.table i ≡ k.table i))
        (mount f k)
unfolding mount mounted
mkfs-mount k f n c fat_size data_blocks entry made small not_yet opens first maps allocates =
    let (status, blocks, size, product, _, _, inside) =
      mkfs-parse local_ptr n c fat_size data_blocks entry (λ e. ground arith) small made in
    let accepted : is_neg (parse_first_fat_entry local_ptr entry).status ≡ false = rw status refl in
    let run : mount f k ≡ ok 0 (mounted f entry k) =
      ground (arith, not_yet, opens, first, maps, allocates, accepted) in
    rw run (
      returns (
        refl,
        refl,
        size,
        blocks,
        product,
        rw product inside,
        λ i h. ground arith,
        λ i h. ground arith,
      ))
