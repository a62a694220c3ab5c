-- ===== src/Fat/Edit/Unlink.antt =====
-- src/pennfat/fat.c: `k_unlink` of a file that no descriptor has open.
use pennos.Base.{
  ℕ, ◌+◌, ◌*◌, ◌≤◌, ◌<◌, ◌≡◌, ◌≢◌, refl, ap, sym, ◌∙◌, true, false, List, none, arith, ◌==◌,
  if◌then◌else◌, pos, length, length-drop, has,
}
use pennos.Base.Returns
use pennos.Base.Returns.{Returns, returns}
use pennos.Fat.State.{DirEntry, Kernel, ok, n_entries, dir_entry_size}
use pennos.Fat.Chain.{chain_fuel}
use pennos.Fat.Chain.Clear.{Chain, clear_fat_file-Cleared}
use pennos.Fat.Names.{is_valid_filename}
use pennos.Fat.Disk.Whole.{Whole, Whole-same}
use pennos.Fat.Disk.RoundTrip.{Fits}
use pennos.Fat.Dir.{file_found, find_file_in_root_dir}
use pennos.Fat.Dir.Find.{find_file_in_root_dir-Buffered}
use pennos.Fat.Dir.Store.{Stored, write_root_dir_entry-Stored}
use pennos.Fat.FdTable.{find_file_in_global_fd_table}
use pennos.Fat.Open.{set_name0}
use pennos.Fat.Edit.{k_unlink, unlink_closed, unlink_status}

set_name0-Fits : (e : DirEntry) (c : ℕ) → Fits e → Fits (set_name0 e c)
unfolding set_name0
set_name0-Fits e c f = record {
  name = omega (arith, length-drop 1 e.name, f.name);
  size = f.size;
  first_block = f.first_block;
  type = f.type;
  perm = f.perm;
  mtime = f.mtime;
  padding = f.padding;
}

k_unlink-closed :
    (k w : Kernel) (fname : List ℕ) (e : DirEntry) (block idx : ℕ)
    → k.is_mounted ≡ true
    → is_valid_filename fname ≡ true
    → find_file_in_global_fd_table fname k ≡ ok none k
    → find_file_in_root_dir fname k ≡ ok (file_found e block idx) w
    → k_unlink fname k ≡ unlink_closed e block idx w
unfolding k_unlink
k_unlink-closed k w fname e block idx is_mounted valid not_open found =
    ground (arith, is_mounted, valid, not_open, found)

-- In terms of the state `w` that the search leaves.
k_unlink-frees_from :
    (k w : Kernel) (fname : List ℕ) (e : DirEntry) (block idx : ℕ) {xs : List ℕ}
    → k.is_mounted ≡ true
    → is_valid_filename fname ≡ true
    → find_file_in_global_fd_table fname k ≡ ok none k
    → find_file_in_root_dir fname k ≡ ok (file_found e block idx) w
    → e.first_block ≢ 0
    → Chain (n_entries w) w.fat e.first_block xs
    → length xs < chain_fuel
    → Whole w block
    → length w.block_buf ≡ w.block_size
    → Fits e
    → dir_entry_size * idx + dir_entry_size ≤ w.block_size
    → Returns
        (λ r g.
          (r ≡ pos 0)
          × ((i : ℕ) → g.fat i ≡ (if has i xs then 0 else w.fat i))
          × Stored (record w { fat = g.fat }) block idx (set_name0 e 1) g)
        (k_unlink fname k)
unfolding unlink_closed unlink_status
k_unlink-frees_from k w fname e block idx is_mounted valid not_open found has_block chain short
      whole full fits room =
    let some_block : (e.first_block == 0) ≡ false = ground arith in
    rw (k_unlink-closed k w fname e block idx is_mounted valid not_open found, some_block)
      (Returns.bind (clear_fat_file-Cleared w chain short) λ _ u (same, freed).
        let fat_only : Kernel = record w { fat = u.fat } in
        rw same (
          Returns.bind
            (write_root_dir_entry-Stored fat_only block idx (set_name0 e 1)
              (Whole-same w fat_only block whole refl refl refl whole.filled) full
              (set_name0-Fits e 1 fits) room)
            λ s g (none_failed, st).
              let fat : g.fat ≡ u.fat = ap (λ x. x.fat) st.rest in
              rw none_failed (
                returns (
                  refl,
                  λ i. rw fat (freed i),
                  record {
                    is_there = st.is_there;
                    entries = st.entries;
                    blocks = st.blocks;
                    full = st.full;
                    rest =
                        st.rest
                        ∙ ap (λ f. record w { fat = f; blocks = g.blocks; block_buf = g.block_buf })
                            (sym fat);
                  },
                ))))

-- `k_unlink` of a file that the directory has and no descriptor has open returns 0, frees exactly the
-- blocks of the file's chain, and marks its entry as deleted; the other entries, blocks and FAT
-- entries stay, and so does all else but the block buffer. The file has a block, its chain is well
-- formed and of at most 65536 blocks, and the host reads and writes the entry's block whole.
-- The file system must be mounted, the name valid, and the fields of the entry fit their widths. The
-- search finds the entry, and leaves a whole block in the buffer.
pub k_unlink-frees :
    (k w : Kernel) (fname : List ℕ) (e : DirEntry) (block idx : ℕ) {xs : List ℕ}
    → k.is_mounted ≡ true
    → is_valid_filename fname ≡ true
    → find_file_in_global_fd_table fname k ≡ ok none k
    → find_file_in_root_dir fname k ≡ ok (file_found e block idx) w
    → e.first_block ≢ 0
    → Chain (n_entries k) k.fat e.first_block xs
    → length xs < chain_fuel
    → Whole k block
    → length w.block_buf ≡ k.block_size
    → Fits e
    → dir_entry_size * idx + dir_entry_size ≤ k.block_size
    → Returns
        (λ r g.
          (r ≡ pos 0)
          × ((i : ℕ) → g.fat i ≡ (if has i xs then 0 else k.fat i))
          × Stored (record k { fat = g.fat }) block idx (set_name0 e 1) g)
        (k_unlink fname k)
k_unlink-frees k w fname e block idx is_mounted valid not_open found has_block chain short whole
      full fits room =
    let u : Kernel = record k { block_buf = w.block_buf } in
    let is_u : w ≡ u = find_file_in_root_dir-Buffered fname (file_found e block idx) k w found in
    Returns.mono
      (k_unlink-frees_from k u fname e block idx is_mounted valid not_open
        (found ∙ ap (λ x. ok (file_found e block idx) x) is_u) has_block chain short
        (Whole-same k u block whole refl refl refl whole.filled) full fits room)
      λ r g (zero, freed, st). (
        zero,
        freed,
        record {
          is_there = st.is_there;
          entries = st.entries;
          blocks = st.blocks;
          full = st.full;
          rest = st.rest;
        },
      )
