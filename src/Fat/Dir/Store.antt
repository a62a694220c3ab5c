-- ===== src/Fat/Dir/Store.antt =====
-- src/pennfat/fat.c: what `write_root_dir_entry` leaves on disk.
use pennos.Base.{
  ℕ, ◌+◌, ◌*◌, ◌≤◌, ◌≡◌, ◌≢◌, refl, sym, ◌∙◌, List, ◌++◌, arith, length, take, drop, length-append,
  length-take, length-drop,
}
use pennos.Fat.State.{DirEntry, Kernel, set_buf, dir_entry_size}
use pennos.Base.Returns.{Returns, returns}
use pennos.Fat.Disk.{encode, entry_at, set_entry_at}
use pennos.Fat.Disk.Whole.{Whole, Whole-same, get_block-whole, write_block-whole}
use pennos.Fat.Disk.RoundTrip.{
  Fits, length-encode, entry_at-set_entry_at_self, entry_at-set_entry_at_ne,
}
use pennos.Fat.Dir.{write_root_dir_entry}

length-set_entry_at :
    (buf : List ℕ) (i : ℕ) (e : DirEntry)
    → Fits e
    → dir_entry_size * i + dir_entry_size ≤ length buf
    → length (set_entry_at buf i e) ≡ length buf
unfolding set_entry_at
length-set_entry_at buf i e fits inside =
    let l = dir_entry_size * i in
    omega (
      arith,
      length-append (take l buf) (encode e ++ drop dir_entry_size (drop l buf)),
      length-append (encode e) (drop dir_entry_size (drop l buf)),
      length-encode e fits,
      length-take l buf,
      length-drop l buf,
      length-drop dir_entry_size (drop l buf),
    )

-- Entry `idx` of block `block` is `e`, the block's other entries and all other blocks are as before,
-- the buffer holds a whole block, and nothing else has changed.
pub record Stored (k : Kernel) (block idx : ℕ) (e : DirEntry) (g : Kernel) : Type 0 where
  pub is_there : entry_at (g.blocks block) idx ≡ e
  pub entries : (j : ℕ) → j ≢ idx → entry_at (g.blocks block) j ≡ entry_at (k.blocks block) j
  pub blocks : (b : ℕ) → b ≢ block → g.blocks b ≡ k.blocks b
  pub full : length g.block_buf ≡ k.block_size
  pub rest : g ≡ record k { blocks = g.blocks; block_buf = g.block_buf }

-- `write_root_dir_entry` for a block that the host reads and writes whole, and an index inside it,
-- returns 0 and stores the entry there; the block's other entries, all other blocks and the rest of
-- the state but the block buffer stay. The entry's fields must fit their widths.
pub write_root_dir_entry-Stored :
    (k : Kernel) (block idx : ℕ) (e : DirEntry)
    → Whole k block
    → length k.block_buf ≡ k.block_size
    → Fits e
    → dir_entry_size * idx + dir_entry_size ≤ k.block_size
    → Returns (λ s g. (s ≡ 0) × Stored k block idx e g) (write_root_dir_entry e block idx k)
unfolding write_root_dir_entry set_buf
write_root_dir_entry-Stored k block idx e w full fits inside =
    let new = set_entry_at (k.blocks block) idx e in
    let u : Kernel = record k { block_buf = new } in
    let w' : Whole u block = Whole-same k u block w refl refl refl w.filled in
    let room : dir_entry_size * idx + dir_entry_size ≤ length (k.blocks block) =
      omega (arith, w.filled) in
    let size : length new ≡ k.block_size =
      length-set_entry_at (k.blocks block) idx e fits room ∙ w.filled in
    rw (get_block-whole k block w full, write_block-whole u block w' new size)
      (returns (
        refl,
        record {
          is_there =
              ground (arith, entry_at-set_entry_at_self (k.blocks block) idx e fits (omega arith));
          entries = λ j ne. ground (
            arith,
            entry_at-set_entry_at_ne (k.blocks block) idx j e fits (omega arith) (λ s. ne (sym s)),
          );
          blocks = λ b ne. ground arith;
          full = size;
          rest = refl;
        },
      ))
