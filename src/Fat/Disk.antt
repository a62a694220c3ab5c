-- ===== src/Fat/Disk.antt =====
-- src/pennfat/fat.c: blocks of the data region and the 64-byte directory entries in them.
pub mod RoundTrip
pub mod Whole
use pennos.Base.{
  update, ℕ, zero, suc, ◌+◌, ◌-◌, ◌*◌, ◌/◌, ◌%◌, ◌^◌, List, [], ◌∷◌, ◌++◌, none, some, ltb, ◌==◌,
  if◌then◌else◌, take, drop, get_or, min, not,
}
use pennos.Fat.State.{DirEntry, Kernel, Cmd, pure, ◌>>=◌, ◌>>◌, get, put, set_buf, dir_entry_size}
use pennos.Fat.Chain.{get_blocks_in_data_region, get_byte_offset_of_block}

-- The status codes are those of EGET_BLOCK_* and EWRITE_BLOCK_*. A short read has replaced the
-- bytes that arrived.
unfoldable pub get_block : ℕ → Cmd ℕ
get_block block_num = do
  k ← get
  let offset = get_byte_offset_of_block k block_num
  if ltb block_num 1
      then pure 1
      else if ltb (get_blocks_in_data_region k) block_num
      then pure 2
      else if not (k.host.lseek offset)
      then pure 4
      else elim (k.host.read offset) [
        | none ↦ pure 5
        | some n ↦ do
          let bytes_read = min n k.block_size
          set_buf (take bytes_read (k.blocks block_num) ++ drop bytes_read k.block_buf)
          pure (if ltb bytes_read k.block_size then 6 else 0)
      ]

unfoldable pub write_block : ℕ → List ℕ → Cmd ℕ
write_block block_num bytes = do
  k ← get
  let offset = get_byte_offset_of_block k block_num
  if ltb block_num 1
      then pure 1
      else if ltb (get_blocks_in_data_region k) block_num
      then pure 2
      else if not (k.host.lseek offset)
      then pure 4
      else elim (k.host.write offset) [
        | none ↦ pure 5
        | some n ↦ do
          let written = min n k.block_size
          let old = k.blocks block_num
          put (record k {
            blocks = update k.blocks block_num (take written bytes ++ drop written old);
          })
          pure (if ltb written k.block_size then 6 else 0)
      ]

-- Little-endian numbers of `n` bytes.
unfoldable pub to_bytes : ℕ → ℕ → List ℕ
to_bytes zero v = []
to_bytes (suc n) v = (v % 256) ∷ to_bytes n (v / 256)

unfoldable pub of_bytes : List ℕ → ℕ
of_bytes [] = 0
of_bytes (b ∷ bs) = b + 256 * of_bytes bs

-- The memory layout of `directory_entry`, which the language fixes and the source reads and writes
-- through a cast: name 32, size 4, first_block 2, type 1, perm 1, mtime 8, padding 16, the numbers in
-- little-endian order.
unfoldable pub encode : DirEntry → List ℕ
encode e =
    e.name
    ++ (to_bytes 4 e.size
        ++ (to_bytes 2 e.first_block
            ++ (to_bytes 1 e.type ++ (to_bytes 1 e.perm ++ (to_bytes 8 e.mtime ++ e.padding)))))

unfoldable pub decode : List ℕ → DirEntry
decode b = record {
  name = take 32 b;
  size = of_bytes (take 4 (drop 32 b));
  first_block = of_bytes (take 2 (drop 4 (drop 32 b)));
  type = of_bytes (take 1 (drop 2 (drop 4 (drop 32 b))));
  perm = of_bytes (take 1 (drop 1 (drop 2 (drop 4 (drop 32 b)))));
  mtime = of_bytes (take 8 (drop 1 (drop 1 (drop 2 (drop 4 (drop 32 b))))));
  padding = drop 8 (drop 1 (drop 1 (drop 2 (drop 4 (drop 32 b)))));
}

-- `((directory_entry *) buf)[i]`, and a write to it.
unfoldable pub entry_at : List ℕ → ℕ → DirEntry
entry_at buf i = decode (take dir_entry_size (drop (dir_entry_size * i) buf))

unfoldable pub set_entry_at : List ℕ → ℕ → DirEntry → List ℕ
set_entry_at buf i e =
    take (dir_entry_size * i) buf
    ++ (encode e ++ drop dir_entry_size (drop (dir_entry_size * i) buf))

-- `name[0]`, as the byte; `char` is signed, so a byte of 128 or more is negative.
unfoldable pub name0 : DirEntry → ℕ
name0 e = get_or e.name 0 0
