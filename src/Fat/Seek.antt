-- ===== src/Fat/Seek.antt =====
-- src/pennfat/fat.c: `k_lseek`, in the arithmetic of C: an `int` that meets a `uint32_t` is taken
-- modulo 2^32.
pub mod Outcome
use pennos.Base.{
  ℕ, suc, ◌+◌, ◌-◌, ◌%◌, ◌^◌, Bool, true, false, ◌&&◌, ◌||◌, Option, none, some, ltb, leb, ◌==◌,
  if◌then◌else◌, ℤ, pos, negsuc, neg, is_neg, not,
}
use pennos.Fat.State.{
  DirEntry, FdEntry, Cmd, pure, ◌>>=◌, ◌>>◌, get, deref, set_fd, global_fd_table_size,
}
use pennos.Fat.FdTable.{is_special_fd}

-- `(uint32_t) offset` and `(uint32_t) -offset`.
unfoldable pub as_u32 : ℤ → ℕ
as_u32 (pos n) = n % 2 ^ 32
as_u32 (negsuc n) = 2 ^ 32 - 1 - n % 2 ^ 32

unfoldable pub minus_as_u32 : ℤ → ℕ
minus_as_u32 (pos n) = (2 ^ 32 - n % 2 ^ 32) % 2 ^ 32
minus_as_u32 (negsuc n) = suc n % 2 ^ 32

-- The new offset from the base (0, the current offset or the file's size), or the error.
unfoldable pub seek_from : (base : ℕ) → ℤ → ℤ
seek_from base offset =
    if is_neg offset && ltb base (minus_as_u32 offset)
    then neg 39
    else if ltb (2 ^ 32 - 1 - base) (as_u32 offset)
    then neg 40
    else pos ((base + as_u32 offset) % 2 ^ 32)

unfoldable pub seek_target : (whence curr_offset size : ℕ) → ℤ → ℤ
seek_target whence curr_offset size offset =
    if whence == 1
    then (if is_neg offset then neg 39 else pos (as_u32 offset))
    else if whence == 2
    then seek_from curr_offset offset
    else seek_from size offset

unfoldable pub store_offset : ℕ → FdEntry → ℤ → Cmd ℤ
store_offset fd g (negsuc e) = pure (negsuc e)
store_offset fd g (pos n) = do set_fd fd (record g { offset = n }); pure (pos n)

unfoldable pub k_lseek : (fd offset : ℤ) (whence : ℕ) → Cmd ℤ
k_lseek fd offset whence = do
  k ← get
  if not k.is_mounted then pure (pos 99) else elim fd [
    | negsuc _ ↦ pure (neg 41)
    | pos i ↦
        if leb global_fd_table_size i
        then pure (neg 41)
        else if is_special_fd i
        then pure (neg 44)
        else if (k.table i).ref_count == 0
        then pure (neg 42)
        else if not (whence == 1 || whence == 2 || whence == 3)
        then pure (neg 38)
        else (do
          e ← deref (k.table i).ptr_to_dir_entry
          if ltb e.perm 4
              then pure (neg 43)
              else store_offset i (k.table i) (seek_target whence (k.table i).offset e.size offset))
  ]
