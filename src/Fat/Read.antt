-- ===== src/Fat/Read.antt =====
-- src/pennfat/fat.c: `k_read`.
pub mod InBlock
use pennos.Base.{
  ℕ, zero, suc, ◌+◌, ◌-◌, ◌/◌, ◌%◌, ◌^◌, Bool, true, false, List, [], ◌++◌, Option, none, some, ltb,
  leb, ◌==◌, eq_ℤ, as_size, to_copy, if◌then◌else◌, ℤ, pos, negsuc, neg, not, length, take, drop,
  min,
}
use pennos.Fat.State.{
  DirEntry, FdEntry, Kernel, Cmd, fault, diverge, pure, ◌>>=◌, ◌>>◌, get, deref, set_fd,
  global_fd_table_size, end_of_file,
}
use pennos.Fat.FdTable.{is_special_fd}
use pennos.Fat.Chain.{next_block_num}
use pennos.Fat.Disk.{get_block}

-- The return value, and the bytes that were copied into the caller's buffer.
pub record Reading : Type 0 where
  pub status : ℤ
  pub bytes : List ℕ

abbrev pub no_bytes : ℤ → Reading
no_bytes s = record { status = s; bytes = [] }

-- `n` links from a block on; `none` if a link cannot be followed.
unfoldable pub skip_blocks : (n block : ℕ) → Cmd (Option ℕ)
skip_blocks zero block = pure (some block)
skip_blocks (suc n) block = do
  next ← next_block_num block block
  if next.status == 0 then skip_blocks n next.block else pure none

-- The copying loop for `left` more bytes. Every round copies a byte at least, so `left` rounds are
-- enough. The status of `get_block` and of `next_block_num` is not looked at.
unfoldable pub read_loop :
    (fuel left block offset_in_block n_copied : ℕ) → List ℕ → Cmd (ℕ × List ℕ)
read_loop zero left block offset_in_block n_copied out = λ _. diverge
read_loop (suc fuel) left block offset_in_block n_copied out =
    if left == 0
    then pure (n_copied, out)
    else if block == end_of_file
    then pure (n_copied, out)
    else (do
      _ ← get_block block
      k ← get
      let n_to_copy = min left (k.block_size - offset_in_block)
      let copied = take n_to_copy (drop offset_in_block k.block_buf)
      next ← next_block_num block block
      read_loop fuel (left - n_to_copy) next.block 0 (n_copied + n_to_copy) (out ++ copied))

-- The bytes that can be read: a difference that is negative as an `int` gives none, as a negative
-- count does.
unfoldable pub readable : (n file_size offset : ℕ) → ℕ
readable n file_size offset =
    if leb (2 ^ 31) (file_size - offset) then 0 else min n (file_size - offset)

-- From a position inside the file on.
unfoldable pub read_at : ℕ → DirEntry → FdEntry → ℕ → Cmd Reading
read_at fd e g n = do
  k ← get
  if k.block_size == 0 then (λ _. fault) else (do
    start ← skip_blocks (g.offset / k.block_size % 2 ^ 16) e.first_block
    elim start [
      | none ↦ pure (no_bytes (neg 35))
      | some block ↦ do
        let left = readable n e.size g.offset
        (n_copied, bytes) ← read_loop (left + 1) left block (g.offset % k.block_size) 0 []
        set_fd fd (record g { offset = (g.offset + n_copied) % 2 ^ 32 })
        pure (record { status = pos n_copied; bytes = bytes })
    ])

unfoldable pub read_entry : ℕ → FdEntry → (n : ℤ) → Cmd Reading
read_entry fd g n = if g.ref_count == 0 then pure (no_bytes (neg 34)) else (do
  e ← deref g.ptr_to_dir_entry
  if ltb e.perm 4
      then pure (no_bytes (neg 36))
      else if leb e.size g.offset
      then pure (no_bytes (pos 0))
      else if eq_ℤ n (pos 0)
      then pure (no_bytes (pos 0))
      else read_at fd e g (to_copy n))

unfoldable pub k_read : (fd n : ℤ) → Cmd Reading
k_read (negsuc _) n = do k ← get; pure (no_bytes (if k.is_mounted then neg 33 else pos 99))
k_read (pos fd) n = do
  k ← get
  if is_special_fd fd
      then elim (k.host.std_read fd (as_size n)) [
        | none ↦ pure (no_bytes (neg 37))
        | some bytes ↦ pure (record { status = pos (length bytes); bytes = bytes })
      ]
      else if not k.is_mounted
      then pure (no_bytes (pos 99))
      else if leb global_fd_table_size fd
      then pure (no_bytes (neg 33))
      else read_entry fd (k.table fd) n
