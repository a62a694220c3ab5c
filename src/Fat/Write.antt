-- ===== src/Fat/Write.antt =====
-- src/pennfat/fat.c: `k_write`. `str` holds `n` bytes at least. By a negative
-- count nothing is copied, but the size of the file becomes the offset.
pub mod Refused
pub mod InBlock
pub mod Finish
pub mod Overwrite
pub mod ReadBack
use pennos.Base.{
  ℕ, zero, suc, ◌+◌, ◌-◌, ◌*◌, ◌/◌, ◌%◌, ◌^◌, Bool, true, false, List, [], ◌++◌, Option, none, some,
  ltb, leb, ◌==◌, eq_ℤ, as_size, to_copy, if◌then◌else◌, ℤ, pos, negsuc, neg, not, length, take,
  drop, min, replicate, ◌&&◌,
}
use pennos.Fat.State.{
  DirEntry, FdEntry, Kernel, Cmd, fault, diverge, pure, ◌>>=◌, ◌>>◌, get, deref, set_fd, set_buf,
  fat_write, global_fd_table_size, end_of_file, f_append,
}
use pennos.Fat.FdTable.{is_special_fd}
use pennos.Fat.Chain.{next_block_num, first_empty_block}
use pennos.Fat.Disk.{get_block, write_block}
use pennos.Fat.Dir.{write_root_dir_entry}
use pennos.Fat.Open.{set_entry}

-- The call stops with a return value, or goes on at a block with a count of blocks passed.
pub data Walk : Type 0 where
  stop : ℤ → Walk
  at : (block n_blocks_deep : ℕ) → Walk

-- The bytes of the last block behind the file's end become 0. `memset` is given a `size_t`, so a
-- count below 0 would run out of the buffer.
unfoldable pub zero_tail : (block deep file_size : ℕ) → Cmd Walk
zero_tail block deep file_size = do
  k ← get
  let n = (file_size + 2 ^ 32 - (deep - 1) * k.block_size) % 2 ^ 32 % 2 ^ 16
  s ← get_block block
  if not (s == 0) then pure (stop (neg 48)) else if ltb k.block_size n then (λ _. fault) else (do
    l ← get
    let bytes = take n l.block_buf ++ replicate (k.block_size - n) 0
    set_buf bytes
    w ← write_block block bytes
    pure (if w == 0 then at block deep else stop (neg 50)))

-- The first loop: along the file's own blocks, for `rounds` blocks at most.
unfoldable pub walk_blocks : (rounds block deep file_size : ℕ) → Cmd Walk
walk_blocks zero block deep file_size = pure (at block deep)
walk_blocks (suc rounds) block deep file_size = do
  next ← next_block_num block 0
  if not (next.status == 0)
      then pure (stop (neg 49))
      else if next.block == end_of_file
      then zero_tail block (deep + 1) file_size
      else walk_blocks rounds next.block (deep + 1) file_size

-- The second loop: a new block of zeros for each block that is missing up to the offset.
unfoldable pub grow_blocks : (rounds block deep : ℕ) → Cmd Walk
grow_blocks zero block deep = pure (at block deep)
grow_blocks (suc rounds) prev_block deep = do
  block ← first_empty_block
  if block == 0 then (do fat_write prev_block end_of_file; pure (stop (pos 0))) else (do
    fat_write prev_block block
    k ← get
    let zeros = replicate k.block_size 0
    set_buf zeros
    w ← write_block block zeros
    if w == 0 then grow_blocks rounds block (deep + 1) else pure (stop (neg 50)))

-- How the copying loop ends: with an error, or after `n_copied` bytes at a block.
pub data Copy : Type 0 where
  copy_failed : ℤ → Copy
  copied : (block n_copied : ℕ) → Copy

-- The block to go on with: the file's next one, or a new one behind its last.
pub data Following : Type 0 where
  link_failed disk_full : Following
  go_on : ℕ → Following

unfoldable pub following_block : (curr_block_idx max_block_idx block : ℕ) → Cmd Following
following_block curr_block_idx max_block_idx block =
    if ltb (curr_block_idx + 1) max_block_idx
    then (do
      next ← next_block_num block 0
      pure (if next.status == 0 then go_on next.block else link_failed))
    else (do
      fat_write block end_of_file
      next ← first_empty_block
      pure (if next == 0 then disk_full else go_on next))

-- The buffer that a round writes into: the block's bytes, or zeros for a block behind the file.
unfoldable pub load_for_write : (curr_block_idx max_block_idx block : ℕ) → Cmd Bool
load_for_write curr_block_idx max_block_idx block = do
  k ← get
  if ltb max_block_idx curr_block_idx
      then (do set_buf (replicate k.block_size 0); pure true)
      else (do s ← get_block block; pure (s == 0))

unfoldable pub overwrite : (bytes : List ℕ) (offset : ℕ) (new : List ℕ) → List ℕ
overwrite bytes offset new = take offset bytes ++ (new ++ drop (offset + length new) bytes)

-- The copying loop. Every round copies a byte at least, so `n` rounds are enough.
unfoldable pub write_loop :
    (fuel : ℕ) (str : List ℕ) (n offset file_size n_copied block offset_in_block : ℕ) → Cmd Copy
write_loop zero str n offset file_size n_copied block offset_in_block = λ _. diverge
write_loop (suc fuel) str n offset file_size n_copied block offset_in_block =
    if leb n n_copied then pure (copied block n_copied) else (do
      k ← get
      let curr_block_idx = (offset + n_copied) % 2 ^ 32 / k.block_size % 2 ^ 16
      let max_block_idx = (file_size + k.block_size - 1) % 2 ^ 32 / k.block_size % 2 ^ 16
      loaded ← load_for_write curr_block_idx max_block_idx block
      if not loaded then pure (copy_failed (neg 48)) else (do
        l ← get
        let n_to_copy = min (n - n_copied) (k.block_size - offset_in_block)
        let bytes = overwrite l.block_buf offset_in_block (take n_to_copy (drop n_copied str))
        set_buf bytes
        w ← write_block block bytes
        if not (w == 0)
            then pure (copy_failed (neg 50))
            else if leb n (n_copied + n_to_copy)
            then pure (copied block (n_copied + n_to_copy))
            else (do
              next ← following_block curr_block_idx max_block_idx block
              elim next [
                | link_failed ↦ pure (copy_failed (neg 49))
                | disk_full ↦ pure (copied block (n_copied + n_to_copy))
                | go_on next_block ↦ do
                  fat_write block next_block
                  write_loop fuel str n offset file_size (n_copied + n_to_copy) next_block 0
              ])))

-- After the copying: the end of the chain, the descriptor's offset and the directory entry.
unfoldable pub finish_write : (fd offset block n_copied : ℕ) → Cmd ℤ
finish_write fd offset block n_copied = do
  fat_write block end_of_file
  k ← get
  let g = record (k.table fd) { offset = (offset + n_copied) % 2 ^ 32 }
  set_fd fd g
  elim k.host.time [
    | none ↦ pure (neg 53)
    | some mtime ↦ do
      e ← deref g.ptr_to_dir_entry
      let e' = record e { mtime = mtime; size = (offset + n_copied) % 2 ^ 32 }
      set_fd fd (set_entry g e')
      s ← write_root_dir_entry e' g.dir_entry_block_num g.dir_entry_idx
      pure (if s == 0 then pos n_copied else neg 51)
  ]

-- From the file's first block on.
unfoldable pub write_from : (fd block : ℕ) (str : List ℕ) (n offset file_size : ℕ) → Cmd ℤ
write_from fd block str n offset file_size = do
  k ← get
  if k.block_size == 0 then (λ _. fault) else (do
    let target = (offset + k.block_size) % 2 ^ 32 / k.block_size % 2 ^ 16
    walked ← walk_blocks target block 0 file_size
    elim walked [
      | stop s ↦ pure s
      | at last deep ↦ do
        grown ← grow_blocks (target - deep) last deep
        elim grown [
          | stop s ↦ pure s
          | at start _ ↦ do
            c ← write_loop (n + 1) str n offset file_size 0 start (offset % k.block_size)
            elim c [
              | copy_failed s ↦ pure s
              | copied end n_copied ↦ finish_write fd offset end n_copied
            ]
        ]
    ])

-- A file without blocks is given one; 0 bytes are written if there is none.
unfoldable pub write_entry : (fd : ℕ) → DirEntry → FdEntry → List ℕ → ℕ → Cmd ℤ
write_entry fd e g str n =
    let offset = (if g.write_locked == f_append then e.size else g.offset) in
    if not (e.first_block == 0) then write_from fd e.first_block str n offset e.size else (do
      new_block ← first_empty_block
      if new_block == 0 then pure (pos 0) else (do
        fat_write new_block end_of_file
        set_fd fd (set_entry g (record e { first_block = new_block }))
        write_from fd new_block str n offset e.size))

-- The permission test of the source: 2, or 5 and more (P_READ_WRITE_AND_EXECUTABLE_FILE_PERMISSION
-- is 5 in fat.h).
unfoldable pub may_write : ℕ → Bool
may_write perm = not (not (perm == 2) && ltb perm 5)

unfoldable pub k_write : (fd : ℤ) → List ℕ → (n : ℤ) → Cmd ℤ
k_write (negsuc _) str n = do k ← get; pure (if k.is_mounted then neg 47 else pos 99)
k_write (pos fd) str n = do
  k ← get
  if is_special_fd fd
      then elim (k.host.std_write fd (as_size n)) [
        | none ↦ pure (neg 54)
        | some written ↦ pure (pos written)
      ]
      else if not k.is_mounted
      then pure (pos 99)
      else if leb global_fd_table_size fd
      then pure (neg 47)
      else if (k.table fd).ref_count == 0
      then pure (neg 46)
      else (do
        e ← deref (k.table fd).ptr_to_dir_entry
        if not (may_write e.perm)
            then pure (neg 45)
            else if eq_ℤ n (pos 0)
            then pure (pos 0)
            else write_entry fd e (k.table fd) str (to_copy n))
