-- ===== src/Calls/Read.antt =====
-- src/scheduler/fat_syscalls.c: `s_read` inside the only block of a file.
use pennos.Base.{
  ℕ, ◌+◌, ◌-◌, ◌%◌, ◌^◌, ◌≤◌, ◌<◌, ◌≡◌, refl, sym, ◌∙◌, ap, true, some, arith, ℤ, pos, min, take,
  drop,
}
use pennos.Base.Run.{Run, ok}
use pennos.Fat.State.{Kernel, DirEntry, global_fd_table_size}
use pennos.Fat.Seek.{as_u32, k_lseek}
use pennos.Fat.Seek.Outcome.{Seekable, moved, k_lseek-forward}
use pennos.Fat.Read.{Reading, k_read}
use pennos.Fat.Read.InBlock.{SmallRead, k_read-in_block}
use pennos.Sched.State.{process_fd_table_size, FdSlot, Scheduler}
use pennos.Calls.{System, with_slot, set_slot, as_int, check_terminal, advance, read_slot, s_read}
use pennos.Calls.Slots.{find_slot-some}
use pennos.Calls.Open.{with_kernel}

-- A seek from the file's start.
pub k_lseek-start :
    {k : Kernel} {fd : ℕ} {e : DirEntry} (s : Seekable k fd e) (offset : ℕ)
    → offset < 2 ^ 31
    → (k.table fd).offset < 2 ^ 32
    → e.size < 2 ^ 32
    → k_lseek (pos fd) (pos offset) 1 k ≡ ok (pos offset) (moved k fd offset)
k_lseek-start {k} {fd} s offset small c z =
    let sum : 0 + offset ≡ offset = omega arith in
    let to : ℕ → Run Kernel ℤ = λ o. ok (pos o) (moved k fd o) in
    (k_lseek-forward s 1 offset (omega arith) (omega arith) small c z).0 (omega arith) ∙ ap to sum

-- The kernel after a seek to an offset and a read of `n` bytes in block `b` from there.
abbrev pub after_read : Kernel → (fd b offset n : ℕ) → Kernel
after_read k fd b offset n = record (moved (moved k fd offset) fd (offset + n)) {
  block_buf = k.blocks b;
}

-- An entry that is in use, of the process that runs, for a descriptor other than a standard stream.
pub record Holds (p : Scheduler) (current i : ℕ) (slot : FdSlot) : Type 0 where
  pub is_current : p.current_process ≡ some current
  pub inside : i < process_fd_table_size
  pub entry : (p.pcb current).fd_table i ≡ slot
  pub used : slot.in_use ≡ true
  pub not_std : 3 ≤ slot.global_fd
  pub in_table : slot.global_fd < global_fd_table_size
  pub small_offset : slot.offset < 2 ^ 31

module _ (s : System) (current i : ℕ) (slot : FdSlot) (h : Holds s.processes current i slot) where
  pub check_terminal-passes : check_terminal current slot s ≡ ok tt s
  unfolding check_terminal
  check_terminal-passes = ground (arith, h.not_std)

  pub as_int-offset : as_int slot.offset ≡ pos slot.offset
  unfolding as_int
  as_int-offset = ground (arith, h.small_offset)

  -- The offset moves by a count that is not negative.
  pub advance-forward :
      (n : ℕ)
      → slot.offset + n < 2 ^ 32
      → advance current i (pos n) s
        ≡ ok tt (with_slot s current i (record slot { offset = slot.offset + n }))
  unfolding advance set_slot as_u32
  advance-forward n fits =
      let narrow : n % 2 ^ 32 ≡ n = omega arith in
      let sum : (slot.offset + n) % 2 ^ 32 ≡ slot.offset + n = omega arith in
      rw (h.entry, narrow, sum) refl

module _ (s : System) (current i : ℕ) (slot : FdSlot) (h : Holds s.processes current i slot) where
  s_read-run : (n : ℕ) → s_read (pos i) (pos n) s ≡ read_slot current i slot (pos n) s
  unfolding s_read
  s_read-run n =
      rw
        (
          find_slot-some s current i h.is_current h.inside (ap (λ x. x.in_use) h.entry ∙ h.used),
          h.entry,
        )
        refl

  -- `s_read` reads at the offset of the process's entry, wherever other users of the same global
  -- descriptor have left its offset: it returns the number of bytes from there to the file's end, or
  -- `n` if that is less, with these bytes, and moves the entry's offset behind them. Nothing else
  -- changes but the block buffer and the global offset.
  -- The entry must be in use, for a descriptor from 3 to 4095 of a mounted file system, open and
  -- readable, and `n` positive. The file must have one block that the host moves whole, of fewer than 2^16
  -- bytes and with a number other than 0xFFFF, and the offset lie inside the file.
  pub s_read-in_block :
      {b : ℕ} {e : DirEntry} (n : ℕ)
      → let fd = slot.global_fd in
        let left = min n (e.size - slot.offset) in
        Seekable s.files fd e
        → SmallRead (moved s.files fd slot.offset) fd b e
        → (s.files.table fd).offset < 2 ^ 32
        → 0 < n
        → s_read (pos i) (pos n) s
          ≡ ok
              (record {
                status = pos left;
                bytes = take left (drop slot.offset (s.files.blocks b));
              })
              (with_slot
                (with_kernel s (after_read s.files fd b slot.offset left))
                current
                i
                (record slot { offset = slot.offset + left }))
  unfolding read_slot
  s_read-in_block {b} {e} n seekable small global_offset some_bytes =
      let fd = slot.global_fd in
      let k1 = moved s.files fd slot.offset in
      let left = min n (e.size - slot.offset) in
      let at : (k1.table fd).offset ≡ slot.offset = ground arith in
      let counted : (k1.table fd).ref_count ≡ (s.files.table fd).ref_count = ground arith in
      let ends : slot.offset + left ≤ e.size = omega (arith, small.inside, at) in
      let seek : k_lseek (pos fd) (pos slot.offset) 1 s.files ≡ ok (pos slot.offset) k1 =
        k_lseek-start seekable slot.offset h.small_offset global_offset
          (omega (arith, small.ends_in_block, small.small)) in
      let out : ℕ → Run Kernel Reading = λ o.
        let m = min n (e.size - o) in
        ok (record { status = pos m; bytes = take m (drop o (s.files.blocks b)) })
          (record (moved k1 fd (o + m)) { block_buf = s.files.blocks b }) in
      let read : k_read (pos fd) (pos n) k1 ≡ out slot.offset =
        k_read-in_block k1 fd b e small n seekable.is_mounted h.not_std h.in_table
          (λ c. seekable.in_use (sym counted ∙ c)) seekable.readable some_bytes
        ∙ ap out at in
      let g = with_kernel s (after_read s.files fd b slot.offset left) in
      let step =
        advance-forward g current i slot h left (omega (arith, small.ends_in_block, small.small)) in
      rw
        (
          s_read-run n,
          check_terminal-passes s current i slot h,
          as_int-offset s current i slot h,
          seek,
          read,
          step,
        )
        refl
