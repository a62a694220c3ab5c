-- ===== src/Calls/Write.antt =====
-- src/scheduler/fat_syscalls.c: `s_write` inside the only block of a file.
use pennos.Base.{
  update, ℕ, ◌+◌, ◌^◌, ◌≤◌, ◌<◌, ◌≡◌, ◌≢◌, refl, sym, ◌∙◌, ap, true, List, arith, ◌==◌, pos, length,
}
use pennos.Base.Run.{ok}
use pennos.Base.Returns.{Returns, returns, outcome}
use pennos.Fat.State.{Kernel, DirEntry, FdEntry, global_fd_table_size, f_append}
use pennos.Fat.Disk.Whole.{Whole, Whole-same}
use pennos.Fat.FdTable.{k_setmode, k_getmode, set_mode}
use pennos.Fat.Seek.Outcome.{Seekable, moved}
use pennos.Fat.Write.{k_write, may_write}
use pennos.Fat.Write.Finish.{before_entry, written_entry}
use pennos.Fat.Write.Overwrite.{Small, filled_in, k_write-run, write_from-stores}
use pennos.Fat.Dir.Store.{Stored}
use pennos.Sched.State.{FdSlot}
use pennos.Calls.{System, with_slot, write_slot, write_in_mode, s_write}
use pennos.Calls.Slots.{find_slot-some}
use pennos.Calls.Open.{with_kernel}
use pennos.Calls.Read.{Holds, k_lseek-start, check_terminal-passes, as_int-offset, advance-forward}

abbrev pub in_mode : Kernel → (fd mode : ℕ) → Kernel
in_mode k fd mode = record k {
  table = update k.table fd (record (k.table fd) { write_locked = mode });
}

-- The kernel when the bytes are written: the descriptor at the process's offset and in its mode.
abbrev pub ready : Kernel → (fd offset mode : ℕ) → Kernel
ready k fd offset mode = in_mode (moved k fd offset) fd mode

k_setmode-ok :
    (k : Kernel) (fd mode : ℕ)
    → fd < global_fd_table_size
    → (k.table fd).ref_count ≢ 0
    → mode ≤ 2
    → k_setmode (pos fd) (pos mode) k ≡ ok (pos 0) (in_mode k fd mode)
unfolding k_setmode set_mode pennos.Fat.State.set_fd
k_setmode-ok k fd mode in_table is_open valid = ground arith

k_getmode-ok :
    (k : Kernel) (fd : ℕ)
    → fd < global_fd_table_size
    → (k.table fd).ref_count ≢ 0
    → k_getmode (pos fd) k ≡ ok (pos (k.table fd).write_locked) k
unfolding k_getmode
k_getmode-ok k fd in_table is_open = ground arith

module _ (k : Kernel) (fd offset mode : ℕ) where
  pub ready-entry :
      (ready k fd offset mode).table fd
      ≡ record (k.table fd) { offset = offset; write_locked = mode }
  ready-entry = let self : (fd == fd) ≡ true = ground arith in rw self refl

  pub Whole-ready : {b : ℕ} → Whole k b → Whole (ready k fd offset mode) b
  Whole-ready {b} w = Whole-same k (ready k fd offset mode) b w refl refl refl w.filled

  pub Small-ready :
      {b n mtime : ℕ} {e : DirEntry}
      → Small k fd b e n offset mtime
      → Small (ready k fd offset mode) fd b e n offset mtime
  Small-ready {b} s = record {
    last = record { whole = Whole-ready s.last.whole; ends = s.last.ends; in_fat = s.last.in_fat };
    dir = rw ready-entry (Whole-ready s.dir);
    apart = rw ready-entry s.apart;
    room = rw ready-entry s.room;
    copy = rw ready-entry s.copy;
    full = s.full;
    small = s.small;
    ends_in_block = s.ends_in_block;
    inside = s.inside;
    some_bytes = s.some_bytes;
    time = s.time;
    fits = s.fits;
  }

module _ (s : System) (current i : ℕ) (slot : FdSlot) (h : Holds s.processes current i slot) where
  abbrev fd : ℕ
  fd = slot.global_fd

  abbrev pub opened : Kernel
  opened = ready s.files fd slot.offset slot.mode

  -- The system after a write that leaves the kernel `g`.
  abbrev pub after_write : Kernel → ℕ → System
  after_write g n =
      with_slot (with_kernel s (in_mode g fd (s.files.table fd).write_locked)) current i
        (record slot { offset = slot.offset + n })

  write_in_mode-ok :
      (str : List ℕ) (n : ℕ) (g : Kernel)
      → k_write (pos fd) str (pos n) opened ≡ ok (pos n) g
      → (s.files.table fd).ref_count ≢ 0
      → (g.table fd).ref_count ≢ 0
      → slot.mode ≤ 2
      → (s.files.table fd).write_locked ≤ 2
      → slot.offset + n < 2 ^ 32
      → write_in_mode current i slot
          (pos (s.files.table fd).write_locked)
          str
          (pos n)
          (with_kernel s (moved s.files fd slot.offset))
        ≡ ok (pos n) (after_write g n)
  unfolding write_in_mode
  write_in_mode-ok str n g written in_use in_use' valid old_valid fits =
      let k1 = moved s.files fd slot.offset in
      let old = (s.files.table fd).write_locked in
      let same : (k1.table fd).ref_count ≡ (s.files.table fd).ref_count = ground arith in
      let set = k_setmode-ok k1 fd slot.mode h.in_table (λ c. in_use (sym same ∙ c)) valid in
      let restore = k_setmode-ok g fd old h.in_table in_use' old_valid in
      let step = advance-forward (with_kernel s (in_mode g fd old)) current i slot h n fits in
      rw (set, written, restore, step) refl

  s_write-run :
      (str : List ℕ) (n : ℕ)
      → {e : DirEntry} → Seekable s.files fd e
      → (s.files.table fd).offset < 2 ^ 32
      → e.size < 2 ^ 32
      → s_write (pos i) str (pos n) s
        ≡ write_in_mode current i slot
            (pos (s.files.table fd).write_locked)
            str
            (pos n)
            (with_kernel s (moved s.files fd slot.offset))
  unfolding s_write write_slot
  s_write-run str n seekable global_offset size =
      let k1 = moved s.files fd slot.offset in
      let same : (k1.table fd).ref_count ≡ (s.files.table fd).ref_count = ground arith in
      let locked : (k1.table fd).write_locked ≡ (s.files.table fd).write_locked = ground arith in
      let mode = k_getmode-ok k1 fd h.in_table (λ c. seekable.in_use (sym same ∙ c)) in
      rw
        (
          find_slot-some s current i h.is_current h.inside (ap (λ x. x.in_use) h.entry ∙ h.used),
          h.entry,
          check_terminal-passes s current i slot h,
          as_int-offset s current i slot h,
          k_lseek-start seekable slot.offset h.small_offset global_offset size,
          mode,
          locked,
        )
        refl

  pub s_write-stores :
      {b : ℕ} {e : DirEntry} (str : List ℕ) (n mtime : ℕ)
      → Seekable s.files fd e
      → (s.files.table fd).offset < 2 ^ 32
      → Small s.files fd b e n slot.offset mtime
      → n ≤ length str
      → slot.mode ≤ 2
      → slot.mode ≢ f_append
      → (s.files.table fd).write_locked ≤ 2
      → may_write e.perm ≡ true
      → e.first_block ≡ b
      → Returns
          (λ r t.
            (r ≡ pos n)
            × (g : Kernel) × Stored
                (before_entry
                  (filled_in opened fd b e n slot.offset mtime str)
                  fd
                  b
                  e
                  mtime
                  slot.offset
                  n)
                (opened.table fd).dir_entry_block_num
                (opened.table fd).dir_entry_idx
                (written_entry opened fd b e mtime slot.offset n)
                g
            × (t ≡ after_write g n))
          (s_write (pos i) str (pos n) s)
  s_write-stores {b} {e} str n mtime seekable global_offset small enough valid not_append old_valid
        allowed first =
      let small' = Small-ready s.files fd slot.offset slot.mode small in
      let entry = ready-entry s.files fd slot.offset slot.mode in
      let counted : (opened.table fd).ref_count ≡ (s.files.table fd).ref_count =
        ap (λ x. x.ref_count) entry in
      let start =
        k_write-run opened fd b e n slot.offset mtime str small' seekable.is_mounted h.not_std
          h.in_table (λ c. seekable.in_use (sym counted ∙ c)) allowed
          (λ c. not_append (sym (ap (λ x. x.write_locked) entry) ∙ c)) (ap (λ x. x.offset) entry)
          first in
      let (r, g, run, (is, stored)) =
        outcome (write_from-stores opened fd b e n slot.offset mtime str small' enough) in
      let table = ap (λ x. x.table) stored.rest in
      let counted' : (g.table fd).ref_count ≡ (s.files.table fd).ref_count =
        rw table (ground arith) in
      let done =
        write_in_mode-ok str n g (start ∙ run ∙ ap (λ x. ok x g) is) seekable.in_use
          (λ c. seekable.in_use (sym counted' ∙ c)) valid old_valid
          (omega (arith, small.inside, small.small)) in
      rw
        (
          s_write-run str n seekable global_offset
              (omega (arith, small.ends_in_block, small.small)),
          done,
        )
        (returns (refl, g, stored, refl))
