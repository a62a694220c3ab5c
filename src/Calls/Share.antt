-- ===== src/Calls/Share.antt =====
-- src/scheduler/fat_syscalls.c: `s_write` of one process and `s_read` of another on the same file.
use pennos.Base.{
  ℕ, ◌+◌, ◌-◌, ◌^◌, ◌≤◌, ◌<◌, ◌≡◌, ◌≢◌, refl, sym, ◌∙◌, ap, subst, true, false, List, some, arith,
  ◌==◌, ◌&&◌, pos, min, length, take,
}
use pennos.Base.Run.{ok, ◌>>=◌, ◌>>◌}
use pennos.Base.Returns
use pennos.Base.Returns.{Returns, returns}
use pennos.Fat.State.{Kernel, DirEntry, f_append, end_of_file}
use pennos.Fat.Disk.Whole.{Whole-same}
use pennos.Fat.Seek.Outcome.{Seekable, moved}
use pennos.Fat.Read.{Reading}
use pennos.Fat.Read.InBlock.{SmallRead}
use pennos.Fat.Write.{may_write}
use pennos.Fat.Write.Finish.{before_entry, written_entry}
use pennos.Fat.Write.Overwrite.{Small, filled_in, new_bytes, new_bytes-length}
use pennos.Fat.Write.ReadBack.{slice}
use pennos.Sched.State.{FdSlot, Scheduler}
use pennos.Calls.{System, Cmd, s_read, s_write}
use pennos.Calls.Reopen.{with_slot-fd_table}
use pennos.Calls.Open.{with_kernel}
use pennos.Calls.Read.{Holds, s_read-in_block}
use pennos.Calls.Write.{opened, after_write, Small-ready, s_write-stores}

-- The scheduler with another process running.
abbrev pub switched : Scheduler → ℕ → Scheduler
switched p pid = record p { current_process = some pid }

unfoldable pub run_as : ℕ → Cmd (Unit {0})
run_as pid s = ok tt (record s { processes = switched s.processes pid })

pub write_then_read : (i : ℕ) → List ℕ → (n reader j : ℕ) → Cmd Reading
write_then_read i str n reader j = do
  _ ← s_write (pos i) str (pos n)
  run_as reader
  s_read (pos j) (pos n)

-- An entry for the same descriptor and the same offset as another, in some mode.
abbrev pub twin : FdSlot → ℕ → FdSlot
twin slot mode = record {
  global_fd = slot.global_fd;
  offset = slot.offset;
  mode = mode;
  in_use = true;
}

module _ (s : System) (current i reader j : ℕ) (slot : FdSlot) (mode : ℕ)
    (h : Holds s.processes current i slot)
    (h' : Holds (switched s.processes reader) reader j (twin slot mode))
    (apart : ((current == reader) && (i == j)) ≡ false) (b n mtime : ℕ) (e : DirEntry)
    (str : List ℕ) (seekable : Seekable s.files slot.global_fd e)
    (small : Small s.files slot.global_fd b e n slot.offset mtime) (enough : n ≤ length str) where
  abbrev k2 : Kernel
  k2 = opened s current i slot h

  abbrev written : DirEntry
  written = written_entry k2 slot.global_fd b e mtime slot.offset n

  -- The kernel after the write, with the blocks and the buffer that it then has.
  abbrev stored : (ℕ → List ℕ) → List ℕ → Kernel
  stored blocks buf =
      record (before_entry (filled_in k2 slot.global_fd b e n slot.offset mtime str) slot.global_fd
        b e mtime slot.offset n) { blocks = blocks; block_buf = buf }

  small' : Small k2 slot.global_fd b e n slot.offset mtime
  small' = Small-ready s.files slot.global_fd slot.offset slot.mode small

  module _ (blocks : ℕ → List ℕ) (buf : List ℕ) where
    abbrev t : System
    t = record (after_write s current i slot h (stored blocks buf) n) {
      processes = switched (after_write s current i slot h (stored blocks buf) n).processes reader;
    }

    shared-entry : t.files.table slot.global_fd ≡ record (s.files.table slot.global_fd) {
      offset = slot.offset + n;
      ptr_to_dir_entry = some written;
    }
    shared-entry =
        let self : (slot.global_fd == slot.global_fd) ≡ true = ground arith in rw self refl

    reader-Holds : Holds t.processes reader j (twin slot mode)
    reader-Holds = record {
      is_current = refl;
      inside = h'.inside;
      entry =
          with_slot-fd_table (with_kernel s t.files) current i reader j
            (record slot { offset = slot.offset + n })
          ∙ rw apart h'.entry;
      used = refl;
      not_std = h.not_std;
      in_table = h.in_table;
      small_offset = h.small_offset;
    }

    reader-Seekable : Seekable t.files slot.global_fd written
    reader-Seekable = record {
      is_mounted = seekable.is_mounted;
      in_table = h.in_table;
      not_special = seekable.not_special;
      in_use = λ c. seekable.in_use (ap (λ x. x.ref_count) (sym shared-entry) ∙ c);
      copy = ap (λ x. x.ptr_to_dir_entry) shared-entry;
      readable = seekable.readable;
    }

    reader-SmallRead :
        blocks b ≡ new_bytes k2 slot.global_fd b e n slot.offset mtime str
        → length buf ≡ s.files.block_size
        → b ≢ end_of_file
        → e.first_block ≡ b
        → SmallRead (moved t.files slot.global_fd slot.offset) slot.global_fd b written
    reader-SmallRead has_bytes full not_end first =
        let g = moved t.files slot.global_fd slot.offset in
        let at : (g.table slot.global_fd).offset ≡ slot.offset = ground arith in
        let same : (g.table slot.global_fd).ptr_to_dir_entry
            ≡ (t.files.table slot.global_fd).ptr_to_dir_entry =
          ground arith in
        record {
          last = record {
            whole = Whole-same s.files g b small.last.whole refl refl refl (
                ap length has_bytes
                ∙ new_bytes-length k2 slot.global_fd b e n slot.offset mtime str small' enough);
            ends = ground arith;
            in_fat = small.last.in_fat;
          };
          not_end = not_end;
          copy = same ∙ ap (λ x. x.ptr_to_dir_entry) shared-entry;
          first = first;
          full = full;
          small = small.small;
          ends_in_block = small.inside;
          inside = omega (arith, at, small.some_bytes);
        }

    s_read-after :
        blocks b ≡ new_bytes k2 slot.global_fd b e n slot.offset mtime str
        → length buf ≡ s.files.block_size
        → b ≢ end_of_file
        → e.first_block ≡ b
        → Returns
            (λ r _. r ≡ record { status = pos n; bytes = take n str })
            (s_read (pos j) (pos n) t)
    s_read-after has_bytes full not_end first =
        let position : (t.files.table slot.global_fd).offset ≡ slot.offset + n =
          ap (λ x. x.offset) shared-entry in
        let left : min n (slot.offset + n - slot.offset) ≡ n = omega arith in
        let bytes = slice k2 slot.global_fd b e n slot.offset mtime str small' enough in
        rw
          (s_read-in_block t reader j (twin slot mode) reader-Holds n reader-Seekable
            (reader-SmallRead has_bytes full not_end first)
            (omega (arith, position, small.inside, small.small)) small.some_bytes)
          (returns (rw (left, has_bytes, bytes) refl))

  -- What one process writes another reads: after `s_write` of `n` bytes by the current process, `s_read`
  -- of `n` bytes by a process whose entry has the same global descriptor at the same offset returns `n`
  -- and the bytes, although both use the offset of the one global descriptor. The entries must be two
  -- (of two processes, or of one), in use, below 2^31, the writer's in the mode F_READ or F_WRITE, the file
  -- open on a mounted file system, with permissions that pass the tests of both calls. The file has one
  -- block, which holds the offset and the bytes; the host must move it and that of the directory entry
  -- whole and have a clock, a block have fewer than 2^16 bytes, and the new entry's fields fit their
  -- widths. The block must not have the number 0xFFFF.
  pub s_write-s_read :
      (s.files.table slot.global_fd).offset < 2 ^ 32
      → slot.mode ≤ 2
      → slot.mode ≢ f_append
      → (s.files.table slot.global_fd).write_locked ≤ 2
      → may_write e.perm ≡ true
      → b ≢ end_of_file
      → e.first_block ≡ b
      → Returns
          (λ r _. r ≡ record { status = pos n; bytes = take n str })
          (write_then_read i str n reader j s)
  unfolding write_then_read run_as
  s_write-s_read global_offset valid not_append old_valid allowed not_end first =
      Returns.bind
        (s_write-stores s current i slot h str n mtime seekable global_offset small enough valid
          not_append old_valid allowed first)
        λ r t (_, g, st, after).
          let has_bytes : g.blocks b ≡ new_bytes k2 slot.global_fd b e n slot.offset mtime str =
            st.blocks b (λ same. small'.apart (sym same)) ∙ ground arith in
          subst
            (λ x.
              Returns (λ r _. r ≡ record { status = pos n; bytes = take n str })
                (s_read (pos j) (pos n) (record x { processes = switched x.processes reader })))
            (sym (after ∙ ap (λ k. after_write s current i slot h k n) st.rest))
            (s_read-after g.blocks g.block_buf has_bytes st.full not_end first)
