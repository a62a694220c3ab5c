-- ===== src/Fat/Open/Lock.antt =====
-- src/pennfat/fat.c: the write lock that `k_open` keeps in `write_locked`.
use pennos.Base.{update, ℕ, ◌+◌, ◌≡◌, refl, ◌≢◌, true, false, List, some, arith, pos, neg, inl, ◌⊎◌}
use pennos.Fat.State.{DirEntry, FdEntry, Kernel, ok, set_fd, f_read, f_write, f_append}
use pennos.Base.Returns.{Returns, returns}
use pennos.Fat.Names.{is_valid_filename}
use pennos.Fat.FdTable.{find_file_in_global_fd_table}
use pennos.Fat.Open.{is_refused, open_offset, open_truncate, open_checked, k_open}

-- The file is open under descriptor `fd`, with its copy `e`.
pub record IsOpen (k : Kernel) (fname : List ℕ) (fd : ℕ) (e : DirEntry) : Type 0 where
  pub is_mounted : k.is_mounted ≡ true
  pub valid : is_valid_filename fname ≡ true
  pub found : find_file_in_global_fd_table fname k ≡ ok (some fd) k
  pub copy : (k.table fd).ptr_to_dir_entry ≡ some e

-- What `k_open` stores for a reader of an open file.
abbrev pub with_reader : Kernel → ℕ → Kernel
with_reader k fd = record k {
  table =
      update k.table fd
        (record (k.table fd) { ref_count = (k.table fd).ref_count + 1; write_locked = f_read });
}

module _ {k : Kernel} {fname : List ℕ} {fd : ℕ} {e : DirEntry} (o : IsOpen k fname fd e) where
  -- While a file is open and its lock is held, it is not opened for writing or appending again:
  -- `k_open` returns EK_OPEN_ALREADY_WRITE_LOCKED and changes nothing.
  pub k_open-locked :
      (mode : ℕ)
      → (mode ≡ f_write) ⊎ (mode ≡ f_append)
      → (k.table fd).write_locked ≢ 0
      → k_open fname mode k ≡ ok (neg 25) k
  unfolding k_open
  k_open-locked mode writes locked = ground (arith, o.is_mounted, o.valid, o.found)

  k_open-known :
      (mode : ℕ)
      → (mode ≡ f_read) ⊎ ((k.table fd).write_locked ≡ 0)
      → k_open fname mode k ≡ open_checked fd mode k
  unfolding k_open
  k_open-known mode free = ground (arith, o.is_mounted, o.valid, o.found)

  open_checked-reader :
      is_refused e.perm f_read ≡ false
      → (g : FdEntry) × (open_checked fd f_read k
          ≡ ok (pos fd) (record k {
            table =
                update
                  (update k.table fd
                    (record (k.table fd) { ref_count = (k.table fd).ref_count + 1 }))
                  fd
                  g;
          }))
        × (g ≡ record (k.table fd) { ref_count = (k.table fd).ref_count + 1; write_locked = 0 })
  unfolding open_checked open_truncate open_offset set_fd
  open_checked-reader allowed = (
    record (k.table fd) { ref_count = (k.table fd).ref_count + 1; write_locked = 0 },
    ground (arith, o.copy, allowed),
    refl,
  )

  -- A reader's `k_open` of an open file that may be read succeeds and counts the reference, and it
  -- clears the write lock even if a writer holds it; the offset and all other descriptors stay.
  pub k_open-reader :
      is_refused e.perm f_read ≡ false
      → Returns
          (λ r g.
            (r ≡ pos fd)
            × ((g.table fd).write_locked ≡ 0)
            × ((g.table fd).ref_count ≡ (k.table fd).ref_count + 1)
            × ((g.table fd).offset ≡ (k.table fd).offset)
            × ((g.table fd).ptr_to_dir_entry ≡ some e)
            × ((i : ℕ) → i ≢ fd → g.table i ≡ k.table i)
            × (g ≡ record k { table = g.table }))
          (k_open fname f_read k)
  k_open-reader allowed =
      let (g, run, is) = open_checked-reader allowed in
      rw (k_open-known f_read (inl refl), run)
        (returns (
          refl,
          ground (arith, is),
          ground (arith, is),
          ground (arith, is),
          ground (arith, is, o.copy),
          λ i ne. ground arith,
          refl,
        ))
