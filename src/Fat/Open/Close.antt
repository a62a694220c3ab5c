-- ===== src/Fat/Open/Close.antt =====
-- src/pennfat/fat.c: `k_close`.
use pennos.Base.{update, ℕ, ◌-◌, ◌≤◌, ◌<◌, ◌≡◌, refl, ◌≢◌, true, false, none, some, arith, pos}
use pennos.Fat.State.{DirEntry, FdEntry, Kernel, ok, fault, set_fd, global_fd_table_size}
use pennos.Base.Returns.{Returns, returns}
use pennos.Fat.Disk.{name0}
use pennos.Fat.FdTable.{is_special_fd}
use pennos.Fat.Open.{released, close_last, k_close}

-- A descriptor that `k_close` takes: mounted, in the table, no standard stream.
pub record IsClosable (k : Kernel) (fd : ℕ) : Type 0 where
  pub is_mounted : k.is_mounted ≡ true
  pub in_table : fd < global_fd_table_size
  pub not_special : is_special_fd fd ≡ false

module _ {k : Kernel} {fd : ℕ} (c : IsClosable k fd) where
  -- `k_close` of a descriptor with further references counts one reference down, returns 0 and changes
  -- nothing else: the write lock stays.
  pub k_close-shared :
      2 ≤ (k.table fd).ref_count
      → k_close (pos fd) k
        ≡ ok (pos 0) (record k {
          table =
              update k.table fd (record (k.table fd) { ref_count = (k.table fd).ref_count - 1 });
        })
  unfolding k_close set_fd
  k_close-shared shared = ground (arith, c.is_mounted, c.not_special)

  -- `k_close` of the last reference to a file that was not unlinked returns 0, frees the copy and the
  -- write lock, and leaves all other descriptors, the FAT and the disk as they are.
  pub k_close-last :
      {e : DirEntry}
      → (k.table fd).ref_count ≡ 1
      → (k.table fd).ptr_to_dir_entry ≡ some e
      → name0 e ≢ 2
      → Returns
          (λ r g.
            (r ≡ pos 0)
            × ((g.table fd).ref_count ≡ 0)
            × ((g.table fd).ptr_to_dir_entry ≡ none)
            × ((g.table fd).write_locked ≡ 0)
            × ((i : ℕ) → i ≢ fd → g.table i ≡ k.table i)
            × (g ≡ record k { table = g.table }))
          (k_close (pos fd) k)
  k_close-last {e} last copy kept =
      rw run (returns (refl, ground arith, ground arith, ground arith, λ i ne. ground arith, refl))
    where
      g1 : FdEntry
      g1 = record (k.table fd) { ref_count = (k.table fd).ref_count - 1 }

      run :
          k_close (pos fd) k
          ≡ ok (pos 0) (record k { table = update (update k.table fd g1) fd (released g1) })
      run = unfold k_close close_last set_fd in ground (arith, c.is_mounted, c.not_special)

  -- `k_close` of a descriptor that was never opened, or that is closed already, follows a null pointer.
  pub k_close-unopened :
      (k.table fd).ref_count ≡ 0 → (k.table fd).ptr_to_dir_entry ≡ none → k_close (pos fd) k ≡ fault
  unfolding k_close close_last set_fd
  k_close-unopened closed null = ground (arith, c.is_mounted, c.not_special)
