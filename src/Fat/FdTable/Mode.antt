-- ===== src/Fat/FdTable/Mode.antt =====
-- src/pennfat/fat.c: `k_setmode` and `k_getmode`.
use pennos.Base.{ℕ, ◌≤◌, ◌<◌, ◌≡◌, ◌≢◌, refl, true, arith, ℤ, pos, neg, update, ◌⊎◌, is_neg}
use pennos.Fat.State.{Kernel, ok, set_fd, global_fd_table_size}
use pennos.Fat.FdTable.{set_mode, k_setmode, k_getmode}

-- `k_setmode` on an open descriptor with one of the three modes returns 0, `k_getmode` then returns
-- the mode, and nothing but that field has changed.
pub k_setmode-k_getmode :
    (k : Kernel) (fd mode : ℕ)
    → fd < global_fd_table_size
    → (k.table fd).ref_count ≢ 0
    → mode ≤ 2
    → (w : Kernel) × (k_setmode (pos fd) (pos mode) k ≡ ok (pos 0) w)
      × (k_getmode (pos fd) w ≡ ok (pos mode) w)
      × (w ≡ record k { table = update k.table fd (record (k.table fd) { write_locked = mode }) })
unfolding k_setmode set_mode k_getmode set_fd
k_setmode-k_getmode k fd mode in_table is_open valid = (
  record k { table = update k.table fd (record (k.table fd) { write_locked = mode }) },
  ground arith,
  ground arith,
  refl,
)

-- On a closed descriptor, one past the table, or with another mode, `k_setmode` returns an error and
-- changes nothing.
pub k_setmode-refused :
    (k : Kernel) (fd : ℕ) (mode : ℤ)
    → (global_fd_table_size ≤ fd → k_setmode (pos fd) mode k ≡ ok (neg 77) k)
      × (fd < global_fd_table_size
          → (k.table fd).ref_count ≡ 0
          → k_setmode (pos fd) mode k ≡ ok (neg 79) k)
      × (fd < global_fd_table_size
          → (k.table fd).ref_count ≢ 0
          → (is_neg mode ≡ true) ⊎ ((m : ℕ) × (mode ≡ pos m) × (3 ≤ m))
          → k_setmode (pos fd) mode k ≡ ok (neg 78) k)
unfolding k_setmode set_mode
k_setmode-refused k fd mode =
    (λ out. ground arith, λ inside closed. ground arith, λ inside is_open bad. ground arith)
