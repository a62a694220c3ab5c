-- ===== src/Fat/State/Steps.antt =====
-- src/pennfat/fat.c: reads and writes of the FAT that stay inside it.
use pennos.Base.{update, ℕ, ◌<◌, ◌≡◌, arith}
use pennos.Fat.State.{Kernel, ok, n_entries, fat_read, fat_write}

module _ (k : Kernel) where
  pub fat_read-ok : {i : ℕ} → i < n_entries k → fat_read i k ≡ ok (k.fat i) k
  unfolding fat_read
  fat_read-ok h = ground arith

  pub fat_write-ok :
      {i : ℕ} (v : ℕ)
      → i < n_entries k
      → fat_write i v k ≡ ok tt (record k { fat = update k.fat i v })
  unfolding fat_write
  fat_write-ok v h = ground arith
