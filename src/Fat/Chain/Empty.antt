-- ===== src/Fat/Chain/Empty.antt =====
-- src/pennfat/fat.c: `first_empty_block`.
use pennos.Base.{
  ℕ, zero, suc, ◌+◌, ◌-◌, ◌<◌, ◌≤◌, ◌≡◌, refl, ◌≢◌, arith, Bool, ◌||◌, ◌==◌, if◌then◌else◌, leb,
  Bool-cases, inl, inr, true, false,
}
use pennos.Fat.State.{Kernel, ok, fault, n_entries, fat_read}
use pennos.Fat.Chain.{search_bound, first_empty_loop, first_empty_block}

first_empty_loop-least :
    (k : Kernel) (rounds i j : ℕ)
    → i ≤ j
    → j < i + rounds
    → j < n_entries k
    → k.fat j ≡ 0
    → ((m : ℕ) → i ≤ m → m < j → k.fat m ≢ 0)
    → first_empty_loop rounds i k ≡ ok j k
unfolding first_empty_loop fat_read
first_empty_loop-least k zero i j ge lt inside free used = absurd (omega arith)
first_empty_loop-least k (suc rounds) i j ge lt inside free used = ground (
  arith,
  used i,
  λ (p : suc i ≤ j).
      first_empty_loop-least k rounds (i + 1) j (omega arith) (omega arith) inside free
        (λ m h. used m (omega arith)),
)

-- A search that has rounds left after the last entry reads past the end of the FAT.
first_empty_loop-fault :
    (k : Kernel) (rounds i : ℕ)
    → i ≤ n_entries k
    → n_entries k < i + rounds
    → ((m : ℕ) → i ≤ m → m < n_entries k → k.fat m ≢ 0)
    → first_empty_loop rounds i k ≡ fault
unfolding first_empty_loop fat_read
first_empty_loop-fault k zero i le lt used = absurd (omega arith)
first_empty_loop-fault k (suc rounds) i le lt used = ground (
  arith,
  used i,
  λ (p : suc i ≤ n_entries k).
      first_empty_loop-fault k rounds (i + 1) (omega arith) (omega arith)
        (λ m h. used m (omega arith)),
)

first_empty_loop-full :
    (k : Kernel) (rounds i : ℕ)
    → i + rounds ≤ n_entries k
    → ((m : ℕ) → i ≤ m → m < n_entries k → k.fat m ≢ 0)
    → first_empty_loop rounds i k ≡ ok 0 k
unfolding first_empty_loop fat_read
first_empty_loop-full k zero i le used = refl
first_empty_loop-full k (suc rounds) i le used = ground (
  arith,
  used i,
  first_empty_loop-full k rounds (i + 1) (omega arith) (λ m h. used m (omega arith)),
)

-- If `j` is the least free block behind entry 0, inside the FAT and below entry 65535 (and below
-- entry 32768 in a FAT of 65536 bytes), `first_empty_block` returns it and changes nothing.
pub first_empty_block-least :
    (k : Kernel) (j : ℕ)
    → 1 ≤ j
    → j < n_entries k
    → j < search_bound k.fat_size
    → k.fat j ≡ 0
    → ((m : ℕ) → 1 ≤ m → m < j → k.fat m ≢ 0)
    → first_empty_block k ≡ ok j k
unfolding first_empty_block
first_empty_block-least k j ge inside lt free used =
    first_empty_loop-least k (search_bound k.fat_size - 1) 1 j ge (omega arith) inside free used

search_bound-pos : (k : Kernel) → 1 ≤ search_bound k.fat_size
unfolding search_bound
search_bound-pos k = ground arith

-- The search ends inside the FAT.
ends_inside : Kernel → Bool
ends_inside k = k.fat_size == 65536 || leb 65535 (n_entries k)

search_bound-inside : (k : Kernel) → ends_inside k ≡ true → search_bound k.fat_size ≤ n_entries k
unfolding ends_inside search_bound
search_bound-inside k h = ground arith

search_bound-outside : (k : Kernel) → ends_inside k ≡ false → n_entries k < search_bound k.fat_size
unfolding ends_inside search_bound
search_bound-outside k h = ground arith

-- When no entry of the FAT behind entry 0 is free, `first_empty_block` returns 0 and changes nothing
-- if the FAT has 65536 bytes or at least 65535 entries, and reads behind the end of every other FAT.
-- The FAT has an entry.
pub first_empty_block-full :
    (k : Kernel)
    → ((m : ℕ) → 1 ≤ m → m < n_entries k → k.fat m ≢ 0)
    → 1 ≤ n_entries k
    → first_empty_block k
      ≡ (if k.fat_size == 65536 || leb 65535 (n_entries k) then ok 0 k else fault)
unfolding first_empty_block ends_inside
first_empty_block-full k used some_entry = elim (Bool-cases (ends_inside k)) [
  | inl inside ↦
      let le = search_bound-inside k inside in
      rw inside (
        first_empty_loop-full k (search_bound k.fat_size - 1) 1 (ground (arith, search_bound-pos k))
          used)
  | inr outside ↦
      let lt = search_bound-outside k outside in
      rw outside (
        first_empty_loop-fault k (search_bound k.fat_size - 1) 1 some_entry
          (ground (arith, search_bound-pos k)) used)
]
