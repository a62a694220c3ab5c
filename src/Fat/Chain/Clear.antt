-- ===== src/Fat/Chain/Clear.antt =====
-- src/pennfat/fat.c: chains of blocks, and `clear_fat_file` on them.
use pennos.Base.{
  update, ℕ, zero, suc, ◌<◌, ◌≡◌, refl, ◌≢◌, true, false, List, [], ◌∷◌, arith, ◌==◌, ==_iff,
  if◌then◌else◌, length, has,
}
use pennos.Fat.State.{Kernel, n_entries, end_of_file}
use pennos.Fat.State.Steps.{fat_read-ok, fat_write-ok}
use pennos.Base.Returns
use pennos.Base.Returns.{Returns, returns}
use pennos.Fat.Chain.{clear_loop, clear_fat_file, chain_fuel}

-- From block `b` the links lead through the distinct blocks `xs`, all inside a FAT of `n` entries,
-- to the end-of-file mark.
pub data Chain (n : ℕ) (fat : ℕ → ℕ) : ℕ → List ℕ → Type 0 where
  done : {b : ℕ} → b ≡ end_of_file → Chain n fat b []
  link :
      {b q : ℕ} {xs : List ℕ}
      → b < n
      → b ≢ end_of_file
      → fat b ≡ q
      → has b xs ≡ false
      → Chain n fat q xs
      → Chain n fat b (b ∷ xs)

-- A change at blocks outside the chain leaves it as it is.
pub Chain-frame :
    {n : ℕ} {fat fat' : ℕ → ℕ} {b : ℕ} {xs : List ℕ}
    → Chain n fat b xs
    → ((i : ℕ) → has i xs ≡ true → fat' i ≡ fat i)
    → Chain n fat' b xs
Chain-frame (done e) same = done e
Chain-frame (link {b} lt ne e out c) same =
    link lt ne (ground (arith, same b)) out (Chain-frame c (λ i h. same i (ground arith)))

-- The chain's blocks are free, and nothing else has changed.
abbrev pub Cleared : Kernel → List ℕ → Unit {0} → Kernel → Type 0
Cleared k xs _ g =
    (g ≡ record k { fat = g.fat }) × ((i : ℕ) → g.fat i ≡ (if has i xs then 0 else k.fat i))

clear_loop-Cleared :
    (fuel : ℕ) (k : Kernel) {b : ℕ} {xs : List ℕ}
    → Chain (n_entries k) k.fat b xs
    → length xs < fuel
    → Returns (Cleared k xs) (clear_loop fuel b k)
unfolding clear_loop
clear_loop-Cleared zero k c h = absurd (omega arith)
clear_loop-Cleared (suc fuel) k (done e) h = rw ((==_iff _ _).1 e) (returns (refl, λ i. refl))
clear_loop-Cleared (suc fuel) k (link {b} {q} {xs} lt ne e out c) h =
    rw (not_eof, fat_read-ok k lt, fat_write-ok k 0 lt, e)
      (Returns.mono (clear_loop-Cleared fuel k' (Chain-frame c (λ i m. ground arith)) (omega arith))
        λ _ g (same, free). (same, λ i. ground (arith, free i)))
  where
    not_eof : (b == end_of_file) ≡ false
    not_eof = ground arith

    k' : Kernel
    k' = record k { fat = update k.fat b 0 }

-- `clear_fat_file` on a well-formed chain of at most 65536 blocks returns, frees exactly the blocks
-- of the chain, and changes nothing else.
pub clear_fat_file-Cleared :
    (k : Kernel) {b : ℕ} {xs : List ℕ}
    → Chain (n_entries k) k.fat b xs
    → length xs < chain_fuel
    → Returns (Cleared k xs) (clear_fat_file b k)
unfolding clear_fat_file
clear_fat_file-Cleared k c h = clear_loop-Cleared chain_fuel k c h
