-- ===== src/Fat/Dir/Find.antt =====
-- src/pennfat/fat.c: what `find_file_in_root_dir` leaves as it was.
use pennos.Base.{
  ℕ, zero, suc, ◌≡◌, refl, ap, subst, ◌∙◌, if◌then◌else◌, not, List, arith, ◌==◌, Bool-cases, inl,
  inr,
}
use pennos.Base.Run.{Run, ok, fault, diverge, and_then, pure}
use pennos.Fat.State.{Kernel, set_buf, fat_read}
use pennos.Fat.Chain.{Next, next_block_num, chain_fuel}
use pennos.Fat.Disk.{get_block}
use pennos.Fat.Dir.{FindFile, find_failed, find_file_loop, find_file_in_root_dir}

-- The state is as before but for the block buffer.
abbrev pub Buffered : Kernel → Kernel → Type 0
Buffered k g = g ≡ record k { block_buf = g.block_buf }

-- If a run returns, a postcondition holds.
abbrev IfReturns : {A : Type 0} → (A → Kernel → Type 0) → Run Kernel A → Type 0
IfReturns P (ok a k) = P a k
IfReturns P fault = Unit
IfReturns P diverge = Unit

IfReturns-bind :
    {A B : Type 0} (P : A → Kernel → Type 0) (Q : B → Kernel → Type 0) (r : Run Kernel A)
    (f : A → Kernel → Run Kernel B)
    → IfReturns P r
    → ((a : A) (k : Kernel) → P a k → IfReturns Q (f a k))
    → IfReturns Q (and_then r f)
IfReturns-bind P Q (ok a k) f h next = next a k h
IfReturns-bind P Q fault f h next = tt
IfReturns-bind P Q diverge f h next = tt

Buffered-trans : (k g h : Kernel) → Buffered k g → Buffered g h → Buffered k h
Buffered-trans k g h e e' =
    e' ∙ ap {A = Kernel} {B = Kernel} (λ x. record x { block_buf = h.block_buf }) e

get_block-Buffered : (block : ℕ) (k : Kernel) → IfReturns (λ _ g. Buffered k g) (get_block block k)
unfolding get_block set_buf
get_block-Buffered block k = ground arith

next_block_num-same :
    (block old : ℕ) (k : Kernel) → IfReturns (λ _ g. g ≡ k) (next_block_num block old k)
unfolding next_block_num fat_read
next_block_num-same block old k = ground arith

module _ (k : Kernel) where
  find_file_loop-Buffered :
      (fuel : ℕ) (fname : List ℕ) (block : ℕ) (g : Kernel)
      → Buffered k g
      → IfReturns (λ _ h. Buffered k h) (find_file_loop fuel fname block g)
  unfolding find_file_loop
  find_file_loop-Buffered zero fname block g same = tt
  find_file_loop-Buffered (suc fuel) fname block g same =
      IfReturns-bind (λ _ h. Buffered g h) (λ _ h. Buffered k h) (get_block block g) _
        (get_block-Buffered block g)
        λ s h step.
          let same' : Buffered k h = Buffered-trans k g h same step in
          let onward : (n : Next)
              → IfReturns (λ _ u. Buffered k u) (find_file_loop fuel fname n.block h) =
            λ n. find_file_loop-Buffered fuel fname n.block h same' in
          let follow : IfReturns (λ _ u. Buffered k u)
              (and_then (next_block_num block block h) (λ n.
                if not (n.status == 0)
                then pure find_failed
                else find_file_loop fuel fname n.block)) =
            IfReturns-bind (λ _ u. u ≡ h) (λ _ u. Buffered k u) (next_block_num block block h) _
              (next_block_num-same block block h)
              (λ n u e. elim (Bool-cases (n.status == 0)) [
                | inl found ↦ rw (found, e) (onward n)
                | inr failed ↦ rw (failed, e) same'
              ]) in
          elim (Bool-cases (s == 0)) [
            | inl read ↦ rw read (ground (arith, follow, same'))
            | inr failed ↦ rw failed same'
          ]

-- If the search returns, it has changed nothing but the block buffer.
pub find_file_in_root_dir-Buffered :
    (fname : List ℕ) (r : FindFile) (k w : Kernel)
    → find_file_in_root_dir fname k ≡ ok r w
    → Buffered k w
unfolding find_file_in_root_dir
find_file_in_root_dir-Buffered fname r k w found =
    subst (IfReturns (λ _ g. Buffered k g)) found
      (find_file_loop-Buffered k chain_fuel fname 1 k refl)
