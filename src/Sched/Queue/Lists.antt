-- ===== src/Sched/Queue/Lists.antt =====
-- lib/linked_list.h: membership and distinctness in a queue.
use pennos.Base.{
  ℕ, ◌≡◌, refl, Bool, true, false, ◌&&◌, ◌||◌, not, List, [], ◌∷◌, ◌++◌, arith, ◌==◌, has,
}
use pennos.Sched.Queue.{erase, rotated}

abbrev pub nodup : List ℕ → Bool
nodup [] = true
nodup (x ∷ xs) = not (has x xs) && nodup xs

pub has-append : (a : ℕ) (l r : List ℕ) → has a (l ++ r) ≡ (has a l || has a r)
has-append a [] r = refl
has-append a (x ∷ l) r = ground (arith, has-append a l r)

pub has-append_one : (a b : ℕ) (l : List ℕ) → has a (l ++ b ∷ []) ≡ (has a l || a == b)
has-append_one a b [] = ground arith
has-append_one a b (x ∷ l) = ground (arith, has-append_one a b l)

pub nodup-append_one :
    (b : ℕ) (l : List ℕ) → nodup l ≡ true → has b l ≡ false → nodup (l ++ b ∷ []) ≡ true
nodup-append_one b [] d h = refl
nodup-append_one b (x ∷ l) d h = ground (arith, has-append_one x b l, nodup-append_one b l)

pub has-erase :
    (a b : ℕ) (l : List ℕ) → nodup l ≡ true → has a (erase b l) ≡ (has a l && not (a == b))
has-erase a b [] d = refl
has-erase a b (x ∷ l) d = ground (arith, has-erase a b l)

pub nodup-erase : (b : ℕ) (l : List ℕ) → nodup l ≡ true → nodup (erase b l) ≡ true
nodup-erase b [] d = refl
nodup-erase b (x ∷ l) d = ground (arith, nodup-erase b l, has-erase x b l)

pub has-rotated : (a : ℕ) (l : List ℕ) → has a (rotated l) ≡ has a l
has-rotated a [] = refl
has-rotated a (x ∷ l) = ground (arith, has-append_one a x l)

pub nodup-rotated : (l : List ℕ) → nodup l ≡ true → nodup (rotated l) ≡ true
nodup-rotated [] d = refl
nodup-rotated (x ∷ l) d = nodup-append_one x l (ground arith) (ground arith)
