-- ===== src/Links/Cut.antt =====
-- lib/linked_list.h: a sequence of distinct nodes, cut at one of them.
use pennos.Base.{
  ℕ, ◌≡◌, refl, ap, true, false, List, [], ◌∷◌, ◌++◌, arith, ◌==◌, has, Bool-cases, inl, inr,
}
use pennos.Sched.Queue.{erase}
use pennos.Sched.Queue.Lists.{nodup, has-append}
use pennos.Links.Segment.{nodup-head, nodup-tail}

-- A sequence is cut at an element that it has.
pub record IsCut (x : ℕ) (l a b : List ℕ) : Type 0 where
  pub is : l ≡ a ++ x ∷ b
  pub erased : erase x l ≡ a ++ b
  pub not_before : has x a ≡ false
  pub not_behind : has x b ≡ false

pub cut :
    (x : ℕ) (l : List ℕ)
    → has x l ≡ true
    → nodup l ≡ true
    → (a : List ℕ) × (b : List ℕ) × IsCut x l a b
cut x [] h d = absurd (ground arith)
cut x (y ∷ l) h d = elim (Bool-cases (x == y)) [
  | inl same ↦
      let is : x ≡ y = ground arith in
      let head : has x l ≡ false = rw is (nodup-head y l d) in
      (
        [],
        l,
        record { is = rw is refl; erased = rw same refl; not_before = refl; not_behind = head },
      )
  | inr other ↦
      let there : has x l ≡ true = ground arith in
      let (a, b, c) = cut x l there (nodup-tail y l d) in
      (
        y ∷ a,
        b,
        record {
          is = ap (◌∷◌ y) c.is;
          erased = rw other (ap (◌∷◌ y) c.erased);
          not_before = rw other c.not_before;
          not_behind = c.not_behind;
        },
      )
]

pub nodup-apart : (z : ℕ) (a b : List ℕ) → nodup (a ++ b) ≡ true → has z a ≡ true → has z b ≡ false
nodup-apart z [] b d h = absurd (ground arith)
nodup-apart z (x ∷ a) b d h = elim (Bool-cases (z == x)) [
  | inl same ↦
      let is : x ≡ z = ground arith in
      let out : has x (a ++ b) ≡ false = nodup-head x (a ++ b) d in
      let out' : has z (a ++ b) ≡ false = rw is at out in ground (arith, has-append z a b)
  | inr other ↦
      let there : has z a ≡ true = ground arith in nodup-apart z a b (nodup-tail x (a ++ b) d) there
]

pub nodup-apart_left :
    (z : ℕ) (a b : List ℕ) → nodup (a ++ b) ≡ true → has z b ≡ true → has z a ≡ false
nodup-apart_left z a b d h = elim (Bool-cases (has z a)) [
  | inr out ↦ out
  | inl there ↦ absurd (ground (arith, h, nodup-apart z a b d there))
]

pub has-apart : (x z : ℕ) (l : List ℕ) → has x l ≡ false → has z l ≡ true → (z == x) ≡ false
has-apart x z l out h = elim (Bool-cases (z == x)) [
  | inr apart ↦ apart
  | inl same ↦
      let is : z ≡ x = ground arith in let h' : has x l ≡ true = rw is at h in absurd (ground arith)
]

pub nodup-right : (a b : List ℕ) → nodup (a ++ b) ≡ true → nodup b ≡ true
nodup-right [] b d = d
nodup-right (x ∷ a) b d = nodup-right a b (nodup-tail x (a ++ b) d)

pub nodup-left : (a b : List ℕ) → nodup (a ++ b) ≡ true → nodup a ≡ true
nodup-left [] b d = refl
nodup-left (x ∷ a) b d =
    ground
      (arith, has-append x a b, nodup-head x (a ++ b) d, nodup-left a b (nodup-tail x (a ++ b) d))
