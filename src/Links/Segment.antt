-- ===== src/Links/Segment.antt =====
-- lib/linked_list.h: when the nodes of a store are linked as a sequence.
use pennos.Base.{
  ℕ, ◌≡◌, refl, sym, ◌∙◌, true, false, List, [], ◌∷◌, ◌++◌, Option, none, some, arith, ◌==◌, has,
  update, Bool-cases, inl, inr,
}
use pennos.Sched.Queue.Lists.{nodup}
use pennos.Links.{Node, Store}

-- The first element of a list that goes on with `n`, and the last one of a list that comes after `p`.
abbrev pub first_or : List ℕ → Option ℕ → Option ℕ
first_or [] n = n
first_or (x ∷ xs) n = some x

abbrev pub last_or : List ℕ → Option ℕ → Option ℕ
last_or [] p = p
last_or (x ∷ xs) p = last_or xs (some x)

-- The nodes of `l` are linked in this order, between `p` and `n`.
abbrev pub Segment : (ℕ → Node) → Option ℕ → List ℕ → Option ℕ → Type 0
Segment node p [] n = Unit
Segment node p (x ∷ l) n =
    ((node x).prev ≡ p) × ((node x).next ≡ first_or l n) × Segment node (some x) l n

-- A store represents a sequence of distinct nodes.
pub record Represents (s : Store) (l : List ℕ) : Type 0 where
  pub head : s.head ≡ first_or l none
  pub tail : s.tail ≡ last_or l none
  pub links : Segment s.node none l none
  pub distinct : nodup l ≡ true

pub first_or-append :
    (a b : List ℕ) (n : Option ℕ) → first_or (a ++ b) n ≡ first_or a (first_or b n)
first_or-append [] b n = refl
first_or-append (x ∷ a) b n = refl

pub last_or-append : (a b : List ℕ) (p : Option ℕ) → last_or (a ++ b) p ≡ last_or b (last_or a p)
last_or-append [] b p = refl
last_or-append (x ∷ a) b p = last_or-append a b (some x)

module _ (node : ℕ → Node) where
  pub Segment-split :
      (p n : Option ℕ) (a b : List ℕ)
      → Segment node p (a ++ b) n
      → Segment node p a (first_or b n) × Segment node (last_or a p) b n
  Segment-split p n [] b s = (tt, s)
  Segment-split p n (x ∷ a) b (prev, next, rest) =
      let (front, back) = Segment-split (some x) n a b rest in
      ((prev, next ∙ first_or-append a b n, front), back)

  pub Segment-join :
      (p n : Option ℕ) (a b : List ℕ)
      → Segment node p a (first_or b n)
      → Segment node (last_or a p) b n
      → Segment node p (a ++ b) n
  Segment-join p n [] b _ s = s
  Segment-join p n (x ∷ a) b (prev, next, front) back =
      (prev, next ∙ sym (first_or-append a b n), Segment-join (some x) n a b front back)

  -- Nodes outside the segment do not matter.
  pub Segment-frame :
      (y : ℕ) (v : Node) (p n : Option ℕ) (l : List ℕ)
      → has y l ≡ false
      → Segment node p l n
      → Segment (update node y v) p l n
  Segment-frame y v p n [] h s = tt
  Segment-frame y v p n (x ∷ l) h (prev, next, rest) =
      let apart : (y == x) ≡ false = ground arith in
      (rw apart prev, rw apart next, Segment-frame y v (some x) n l (ground arith) rest)

pub nodup-head : (x : ℕ) (l : List ℕ) → nodup (x ∷ l) ≡ true → has x l ≡ false
nodup-head x l d = ground arith

pub nodup-tail : (x : ℕ) (l : List ℕ) → nodup (x ∷ l) ≡ true → nodup l ≡ true
nodup-tail x l d = ground arith

-- An element behind the first is another one.
apart-has : (x z : ℕ) (l : List ℕ) → nodup (x ∷ l) ≡ true → has z l ≡ true → (z == x) ≡ false
apart-has x z l d h = elim (Bool-cases (z == x)) [
  | inr apart ↦ apart
  | inl same ↦
      let is : z ≡ x = ground arith in
      let h' : has x l ≡ true = rw is at h in absurd (ground (arith, nodup-head x l d))
]

some-injective : {x z : ℕ} → some x ≡ some z → x ≡ z
some-injective h = cc

pub last_or-has :
    (x z : ℕ) (l : List ℕ) (p : Option ℕ) → last_or (x ∷ l) p ≡ some z → has z (x ∷ l) ≡ true
last_or-has x z [] p h = let is = some-injective h in ground arith
last_or-has x z (y ∷ l) p h = let there = last_or-has y z l (some x) h in ground arith

module _ (node : ℕ → Node) where
  -- The first node gets another predecessor.
  pub Segment-set_prev :
      (y : ℕ) (p p' n : Option ℕ) (l : List ℕ)
      → nodup (y ∷ l) ≡ true
      → Segment node p (y ∷ l) n
      → Segment (update node y (record (node y) { prev = p' })) p' (y ∷ l) n
  Segment-set_prev y p p' n l d (prev, next, rest) =
      let self : (y == y) ≡ true = ground arith in
      (
        rw self refl,
        rw self next,
        Segment-frame node y (record (node y) { prev = p' }) (some y) n l (ground arith) rest,
      )

  -- The last node gets another successor.
  pub Segment-set_next :
      (x z : ℕ) (p n n' : Option ℕ) (l : List ℕ)
      → nodup (x ∷ l) ≡ true
      → last_or (x ∷ l) p ≡ some z
      → Segment node p (x ∷ l) n
      → Segment (update node z (record (node z) { next = n' })) p (x ∷ l) n'
  Segment-set_next x z p n n' [] d is (prev, next, _) =
      let same : x ≡ z = some-injective is in
      let self : (z == z) ≡ true = ground arith in
      let prev' : (node z).prev ≡ p = rw same at prev in rw same (rw self (prev', refl, tt))
  Segment-set_next x z p n n' (y ∷ l) d is (prev, next, rest) =
      let there = last_or-has y z l (some x) is in
      let apart = apart-has x z (y ∷ l) d there in
      (
        rw apart prev,
        rw apart next,
        Segment-set_next y z (some x) n n' l (nodup-tail x (y ∷ l) d) is rest,
      )
