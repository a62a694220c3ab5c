-- ===== src/Links/Remove.antt =====
-- lib/linked_list.h: `linked_list_remove`, and the macros that pop an end of the list.
use pennos.Base.{
  ℕ, ◌≡◌, refl, ap, sym, subst, ◌∙◌, true, false, Bool, List, [], ◌∷◌, ◌++◌, Option, none, some,
  arith, ◌==◌, has, update, if◌then◌else◌,
}
use pennos.Base.Returns
use pennos.Base.Returns.{Returns, returns}
use pennos.Sched.Queue.{erase}
use pennos.Sched.Queue.Lists.{nodup, nodup-erase}
use pennos.Links.{
  Node, Store, is_at, not_at, unlink_next, unlink_prev, call_dtor, detach, linked_list_remove,
  set_prev, set_next, set_head, set_tail, remove_end, linked_list_pop_head,
}
use pennos.Links.Push.{last_or-some}
use pennos.Links.Cut.{cut, nodup-apart, nodup-apart_left, has-apart, nodup-right, nodup-left}
use pennos.Links.Segment.{
  Segment, Represents, first_or, last_or, first_or-append, last_or-append, last_or-has,
  Segment-join, Segment-split, Segment-frame, Segment-set_prev, Segment-set_next,
}

-- The two sides of `x` while it is taken out: `a` goes on with `n` and `b` comes after `p`.
record Sides (x : ℕ) (a b : List ℕ) (n p first last : Option ℕ) (t : Store) : Type 0 where
  prev : (t.node x).prev ≡ last_or a none
  next : (t.node x).next ≡ first_or b none
  front : Segment t.node none a n
  back : Segment t.node p b none
  head : t.head ≡ first
  tail : t.tail ≡ last

-- What `ele_dtor` is called on does not matter.
Represents-destroyed :
    (x : ℕ) (t : Store) (l : List ℕ) (c : Bool)
    → Represents t l
    → Represents (if c then record t { destroyed = x ∷ t.destroyed } else t) l
Represents-destroyed x t l true r = record {
  head = r.head;
  tail = r.tail;
  links = r.links;
  distinct = r.distinct;
}
Represents-destroyed x t l false r = r

module _ (x : ℕ) where
  sides :
      (s : Store) (a b : List ℕ)
      → Represents s (a ++ x ∷ b)
      → Sides x a b (some x) (some x) (first_or a (some x)) (last_or b (some x)) s
  sides s a b r =
      let (front, (prev, next, back)) = Segment-split s.node none none a (x ∷ b) r.links in
      record {
        prev = prev;
        next = next;
        front = front;
        back = back;
        head = r.head ∙ first_or-append a (x ∷ b) none;
        tail = r.tail ∙ last_or-append a (x ∷ b) none;
      }

  unlink_next-Sides :
      (s : Store) (a b : List ℕ) (first : Option ℕ)
      → nodup (a ++ b) ≡ true
      → has x b ≡ false
      → Sides x a b (some x) (some x) first (last_or b (some x)) s
      → Returns
          (λ _ t. Sides x a b (some x) (last_or a none) first (last_or b (last_or a none)) t)
          (unlink_next x (s.node x).prev (s.node x).next s)
  unfolding unlink_next set_prev set_tail
  unlink_next-Sides s a [] first d out c =
      let self : (x == x) ≡ true = ground arith in
      let passes : is_at s.tail x ≡ true = ap (λ q. is_at q x) c.tail ∙ self in
      let before = last_or a none in
      let run : unlink_next x (s.node x).prev (s.node x).next s ≡ unlink_next x before none s =
        ap (λ q. unlink_next x (s.node x).prev q s) c.next
        ∙ ap (λ q. unlink_next x q none s) c.prev in
      rw run (
        rw passes (
          returns (record {
            prev = c.prev;
            next = c.next;
            front = c.front;
            back = tt;
            head = c.head;
            tail = refl;
          })))
  unlink_next-Sides s a (y ∷ b) first d out c =
      let before = last_or a none in
      let (z, is) = last_or-some y b (some x) in
      let apart : (z == x) ≡ false = has-apart x z (y ∷ b) out (last_or-has y z b (some x) is) in
      let passes : not_at s.tail x ≡ true = ap (λ q. not_at q x) (c.tail ∙ is) ∙ rw apart refl in
      let run : unlink_next x (s.node x).prev (s.node x).next s ≡ unlink_next x before (some y) s =
        ap (λ q. unlink_next x (s.node x).prev q s) c.next
        ∙ ap (λ q. unlink_next x q (some y) s) c.prev in
      let v : Node = record (s.node y) { prev = before } in
      let other : (y == x) ≡ false = ground (arith, out) in
      let behind : nodup (y ∷ b) ≡ true = nodup-right a (y ∷ b) d in
      let y_out : has y a ≡ false = nodup-apart_left y a (y ∷ b) d (ground arith) in
      rw run (
        rw passes (
          returns (record {
            prev = rw other c.prev;
            next = rw other c.next;
            front = Segment-frame s.node y v none (some x) a y_out c.front;
            back = Segment-set_prev s.node y (some x) before none b behind c.back;
            head = c.head;
            tail = c.tail;
          })))

  unlink_prev-Sides :
      (s : Store) (a b : List ℕ) (last : Option ℕ)
      → nodup (a ++ b) ≡ true
      → has x a ≡ false
      → Sides x a b (some x) (last_or a none) (first_or a (some x)) last s
      → Returns
          (λ _ t.
            Sides x a b (first_or b none) (last_or a none) (first_or a (first_or b none)) last t)
          (unlink_prev x (s.node x).prev (s.node x).next s)
  unfolding unlink_prev set_next set_head
  unlink_prev-Sides s [] b last d out c =
      let self : (x == x) ≡ true = ground arith in
      let passes : is_at s.head x ≡ true = ap (λ q. is_at q x) c.head ∙ self in
      let after = first_or b none in
      let run : unlink_prev x (s.node x).prev (s.node x).next s ≡ unlink_prev x none after s =
        ap (λ q. unlink_prev x (s.node x).prev q s) c.next
        ∙ ap (λ q. unlink_prev x q after s) c.prev in
      rw run (
        rw passes (
          returns (record {
            prev = c.prev;
            next = c.next;
            front = tt;
            back = c.back;
            head = refl;
            tail = c.tail;
          })))
  unlink_prev-Sides s (w ∷ a) b last d out c =
      let after = first_or b none in
      let (z, is) = last_or-some w a none in
      let apart : (w == x) ≡ false = ground (arith, out) in
      let passes : not_at s.head x ≡ true = ap (λ q. not_at q x) c.head ∙ rw apart refl in
      let run : unlink_prev x (s.node x).prev (s.node x).next s ≡ unlink_prev x (some z) after s =
        ap (λ q. unlink_prev x (s.node x).prev q s) c.next
        ∙ ap (λ q. unlink_prev x q after s) (c.prev ∙ is) in
      let v : Node = record (s.node z) { next = after } in
      let there = last_or-has w z a none is in
      let other = has-apart x z (w ∷ a) out there in
      let before = nodup-left (w ∷ a) b d in
      let z_out = nodup-apart z (w ∷ a) b d there in
      rw run (
        rw passes (
          returns (record {
            prev = rw other c.prev;
            next = rw other c.next;
            front = Segment-set_next s.node w z none (some x) after a before is c.front;
            back = Segment-frame s.node z v (last_or (w ∷ a) none) none b z_out c.back;
            head = c.head;
            tail = c.tail;
          })))

  unlinked-Represents :
      (s : Store) (a b : List ℕ)
      → nodup (a ++ b) ≡ true
      → has x a ≡ false
      → has x b ≡ false
      → Sides x a b
          (first_or b none)
          (last_or a none)
          (first_or a (first_or b none))
          (last_or b (last_or a none))
          s
      → Returns (λ _ t. Represents t (a ++ b)) (detach x s)
  unfolding detach set_prev set_next call_dtor
  unlinked-Represents s a b d out_a out_b c =
      let v1 : Node = record (s.node x) { prev = none } in
      let n1 = update s.node x v1 in
      let v2 : Node = record (n1 x) { next = none } in
      let before = first_or b none in
      let front =
        Segment-frame n1 x v2 none before a out_a
          (Segment-frame s.node x v1 none before a out_a c.front) in
      let behind = last_or a none in
      let back =
        Segment-frame n1 x v2 behind none b out_b
          (Segment-frame s.node x v1 behind none b out_b c.back) in
      let r : Represents (record s { node = update n1 x v2 }) (a ++ b) = record {
        head = c.head ∙ sym (first_or-append a b none);
        tail = c.tail ∙ sym (last_or-append a b none);
        links = Segment-join (update n1 x v2) none none a b front back;
        distinct = d;
      } in
      returns (Represents-destroyed x _ (a ++ b) s.has_dtor r)

-- `linked_list_remove` of a node of the list does not fail an assertion; the list then represents the
-- sequence without the node.
pub remove-Represents :
    (s : Store) (x : ℕ) (l : List ℕ)
    → Represents s l
    → has x l ≡ true
    → Returns (λ _ t. Represents t (erase x l)) (linked_list_remove x s)
unfolding linked_list_remove
remove-Represents s x l r here =
    let (a, b, c) = cut x l here r.distinct in
    let d : nodup (a ++ b) ≡ true =
      subst (λ m. nodup m ≡ true) c.erased (nodup-erase x l r.distinct) in
    let start = sides x s a b (subst (λ m. Represents s m) c.is r) in
    subst (λ m. Returns (λ _ t. Represents t m) (linked_list_remove x s)) (sym c.erased)
      (Returns.bind (unlink_next-Sides x s a b (first_or a (some x)) d c.not_behind start)
        λ _ t mid.
          Returns.bind (unlink_prev-Sides x t a b (last_or b (last_or a none)) d c.not_before mid)
            λ _ u end. unlinked-Represents x u a b d c.not_before c.not_behind end)

-- `linked_list_pop_head` gives the first node, or null if there is none, and leaves the rest.
pub pop_head-Represents :
    (s : Store)
    → (Represents s [] → Returns (λ r t. (r ≡ none) × Represents t []) (linked_list_pop_head s))
      × ((x : ℕ) (l : List ℕ)
          → Represents s (x ∷ l)
          → Returns (λ r t. (r ≡ some x) × Represents t l) (linked_list_pop_head s))
unfolding linked_list_pop_head remove_end
pop_head-Represents s = (
  λ r. rw (ap (λ p. remove_end p s) r.head) (returns (refl, r)),
  λ x l r.
      let self : (x == x) ≡ true = ground arith in
      let rest : erase x (x ∷ l) ≡ l = rw self refl in
      let there : has x (x ∷ l) ≡ true = rw self refl in
      rw (ap (λ p. remove_end p s) r.head) (
        Returns.bind (remove-Represents s x (x ∷ l) r there)
          λ _ t r'. returns (refl, subst (λ m. Represents t m) rest r')),
)
