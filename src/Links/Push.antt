-- ===== src/Links/Push.antt =====
-- lib/linked_list.h: `linked_list_push_head` and `linked_list_push_tail`.
use pennos.Base.{
  ℕ, ◌≡◌, refl, ap, sym, ◌∙◌, true, false, List, [], ◌∷◌, ◌++◌, Option, none, some, arith, ◌==◌,
  has, update,
}
use pennos.Base.Returns.{Returns, returns}
use pennos.Sched.Queue.Lists.{nodup-append_one}
use pennos.Links.{
  Node, Store, push_first, push_before, push_behind, linked_list_push_head, linked_list_push_tail,
  set_prev, set_next, set_head, set_tail,
}
use pennos.Links.Segment.{
  Represents, last_or, last_or-append, Segment-join, Segment-frame, Segment-set_prev,
  Segment-set_next,
}

pub last_or-some : (x : ℕ) (l : List ℕ) (p : Option ℕ) → (z : ℕ) × (last_or (x ∷ l) p ≡ some z)
last_or-some x [] p = (x, refl)
last_or-some x (y ∷ l) p = last_or-some y l (some x)

module _ (s : Store) (x : ℕ) where
  push_first-Represents : Returns (λ _ t. Represents t (x ∷ [])) (push_first x s)
  unfolding push_first set_prev set_next set_head set_tail
  push_first-Represents =
      let self : (x == x) ≡ true = ground arith in
      returns
        (record { head = refl; tail = refl; links = rw self (refl, refl, tt); distinct = refl })

  -- `linked_list_push_head` of a new node puts it in front of the sequence that the list represents.
  pub push_head-Represents :
      (l : List ℕ)
      → Represents s l
      → has x l ≡ false
      → Returns (λ _ t. Represents t (x ∷ l)) (linked_list_push_head x s)
  unfolding linked_list_push_head push_before set_prev set_next set_head
  push_head-Represents [] r new = rw (ap (λ h. push_before x h s) r.head) push_first-Represents
  push_head-Represents (y ∷ l) r new =
      let self : (x == x) ≡ true = ground arith in
      let before = Segment-set_prev s.node y none (some x) none l r.distinct r.links in
      let n1 = update s.node y (record (s.node y) { prev = some x }) in
      let v2 : Node = record (n1 x) { next = some y } in
      let n2 = update n1 x v2 in
      let v3 : Node = record (n2 x) { prev = none } in
      let rest =
        Segment-frame n2 x v3 (some x) none (y ∷ l) new
          (Segment-frame n1 x v2 (some x) none (y ∷ l) new before) in
      rw (ap (λ h. push_before x h s) r.head) (
        returns (record {
          head = refl;
          tail = r.tail;
          links = (rw self refl, rw self refl, rest);
          distinct = ground (arith, r.distinct);
        }))

  -- `linked_list_push_tail` of a new node puts it behind the sequence that the list represents.
  pub push_tail-Represents :
      (l : List ℕ)
      → Represents s l
      → has x l ≡ false
      → Returns (λ _ t. Represents t (l ++ x ∷ [])) (linked_list_push_tail x s)
  unfolding linked_list_push_tail push_behind set_prev set_next set_tail
  push_tail-Represents [] r new =
      rw (ap (λ h. push_behind x h s.tail s) r.head) push_first-Represents
  push_tail-Represents (y ∷ l) r new =
      let (z, is) = last_or-some y l none in
      let start : linked_list_push_tail x s ≡ push_behind x (some y) (some z) s =
        ap (λ h. push_behind x h s.tail s) r.head
        ∙ ap (λ t. push_behind x (some y) t s) (r.tail ∙ is) in
      let self : (x == x) ≡ true = ground arith in
      let before = Segment-set_next s.node y z none none (some x) l r.distinct is r.links in
      let n1 = update s.node z (record (s.node z) { next = some x }) in
      let v2 : Node = record (n1 x) { prev = some z } in
      let n2 = update n1 x v2 in
      let v3 : Node = record (n2 x) { next = none } in
      let front =
        Segment-frame n2 x v3 none (some x) (y ∷ l) new
          (Segment-frame n1 x v2 none (some x) (y ∷ l) new before) in
      rw start (
        returns (record {
          head = r.head;
          tail = sym (last_or-append (y ∷ l) (x ∷ []) none);
          links =
              Segment-join (update n2 x v3) none none (y ∷ l) (x ∷ []) front
                (rw self (sym is), rw self refl, tt);
          distinct = nodup-append_one x (y ∷ l) r.distinct new;
        }))
