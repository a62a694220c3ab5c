-- ===== src/Links/Walk.antt =====
-- lib/linked_list.h: `linked_list_size` and `linked_list_clear`.
use pennos.Base.{
  ℕ, zero, suc, ◌+◌, ◌≤◌, ◌≡◌, refl, ap, ◌∙◌, true, false, Bool, List, [], ◌∷◌, Option, none, some,
  arith, ◌==◌, has, update, length, if◌then◌else◌, Bool-cases, inl, inr,
}
use pennos.Base.Run.{ok}
use pennos.Base.Returns
use pennos.Base.Returns.{Returns, returns}
use pennos.Sched.Queue.Lists.{nodup}
use pennos.Links.{
  Node, Store, detach, call_dtor, set_prev, set_next, set_head, set_tail, clear_from,
  linked_list_clear, count_from, linked_list_size,
}
use pennos.Links.Cut.{has-apart}
use pennos.Links.Segment.{Segment, Represents, first_or, nodup-head, nodup-tail}

count_from-ok :
    (s : Store) (rounds count : ℕ) (p : Option ℕ) (l : List ℕ)
    → Segment s.node p l none
    → length l ≤ rounds
    → count_from rounds (first_or l none) count s ≡ ok (count + length l) s
unfolding count_from
count_from-ok s rounds count p [] seg enough =
    let sum : count + 0 ≡ count = omega arith in rw sum refl
count_from-ok s zero count p (x ∷ l) seg enough = absurd (omega arith)
count_from-ok s (suc rounds) count p (x ∷ l) (prev, next, rest) enough =
    let sum : count + 1 + length l ≡ count + suc (length l) = omega arith in
    ap (λ q. count_from rounds q (count + 1) s) next
    ∙ count_from-ok s rounds (count + 1) (some x) l rest (omega arith)
    ∙ ap (λ n. ok n s) sum

-- `linked_list_size` ends, returns the length of the sequence that the list represents, and changes
-- nothing. One round for each node is enough.
pub linked_list_size-length :
    (s : Store) (l : List ℕ) (rounds : ℕ)
    → Represents s l
    → length l ≤ rounds
    → linked_list_size rounds s ≡ ok (length l) s
unfolding linked_list_size
linked_list_size-length s l rounds r enough =
    let sum : 0 + length l ≡ length l = omega arith in
    ap (λ p. count_from rounds p 0 s) r.head
    ∙ count_from-ok s rounds 0 none l r.links enough
    ∙ ap (λ n. ok n s) sum

-- After `clear_from` the nodes of `l` have no neighbours, and the others are as before.
record Cleared (s : Store) (l : List ℕ) (t : Store) : Type 0 where
  head : t.head ≡ s.head
  tail : t.tail ≡ s.tail
  inside : (x : ℕ) → has x l ≡ true → t.node x ≡ record { prev = none; next = none }
  outside : (x : ℕ) → has x l ≡ false → t.node x ≡ s.node x

Cleared-destroyed :
    (s : Store) (x : ℕ) (l : List ℕ) (t : Store) (c : Bool)
    → Cleared s l t
    → Cleared s l (if c then record t { destroyed = x ∷ t.destroyed } else t)
Cleared-destroyed s x l t true r = record {
  head = r.head;
  tail = r.tail;
  inside = r.inside;
  outside = r.outside;
}
Cleared-destroyed s x l t false r = r

Segment-agree :
    (node node' : ℕ → Node) (p n : Option ℕ) (l : List ℕ)
    → ((y : ℕ) → has y l ≡ true → node' y ≡ node y)
    → Segment node p l n
    → Segment node' p l n
Segment-agree node node' p n [] same s = tt
Segment-agree node node' p n (x ∷ l) same (prev, next, rest) =
    let self : has x (x ∷ l) ≡ true = ground arith in
    (
      ap (λ v. v.prev) (same x self) ∙ prev,
      ap (λ v. v.next) (same x self) ∙ next,
      Segment-agree node node' (some x) n l (λ y h. same y (ground arith)) rest,
    )

detach-Cleared : (s : Store) (x : ℕ) → Returns (λ _ t. Cleared s (x ∷ []) t) (detach x s)
unfolding detach set_prev set_next call_dtor
detach-Cleared s x =
    let v1 : Node = record (s.node x) { prev = none } in
    let n1 = update s.node x v1 in
    let v2 : Node = record (n1 x) { next = none } in
    let self : (x == x) ≡ true = ground arith in
    returns (
      Cleared-destroyed s x (x ∷ []) (record s { node = update n1 x v2 }) s.has_dtor
        (record {
          head = refl;
          tail = refl;
          inside = λ y h. let is : y ≡ x = ground arith in rw is (rw self refl);
          outside = λ y h. let apart : (x == y) ≡ false = ground arith in rw apart refl;
        }))

clear_from-Cleared :
    (rounds : ℕ) (s : Store) (p : Option ℕ) (l : List ℕ)
    → Segment s.node p l none
    → nodup l ≡ true
    → length l ≤ rounds
    → Returns (λ _ t. Cleared s l t) (clear_from rounds (first_or l none) s)
unfolding clear_from
clear_from-Cleared rounds s p [] seg d enough = returns (record {
  head = refl;
  tail = refl;
  inside = λ x h. absurd (ground arith);
  outside = λ x h. refl;
})
clear_from-Cleared zero s p (x ∷ l) seg d enough = absurd (omega arith)
clear_from-Cleared (suc rounds) s p (x ∷ l) (prev, next, rest) d enough =
    let out = nodup-head x l d in
    Returns.bind (detach-Cleared s x) λ _ t c.
      let agree : (y : ℕ) → has y l ≡ true → t.node y ≡ s.node y =
        λ y h. let apart = has-apart x y l out h in c.outside y (rw apart refl) in
      let rest' = Segment-agree s.node t.node (some x) none l agree rest in
      rw next (
        Returns.mono (clear_from-Cleared rounds t (some x) l rest' (nodup-tail x l d) (omega arith))
          λ _ u c'. record {
            head = c'.head ∙ c.head;
            tail = c'.tail ∙ c.tail;
            inside = λ y h. elim (Bool-cases (has y l)) [
              | inl later ↦ c'.inside y later
              | inr not_later ↦
                  let here : has y (x ∷ []) ≡ true = ground arith in
                  c'.outside y not_later ∙ c.inside y here
            ];
            outside = λ y h. c'.outside y (ground arith) ∙ c.outside y (ground arith);
          })

-- `linked_list_clear` ends and leaves the empty list; no node of the old sequence has a neighbour
-- any more, and all other nodes are as before. One round for each node is enough.
pub linked_list_clear-Cleared :
    (s : Store) (l : List ℕ) (rounds : ℕ)
    → Represents s l
    → length l ≤ rounds
    → Returns
        (λ _ t.
          Represents t []
          × ((x : ℕ) → has x l ≡ true → t.node x ≡ record { prev = none; next = none })
          × ((x : ℕ) → has x l ≡ false → t.node x ≡ s.node x))
        (linked_list_clear rounds s)
unfolding linked_list_clear set_head set_tail
linked_list_clear-Cleared s l rounds r enough =
    let s' : Store = record s { head = none; tail = none } in
    rw (ap (λ p. clear_from rounds p s') r.head) (
      Returns.mono (clear_from-Cleared rounds s' none l r.links r.distinct enough) λ _ t c.
        (record { head = c.head; tail = c.tail; links = tt; distinct = refl }, c.inside, c.outside))
