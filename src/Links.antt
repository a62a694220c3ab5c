-- ===== src/Links.antt =====
-- lib/linked_list.h: the list macros, on nodes in a store. A node is named by a number, the null
-- pointer is `none`, and a failed assertion is a fault.
pub mod Segment
pub mod Push
pub mod Cut
pub mod Remove
pub mod Walk
use pennos.Base.{
  ℕ, zero, suc, ◌+◌, Bool, true, false, List, [], ◌∷◌, Option, none, some, ◌==◌, if◌then◌else◌,
  update,
}
use pennos.Base.Run.{Run, ok, fault, diverge, pure, ◌>>=◌, ◌>>◌, get, put, deref}

pub record Node : Type 0 where
  pub prev : Option ℕ
  pub next : Option ℕ

-- One list, and the nodes that its `ele_dtor` has been called on, the latest first.
pub record Store : Type 0 where
  pub node : ℕ → Node
  pub head : Option ℕ
  pub tail : Option ℕ
  pub has_dtor : Bool
  pub destroyed : List ℕ

abbrev pub Cmd : Type 0 → Type 0
Cmd A = Store → Run Store A

abbrev pub set_node : Store → ℕ → Node → Store
set_node s p n = record s { node = update s.node p n }

unfoldable pub set_prev : ℕ → Option ℕ → Cmd (Unit {0})
set_prev p q s = ok tt (set_node s p (record (s.node p) { prev = q }))

unfoldable pub set_next : ℕ → Option ℕ → Cmd (Unit {0})
set_next p q s = ok tt (set_node s p (record (s.node p) { next = q }))

unfoldable pub set_head : Option ℕ → Cmd (Unit {0})
set_head p s = ok tt (record s { head = p })

unfoldable pub set_tail : Option ℕ → Cmd (Unit {0})
set_tail p s = ok tt (record s { tail = p })

unfoldable pub push_first : ℕ → Cmd (Unit {0})
push_first ele = do set_head (some ele); set_tail (some ele); set_prev ele none; set_next ele none

unfoldable pub push_before : ℕ → Option ℕ → Cmd (Unit {0})
push_before ele none = push_first ele
push_before ele (some h) = do
  set_prev h (some ele)
  set_next ele (some h)
  set_prev ele none
  set_head (some ele)

unfoldable pub linked_list_push_head : ℕ → Cmd (Unit {0})
linked_list_push_head ele = do s ← get; push_before ele s.head

unfoldable pub push_behind : ℕ → (head tail : Option ℕ) → Cmd (Unit {0})
push_behind ele none tail = push_first ele
push_behind ele (some h) tail = do
  t ← deref tail
  set_next t (some ele)
  set_prev ele (some t)
  set_next ele none
  set_tail (some ele)

unfoldable pub linked_list_push_tail : ℕ → Cmd (Unit {0})
linked_list_push_tail ele = do s ← get; push_behind ele s.head s.tail

abbrev pub is_at : Option ℕ → ℕ → Bool
is_at none p = false
is_at (some q) p = q == p

-- `assert`.
abbrev pub check : Bool → Cmd (Unit {0})
check true = pure tt
check false = λ _. fault

abbrev pub not_at : Option ℕ → ℕ → Bool
not_at q p = if is_at q p then false else true

unfoldable pub unlink_next : ℕ → (prev next : Option ℕ) → Cmd (Unit {0})
unlink_next ele prev (some n) = do set_prev n prev; s ← get; check (not_at s.tail ele)
unlink_next ele prev none = do s ← get; check (is_at s.tail ele); set_tail prev

unfoldable pub unlink_prev : ℕ → (prev next : Option ℕ) → Cmd (Unit {0})
unlink_prev ele (some p) next = do set_next p next; s ← get; check (not_at s.head ele)
unlink_prev ele none next = do s ← get; check (is_at s.head ele); set_head next

unfoldable pub call_dtor : ℕ → Cmd (Unit {0})
call_dtor ele s = ok tt (if s.has_dtor then record s { destroyed = ele ∷ s.destroyed } else s)

unfoldable pub detach : ℕ → Cmd (Unit {0})
detach ele = do set_prev ele none; set_next ele none; call_dtor ele

-- The macro for a pointer that is not null.
unfoldable pub linked_list_remove : ℕ → Cmd (Unit {0})
linked_list_remove ele = do
  s ← get
  unlink_next ele (s.node ele).prev (s.node ele).next
  t ← get
  unlink_prev ele (t.node ele).prev (t.node ele).next
  detach ele

unfoldable pub remove_end : Option ℕ → Cmd (Option ℕ)
remove_end none = pure none
remove_end (some p) = do linked_list_remove p; pure (some p)

unfoldable pub linked_list_pop_head : Cmd (Option ℕ)
linked_list_pop_head = do s ← get; remove_end s.head

unfoldable pub linked_list_pop_tail : Cmd (Option ℕ)
linked_list_pop_tail = do s ← get; remove_end s.tail

-- The loops have one round for each node; a list that goes in a circle never ends.
unfoldable pub clear_from : (rounds : ℕ) → Option ℕ → Cmd (Unit {0})
clear_from rounds none = pure tt
clear_from zero (some p) = λ _. diverge
clear_from (suc rounds) (some p) = do s ← get; detach p; clear_from rounds (s.node p).next

unfoldable pub linked_list_clear : (rounds : ℕ) → Cmd (Unit {0})
linked_list_clear rounds = do s ← get; set_head none; set_tail none; clear_from rounds s.head

unfoldable pub count_from : (rounds : ℕ) → Option ℕ → (count : ℕ) → Cmd ℕ
count_from rounds none count = pure count
count_from zero (some p) count = λ _. diverge
count_from (suc rounds) (some p) count = do s ← get; count_from rounds (s.node p).next (count + 1)

unfoldable pub linked_list_size : (rounds : ℕ) → Cmd ℕ
linked_list_size rounds = do s ← get; count_from rounds s.head 0
