-- ===== src/Sched/Queue.antt =====
-- lib/linked_list.h at the level of sequences: the queues of the scheduler. The lists are intrusive,
-- so a process that is linked in some queue cannot be pushed again, and one that is not in a queue
-- cannot be taken out of it: where the macros would fail their assertions or tangle two lists, a
-- command here is a fault.
pub mod Lists
pub mod Invariant
use pennos.Base.{
  ℕ, Bool, true, false, ◌||◌, ◌&&◌, List, [], ◌∷◌, ◌++◌, Option, none, some, ◌==◌, if◌then◌else◌,
  has,
}
use pennos.Sched.State.{
  Scheduler, Queue, high, medium, low, blocked_queue, zombie_queue, stopped_queue, Cmd, ok, fault,
  set_queue, pure,
}

abbrev pub erase : ℕ → List ℕ → List ℕ
erase a [] = []
erase a (x ∷ xs) = if a == x then xs else x ∷ erase a xs

abbrev pub is_queued : Scheduler → ℕ → Bool
is_queued s pid =
    has pid (s.queue high)
    || has pid (s.queue medium)
    || has pid (s.queue low)
    || has pid (s.queue blocked_queue)
    || has pid (s.queue zombie_queue)
    || has pid (s.queue stopped_queue)

-- `linked_list_push_tail(queue, process)`.
unfoldable pub push_tail : Queue → ℕ → Cmd (Unit {0})
push_tail q pid s = if is_queued s pid then fault else ok tt (set_queue s q (s.queue q ++ pid ∷ []))

-- `linked_list_remove(queue, process)`.
unfoldable pub remove : Queue → ℕ → Cmd (Unit {0})
remove q pid s =
    if has pid (s.queue q) then ok tt (set_queue s q (erase pid (s.queue q))) else fault

-- `linked_list_head(queue)`.
abbrev pub head_of : List ℕ → Option ℕ
head_of [] = none
head_of (x ∷ xs) = some x

-- Popping the head and pushing it to the tail of the same queue.
abbrev pub rotated : List ℕ → List ℕ
rotated [] = []
rotated (x ∷ xs) = xs ++ x ∷ []

unfoldable pub rotate : Queue → Cmd (Unit {0})
rotate q s = ok tt (set_queue s q (rotated (s.queue q)))

abbrev pub remove_found : Queue → ℕ → Cmd Bool
remove_found q pid s = ok true (set_queue s q (erase pid (s.queue q)))

-- The queues that `k_remove_from_active_queue` searches, in its order; the result says whether the
-- process was found.
unfoldable pub k_remove_from_active_queue : ℕ → Cmd Bool
k_remove_from_active_queue pid s =
    if has pid (s.queue high)
    then remove_found high pid s
    else if has pid (s.queue medium)
    then remove_found medium pid s
    else if has pid (s.queue low)
    then remove_found low pid s
    else if has pid (s.queue blocked_queue)
    then remove_found blocked_queue pid s
    else if has pid (s.queue stopped_queue)
    then remove_found stopped_queue pid s
    else ok false s
