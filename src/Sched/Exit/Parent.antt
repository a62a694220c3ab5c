-- ===== src/Sched/Exit/Parent.antt =====
-- src/scheduler/scheduler.c: the parent that waits for a process which ends or stops.
use pennos.Base.{
  ℕ, ◌≡◌, refl, ◌≢◌, true, false, List, [], ◌∷◌, some, arith, ◌==◌, has, Bool-cases, inl, inr,
}
use pennos.Base.Returns
use pennos.Base.Returns.{Returns, returns}
use pennos.Sched.State.{running, blocked_queue, ready_queue, Scheduler}
use pennos.Sched.Queue.Invariant.{Placed}
use pennos.Sched.Move.Placed.{unblock_process-Moved}
use pennos.Sched.Exit.{waits_for, first_waiter, wake, unblock_parents}

first_waiter-only :
    (s : Scheduler) (pid w : ℕ) (l : List ℕ)
    → has w l ≡ true
    → waits_for s w pid ≡ true
    → ((v : ℕ) → has v l ≡ true → v ≢ w → waits_for s v pid ≡ false)
    → first_waiter s pid l ≡ some w
unfolding first_waiter
first_waiter-only s pid w [] here waits only = cc
first_waiter-only s pid w (x ∷ l) here waits only = elim (Bool-cases (x == w)) [
  | inl is ↦ let same : x ≡ w = ground arith in rw same (rw waits refl)
  | inr is_not ↦
      let ne : x ≢ w = ground arith in
      let not_x : waits_for s x pid ≡ false = only x (ground arith) ne in
      let there : has w l ≡ true = ground arith in
      rw not_x (first_waiter-only s pid w l there waits λ v h. only v (ground arith))
]

-- A blocked process that alone waits for `pid`, or for any child with `pid` among its children, is made
-- running by `unblock_parents` and put into its ready queue, with all processes in their home queues;
-- the other processes' control blocks stay as they were.
-- Before the call all processes must be in their home queues.
pub unblock_parents-wakes :
    (s : Scheduler) (pid w : ℕ)
    → Placed s
    → has w (s.queue blocked_queue) ≡ true
    → waits_for s w pid ≡ true
    → ((v : ℕ) → has v (s.queue blocked_queue) ≡ true → v ≢ w → waits_for s v pid ≡ false)
    → Returns
        (λ _ t.
          Placed t
          × ((t.pcb w).state ≡ running)
          × (has w (t.queue (ready_queue (s.pcb w).priority)) ≡ true)
          × ((p : ℕ) → p ≢ w → t.pcb p ≡ s.pcb p))
        (unblock_parents pid s)
unfolding unblock_parents wake
unblock_parents-wakes s pid w v here waits only =
    rw (first_waiter-only s pid w (s.queue blocked_queue) here waits only) (
      Returns.bind (unblock_process-Moved s w v here) λ _ t (moved, is). returns (
        record { homes = moved.placed.homes; distinct = moved.placed.distinct },
        rw is refl,
        moved.here,
        moved.others,
      ))
