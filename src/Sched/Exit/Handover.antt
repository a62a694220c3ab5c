-- ===== src/Sched/Exit/Handover.antt =====
-- src/scheduler/scheduler.c: a process that ends, and the one that is suspended for it.
use pennos.Base.{
  ℕ, ◌≡◌, ◌≢◌, ap, ◌∙◌, true, false, not, ◌&&◌, ◌||◌, some, arith, ◌==◌, has, if◌then◌else◌, ℤ, pos,
  neg, eq_ℤ, Bool-cases, inl, inr,
}
use pennos.Base.Returns
use pennos.Base.Returns.{Returns, returns, deref-Returns}
use pennos.Sched.State.{running, Queue, blocked_queue, ready_queue, queue_eq, Scheduler}
use pennos.Sched.Queue.{erase}
use pennos.Sched.Queue.Lists.{has-erase}
use pennos.Sched.Queue.Invariant.{home, Placed, not_elsewhere, queue_eq-eq}
use pennos.Sched.Exit.{waits_for, k_proc_exit}
use pennos.Sched.Exit.Wake.{unblock_parents-Placed}
use pennos.Sched.Exit.Wake.{IsActive}
use pennos.Sched.Exit.Zombie.{zombified, zombified-Placed, k_proc_exit-by}
use pennos.Sched.Exit.Parent.{unblock_parents-wakes}

-- The blocked queue after `pid` has been taken out of queue `q`.
has-taken_out :
    (s : Scheduler) (pid v : ℕ) (q : Queue)
    → Placed s
    → has pid (s.queue q) ≡ true
    → has v (if queue_eq q blocked_queue then erase pid (s.queue q) else s.queue blocked_queue)
      ≡ (has v (s.queue blocked_queue) && not (v == pid))
has-taken_out s pid v q placed here = elim (Bool-cases (queue_eq q blocked_queue)) [
  | inl same ↦
      let is : q ≡ blocked_queue = queue_eq-eq q blocked_queue same in
      rw same (ground (arith, is, has-erase v pid (s.queue q) (placed.distinct q)))
  | inr other ↦
      let gone = not_elsewhere s pid q blocked_queue placed here other in
      rw other (ground (arith, gone))
]

waits_for_same :
    (s t : Scheduler) (v pid : ℕ) → t.pcb v ≡ s.pcb v → waits_for t v pid ≡ waits_for s v pid
unfolding waits_for
waits_for_same s t v pid e =
    ap (λ p. eq_ℤ p.waited_child (pos pid) || (eq_ℤ p.waited_child (neg 1) && has pid p.children)) e

module _ (s : Scheduler) (pid w : ℕ) (v : Placed s) where
  -- When an active process ends and exactly one other process is blocked that waits for it, that
  -- process is running again, and in its ready queue, when `k_proc_exit` returns. Init must exist and
  -- not be the one that ends, and some process be current.
  -- Before the call all processes must be in their home queues.
  pub k_proc_exit-wakes :
      (exit_status : ℤ) (init current : ℕ)
      → IsActive s pid
      → s.init_process ≡ some init
      → s.current_process ≡ some current
      → init ≢ pid
      → w ≢ pid
      → has w (s.queue blocked_queue) ≡ true
      → waits_for s w pid ≡ true
      → ((p : ℕ) → has p (s.queue blocked_queue) ≡ true → p ≢ w → waits_for s p pid ≡ false)
      → Returns
          (λ _ t.
            ((t.pcb w).state ≡ running) × (has w (t.queue (ready_queue (s.pcb w).priority)) ≡ true))
          (k_proc_exit pid exit_status s)
  k_proc_exit-wakes exit_status init current a has_init has_current other not_self waiting waits
        only =
      let q = home (s.pcb pid) in
      let z = zombified s pid exit_status in
      let placed = zombified-Placed s pid exit_status v a in
      let still : has w (z.queue blocked_queue) ≡ true =
        ground (arith, has-taken_out s pid w q v a.queued) in
      let same_w : z.pcb w ≡ s.pcb w = ground arith in
      let others : (i : ℕ)
          → has i (z.queue blocked_queue) ≡ true
          → i ≢ w
          → waits_for z i pid ≡ false =
        λ i h ne.
          let same : z.pcb i ≡ s.pcb i = ground (arith, has-taken_out s pid i q v a.queued) in
          let there : has i (s.queue blocked_queue) ≡ true =
            ground (arith, has-taken_out s pid i q v a.queued) in
          waits_for_same s z i pid same ∙ only i there ne in
      let Q : Scheduler → Type 0 = λ t.
        ((t.pcb w).state ≡ running) × (has w (t.queue (ready_queue (z.pcb w).priority)) ≡ true) in
      let woken =
        unblock_parents-wakes z pid w placed still (waits_for_same s z w pid same_w ∙ waits)
          others in
      Returns.mono
        (k_proc_exit-by s pid exit_status {Q = Q} init current v a has_init has_current other (
          Returns.mono (Returns.both woken (unblock_parents-Placed z pid placed))
            λ _ t ((_, now, there, _), (placed', spared, _)). ((now, there), placed', spared)))
        λ r t (_, _, t', (now, there), _, kept).
          (kept.state w ∙ now, rw kept.queue (rw same_w at there))
