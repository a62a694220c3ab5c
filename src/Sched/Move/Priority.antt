-- ===== src/Sched/Move/Priority.antt =====
-- src/scheduler/scheduler.c: `k_set_priority`.
use pennos.Base.{
  ℕ, ◌≤◌, ◌≡◌, refl, ◌≢◌, false, not, ◌&&◌, ◌∙◌, arith, ◌==◌, if◌then◌else◌, pos, is_neg,
}
use pennos.Base.Returns
use pennos.Base.Returns.{Returns, returns}
use pennos.Base.Run.{and_then, pure}
use pennos.Sched.State.{Pcb, Queue, ready_queue, Scheduler, ok, set_queue, set_pcb, write_pcb}
use pennos.Sched.Queue.{erase}
use pennos.Sched.Queue.Invariant.{Placed, PlacedBut-erase, remove-ok}
use pennos.Sched.Move.{is_running, k_add_to_ready_queue, k_set_priority}
use pennos.Sched.Move.Placed.{Moved, IsReady, k_add_to_ready_queue-Moved}

module _ (s : Scheduler) (pid : ℕ) (v : Placed s) (priority : ℕ) (in_range : priority ≤ 2) where
  -- `k_set_priority` on a ready process with a new priority from 0 to 2 returns 0; the process is then at
  -- home in the ready queue of the new priority, and all processes are in their home queues.
  -- Before the call all processes must be in their home queues.
  pub k_set_priority-Moved :
      IsReady s pid
      → (s.pcb pid).priority ≢ priority
      → Returns
          (λ r t.
            (r ≡ pos 0)
            × Moved s pid (ready_queue priority) t
            × (t.pcb pid ≡ record (s.pcb pid) { priority = priority }))
          (k_set_priority pid (pos priority) s)
  k_set_priority-Moved r new = rw run (
      Returns.bind
        (k_add_to_ready_queue-Moved s pid w (PlacedBut-erase s pid q p v r.queued) (ground arith)
          (λ i ne. ground arith))
        λ z t (zero, moved, is).
          rw zero (returns (refl, rw self at moved, is ∙ ground (arith, r.is_running))))
    where
      p : Pcb
      p = record (s.pcb pid) { priority = priority }

      q : Queue
      q = ready_queue (s.pcb pid).priority

      w : Scheduler
      w = set_queue (set_pcb s pid p) q (erase pid (s.queue q))

      self : w.pcb pid ≡ p
      self = ground arith

      run :
          k_set_priority pid (pos priority) s
          ≡ and_then
              (k_add_to_ready_queue pid w)
              (λ status. pure (if is_neg status then status else pos 0))
      run =
          unfold k_set_priority write_pcb in
          ground (arith, r.is_running, r.queued, remove-ok (set_pcb s pid p) pid q r.queued)

  -- On a process that is not ready, or has that priority already, `k_set_priority` returns 0 and changes
  -- the priority alone.
  pub k_set_priority-field :
      (is_running (s.pcb pid).state && not ((s.pcb pid).priority == priority)) ≡ false
      → k_set_priority pid (pos priority) s
        ≡ ok (pos 0) (set_pcb s pid (record (s.pcb pid) { priority = priority }))
  unfolding k_set_priority write_pcb
  k_set_priority-field stays = ground (arith, stays)
