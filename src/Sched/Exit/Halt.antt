-- ===== src/Sched/Exit/Halt.antt =====
-- src/scheduler/scheduler.c: a process that stops.
use pennos.Base.{ℕ, ◌≡◌, refl, ◌≢◌, true, false, ◌∷◌, arith, has, pos}
use pennos.Base.Returns
use pennos.Base.Returns.{Returns, returns, deref-Returns}
use pennos.Sched.State.{
  ProcessState, running, blocked, stopped, zombied, Pcb, Queue, stopped_queue, queue_eq, Scheduler,
  set_queue, set_pcb, write_pcb, write_log, log_stopped,
}
use pennos.Sched.Queue.{erase}
use pennos.Sched.Queue.Invariant.{
  home, Placed, PlacedBut, PlacedBut-erase, Placed-log, not_elsewhere,
}
use pennos.Sched.Move.{stop_process, is_stopped}
use pennos.Sched.Move.Placed.{push_tail-Moved}
use pennos.Sched.Exit.{k_stop_process}
use pennos.Sched.Exit.Wake.{k_remove_from_active_queue-found, unblock_parents-Placed}
use pennos.Sched.Exit.Wake.{IsActive}

is_stopped-false : (st : ProcessState) → st ≢ stopped → is_stopped st ≡ false
is_stopped-false running h = refl
is_stopped-false blocked h = refl
is_stopped-false zombied h = refl
is_stopped-false stopped h = absurd (h refl)

-- The control block may also be written behind the removal.
PlacedBut-erase_then :
    (s : Scheduler) (pid : ℕ) (q : Queue) (p : Pcb)
    → Placed s
    → has pid (s.queue q) ≡ true
    → PlacedBut pid (set_pcb (set_queue s q (erase pid (s.queue q))) pid p)
PlacedBut-erase_then s pid q p v here =
    let b = PlacedBut-erase s pid q p v here in
    record { homes = b.homes; distinct = b.distinct; away = b.away }

module _ (s : Scheduler) (pid : ℕ) (v : Placed s) where
  -- `k_stop_process` on an active process that is not stopped returns 0 and leaves it stopped, in the
  -- stopped queue, with all processes in their home queues.
  -- Before the call all processes must be in their home queues.
  pub k_stop_process-Placed :
      IsActive s pid
      → (s.pcb pid).state ≢ stopped
      → Returns
          (λ r t.
            (r ≡ pos 0)
            × Placed t
            × ((t.pcb pid).state ≡ stopped)
            × (has pid (t.queue stopped_queue) ≡ true))
          (k_stop_process pid s)
  unfolding k_stop_process stop_process write_log write_pcb
  k_stop_process-Placed a not_stopped =
      let q = home (s.pcb pid) in
      let u : Scheduler = record s { log = log_stopped pid ∷ s.log } in
      let p : Pcb = record (s.pcb pid) { state = stopped } in
      let goes_on : is_stopped (s.pcb pid).state ≡ false = is_stopped-false _ not_stopped in
      let there : (r : Queue) → queue_eq q r ≡ false → has pid (s.queue r) ≡ false =
        λ r ne. not_elsewhere s pid q r v a.queued ne in
      let w : Scheduler = set_pcb (set_queue u q (erase pid (s.queue q))) pid p in
      let out : PlacedBut pid w = PlacedBut-erase_then u pid q p (Placed-log _ v) a.queued in
      rw (goes_on, k_remove_from_active_queue-found u pid q a.queued there a.not_zombie)
        (Returns.bind
          (push_tail-Moved s pid w stopped_queue out (ground arith) (λ i ne. ground arith))
          λ _ t (moved, is).
            let now : (t.pcb pid).state ≡ stopped = rw is (ground arith) in
            Returns.bind (unblock_parents-Placed t pid moved.placed) λ _ t' (v', spared, same).
              returns (
                refl,
                v',
                rw (same pid (λ e. let e' : stopped ≡ blocked = rw now at e in ground arith)) now,
                rw spared.stoppeds moved.here,
              ))
