-- ===== src/Sched/Move/Placed.antt =====
-- src/scheduler/scheduler.c: the calls that move a process, and the home queues.
use pennos.Base.{
  double_of, ℕ, ◌≤◌, ◌≡◌, refl, ◌≢◌, true, false, ◌∷◌, ◌∙◌, arith, ltb, ◌==◌, has, pos,
}
use pennos.Base.Returns
use pennos.Base.Returns.{Returns, returns}
use pennos.Sched.State.{
  running, blocked, stopped, Pcb, Queue, blocked_queue, stopped_queue, ready_queue, Scheduler,
  set_queue, set_pcb, write_pcb, write_log, log_blocked, log_sleep, log_continued,
}
use pennos.Sched.Queue.Lists.{has-append_one}
use pennos.Sched.Queue.{erase, push_tail}
use pennos.Sched.Queue.Invariant.{
  home, queue_eq_refl, Placed, PlacedBut, Placed-append, push_tail-ok, push_tail-Placed, Placed-log,
  Placed-set_pcb, PlacedBut-erase, remove-ok,
}
use pennos.Sched.Select.{unblock_process}
use pennos.Sched.Move.{k_add_to_ready_queue, block_process, k_continue_process, k_sleep}

-- What a call that moves `pid` into queue `q` leaves: everything is placed, `pid` is at the tail of
-- `q`, and the control blocks of the other processes are as before.
pub record Moved (s : Scheduler) (pid : ℕ) (q : Queue) (t : Scheduler) : Type 0 where
  pub placed : Placed t
  pub here : has pid (t.queue q) ≡ true
  pub others : (p : ℕ) → p ≢ pid → t.pcb p ≡ s.pcb p

-- A process in its ready queue is running in the sense of the source.
pub record IsReady (s : Scheduler) (pid : ℕ) : Type 0 where
  pub is_running : (s.pcb pid).state ≡ running
  pub queued : has pid (s.queue (ready_queue (s.pcb pid).priority)) ≡ true

module _ (s : Scheduler) (pid : ℕ) where
  -- The last step: a process whose control block has its new state is pushed into its home queue.
  pub push_tail-Moved :
      (u : Scheduler) (q : Queue)
      → PlacedBut pid u
      → home (u.pcb pid) ≡ q
      → ((p : ℕ) → p ≢ pid → u.pcb p ≡ s.pcb p)
      → Returns (λ _ t. Moved s pid q t × (t.pcb pid ≡ u.pcb pid)) (push_tail q pid u)
  push_tail-Moved u q v at_home same =
      Returns.mono (push_tail-Placed u pid q v at_home) λ _ t (placed, is, here).
        (record { placed = placed; here = here; others = λ p ne. rw is (same p ne) }, rw is refl)

  -- `k_add_to_ready_queue` of a process that is in no queue, with a priority from 0 to 2, returns 0
  -- and puts it, now running, at the end of the ready queue of its priority.
  pub k_add_to_ready_queue-Moved :
      (u : Scheduler)
      → PlacedBut pid u
      → (u.pcb pid).priority ≤ 2
      → ((p : ℕ) → p ≢ pid → u.pcb p ≡ s.pcb p)
      → Returns
          (λ r t.
            (r ≡ pos 0)
            × Moved s pid (ready_queue (u.pcb pid).priority) t
            × (t.pcb pid ≡ record (u.pcb pid) { state = running }))
          (k_add_to_ready_queue pid u)
  unfolding k_add_to_ready_queue write_pcb
  k_add_to_ready_queue-Moved u v in_range same =
      let low_enough : ltb 2 (u.pcb pid).priority ≡ false = ground arith in
      let q = ready_queue (u.pcb pid).priority in
      rw (low_enough, push_tail-ok u pid q v)
        (returns (
          refl,
          record {
            placed = Placed-append u pid q (record (u.pcb pid) { state = running }) v refl;
            here = rw (queue_eq_refl q) (ground (arith, has-append_one pid pid (u.queue q)));
            others = λ p ne. ground (arith, same p ne);
          },
          ground arith,
        ))

module _ (s : Scheduler) (pid : ℕ) (v : Placed s) where
  -- `block_process` on a process in its ready queue does not fail; it puts the process, now blocked,
  -- at the end of the blocked queue, and all processes are in their home queues.
  -- Before the call all processes must be in their home queues.
  pub block_process-Moved :
      IsReady s pid
      → Returns
          (λ _ t.
            Moved s pid blocked_queue t × (t.pcb pid ≡ record (s.pcb pid) { state = blocked }))
          (block_process pid s)
  unfolding block_process write_log write_pcb
  block_process-Moved r =
      let u : Scheduler = record s { log = log_blocked pid ∷ s.log } in
      let p : Pcb = record (s.pcb pid) { state = blocked } in
      rw (remove-ok u pid (ready_queue (s.pcb pid).priority) r.queued) (
        Returns.mono
          (push_tail-Moved s pid _ blocked_queue
            (PlacedBut-erase u pid (ready_queue (s.pcb pid).priority) p (Placed-log _ v) r.queued)
            (ground arith) (λ i ne. ground arith))
          λ _ t (moved, is). (moved, is ∙ ground arith))

  -- `unblock_process` on a blocked process does not fail; it puts the process, now running, at the end
  -- of the ready queue of its priority, and all processes are in their home queues.
  -- Before the call all processes must be in their home queues.
  pub unblock_process-Moved :
      has pid (s.queue blocked_queue) ≡ true
      → Returns
          (λ _ t.
            Moved s pid (ready_queue (s.pcb pid).priority) t
            × (t.pcb pid ≡ record (s.pcb pid) { state = running }))
          (unblock_process pid s)
  unfolding unblock_process write_log write_pcb
  unblock_process-Moved here =
      let p : Pcb = record (s.pcb pid) { state = running } in
      rw (remove-ok s pid blocked_queue here) (
        Returns.mono
          (push_tail-Moved s pid _ (ready_queue (s.pcb pid).priority)
            (record {
              homes = (PlacedBut-erase s pid blocked_queue p v here).homes;
              distinct = (PlacedBut-erase s pid blocked_queue p v here).distinct;
              away = (PlacedBut-erase s pid blocked_queue p v here).away;
            })
            (ground arith) (λ i ne. ground arith))
          λ _ t (moved, is). (moved, is ∙ ground arith))

module _ (s : Scheduler) (pid : ℕ) (v : Placed s) where
  -- `k_sleep` for a positive number of ticks sets the sleeping time and blocks the process.
  pub k_sleep-Moved :
      (ticks : ℕ)
      → ticks ≢ 0
      → IsReady s pid
      → Returns
          (λ r t.
            (r ≡ pos 0)
            × Moved s pid blocked_queue t
            × ((t.pcb pid).state ≡ blocked)
            × ((t.pcb pid).sleep_time ≡ double_of ticks))
          (k_sleep pid ticks s)
  unfolding k_sleep write_log write_pcb
  k_sleep-Moved ticks positive r =
      let some_ticks : (ticks == 0) ≡ false = ground arith in
      rw some_ticks (
        Returns.bind (block_process-Moved w pid at_home (ground (arith, r.is_running, r.queued)))
          λ _ t (moved, is). returns (
            refl,
            record {
              placed = moved.placed;
              here = moved.here;
              others = λ p ne. moved.others p ne ∙ ground arith;
            },
            rw is refl,
            rw is (ground arith),
          ))
    where
      p : Pcb
      p = record (s.pcb pid) { sleep_time = double_of ticks }

      w : Scheduler
      w = set_pcb (record s { log = log_sleep pid ∷ s.log }) pid p

      at_home : Placed w
      at_home = Placed-set_pcb pid p (Placed-log (log_sleep pid ∷ s.log) v) refl

  -- `k_continue_process` on a stopped process in the stopped queue returns 0 and puts it, now running,
  -- at the end of the ready queue of its priority.
  -- Before the call all processes must be in their home queues.
  pub k_continue_process-Moved :
      (s.pcb pid).state ≡ stopped
      → has pid (s.queue stopped_queue) ≡ true
      → (s.pcb pid).priority ≤ 2
      → Returns
          (λ r t.
            (r ≡ pos 0)
            × Moved s pid (ready_queue (s.pcb pid).priority) t
            × (t.pcb pid ≡ record (s.pcb pid) { state = running }))
          (k_continue_process pid s)
  unfolding k_continue_process write_log write_pcb
  k_continue_process-Moved is_stopped here in_range =
      let p : Pcb = record (s.pcb pid) { state = running } in
      let u : Scheduler = record s { log = log_continued pid ∷ s.log } in
      let v' : Placed u = Placed-log (log_continued pid ∷ s.log) v in
      let w : Scheduler =
        set_queue (set_pcb u pid p) stopped_queue (erase pid (s.queue stopped_queue)) in
      let self : w.pcb pid ≡ p = ground arith in
      rw (is_stopped, here, remove-ok u pid stopped_queue here)
        (Returns.bind
          (k_add_to_ready_queue-Moved s pid w (PlacedBut-erase u pid stopped_queue p v' here)
            (ground arith) (λ i ne. ground arith))
          λ r t (zero, moved, is). returns (refl, rw self at moved, is ∙ ground arith))
