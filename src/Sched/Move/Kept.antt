-- ===== src/Sched/Move/Kept.antt =====
-- src/scheduler/scheduler.c: what `k_continue_process` leaves to the other processes.
use pennos.Base.{
  ℕ, ◌≤◌, ◌≡◌, ◌≢◌, refl, true, false, ◌∷◌, arith, ltb, has, if◌then◌else◌, Bool-cases, inl, inr,
}
use pennos.Base.Returns
use pennos.Base.Returns.{Returns, returns}
use pennos.Sched.State.{
  running, stopped, Pcb, Queue, queue_eq, stopped_queue, Scheduler, set_pcb, set_queue, write_pcb,
  write_log, log_continued, ready_queue,
}
use pennos.Sched.Queue.{erase}
use pennos.Sched.Queue.Lists.{has-append_one, has-erase}
use pennos.Sched.Queue.Invariant.{
  Placed, PlacedBut, PlacedBut-erase, Placed-log, push_tail-ok, remove-ok, queue_eq-eq,
}
use pennos.Sched.Move.{k_add_to_ready_queue, k_continue_process}

-- Every other process stays in its queue, and the current process the same.
pub record Kept (s : Scheduler) (pid : ℕ) (t : Scheduler) : Type 0 where
  pub queued : (q : Queue) (p : ℕ) → p ≢ pid → has p (s.queue q) ≡ true → has p (t.queue q) ≡ true
  pub current : t.current_process ≡ s.current_process

k_add_to_ready_queue-Kept :
    (u : Scheduler) (pid : ℕ)
    → PlacedBut pid u
    → (u.pcb pid).priority ≤ 2
    → Returns (λ _ t. Kept u pid t) (k_add_to_ready_queue pid u)
unfolding k_add_to_ready_queue write_pcb
k_add_to_ready_queue-Kept u pid v in_range =
    let low_enough : ltb 2 (u.pcb pid).priority ≡ false = ground arith in
    let r = ready_queue (u.pcb pid).priority in
    rw (low_enough, push_tail-ok u pid r v)
      (returns (record {
        queued = λ q p ne h. ground (arith, has-append_one p pid (u.queue r), h);
        current = refl;
      }))

taken_out-Kept :
    (s : Scheduler) (pid p : ℕ) (q r : Queue)
    → Placed s
    → p ≢ pid
    → has p (s.queue r) ≡ true
    → has p (if queue_eq q r then erase pid (s.queue q) else s.queue r) ≡ true
taken_out-Kept s pid p q r v ne h = elim (Bool-cases (queue_eq q r)) [
  | inl e ↦
      let same = queue_eq-eq q r e in
      let there : has p (s.queue q) ≡ true = rw same h in
      rw e (ground (arith, has-erase p pid (s.queue q) (v.distinct q)))
  | inr e ↦ rw e h
]

module _ (s : Scheduler) (pid : ℕ) (v : Placed s) where
  pub k_continue_process-Kept :
      (s.pcb pid).state ≡ stopped
      → has pid (s.queue stopped_queue) ≡ true
      → (s.pcb pid).priority ≤ 2
      → Returns (λ _ t. Kept s pid t) (k_continue_process pid s)
  unfolding k_continue_process write_log write_pcb
  k_continue_process-Kept is_stopped here in_range =
      let p : Pcb = record (s.pcb pid) { state = running } in
      let u : Scheduler = record s { log = log_continued pid ∷ s.log } in
      let v' : Placed u = Placed-log (log_continued pid ∷ s.log) v in
      let w : Scheduler =
        set_queue (set_pcb u pid p) stopped_queue (erase pid (s.queue stopped_queue)) in
      rw (is_stopped, here, remove-ok u pid stopped_queue here)
        (Returns.bind
          (k_add_to_ready_queue-Kept w pid (PlacedBut-erase u pid stopped_queue p v' here)
            (ground arith))
          λ r t k. returns (record {
            queued = λ q i ne h. k.queued q i ne (taken_out-Kept s pid i stopped_queue q v ne h);
            current = k.current;
          }))
