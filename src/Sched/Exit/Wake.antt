-- ===== src/Sched/Exit/Wake.antt =====
-- src/scheduler/scheduler.c: finding an active process in its queue, and waking a waiting parent.
use pennos.Base.{
  ℕ, ◌≡◌, refl, ◌≢◌, true, false, List, [], ◌∷◌, some, arith, has, Option-cases, inl, inr,
}
use pennos.Base.Returns
use pennos.Base.Returns.{Returns, returns, deref-Returns}
use pennos.Sched.State.{
  running, blocked, Pcb, Queue, high, medium, low, blocked_queue, zombie_queue, stopped_queue,
  queue_eq, ready_queue, Scheduler, ok, set_queue, write_pcb, write_log,
}
use pennos.Sched.Queue.{erase, k_remove_from_active_queue}
use pennos.Sched.Queue.Invariant.{home, Placed, PlacedBut-erase, push_tail-Placed, remove-ok}
use pennos.Sched.Select.{unblock_process}
use pennos.Sched.Move.Placed.{unblock_process-Moved}
use pennos.Sched.Exit.{first_waiter, unblock_parents, wake}

-- A process that is in one active queue is found there and taken out.
pub k_remove_from_active_queue-found :
    (s : Scheduler) (pid : ℕ) (q : Queue)
    → has pid (s.queue q) ≡ true
    → ((r : Queue) → queue_eq q r ≡ false → has pid (s.queue r) ≡ false)
    → q ≢ zombie_queue
    → k_remove_from_active_queue pid s ≡ ok true (set_queue s q (erase pid (s.queue q)))
unfolding k_remove_from_active_queue
k_remove_from_active_queue-found s pid high here away active = rw here
k_remove_from_active_queue-found s pid medium here away active = rw (away high refl, here)
k_remove_from_active_queue-found s pid low here away active =
    rw (away high refl, away medium refl, here)
k_remove_from_active_queue-found s pid blocked_queue here away active =
    rw (away high refl, away medium refl, away low refl, here)
k_remove_from_active_queue-found s pid stopped_queue here away active =
    rw (away high refl, away medium refl, away low refl, away blocked_queue refl, here)
k_remove_from_active_queue-found s pid zombie_queue here away active = absurd (active refl)

first_waiter-has :
    (s : Scheduler) (pid : ℕ) (l : List ℕ) (w : ℕ) → first_waiter s pid l ≡ some w → has w l ≡ true
unfolding first_waiter
first_waiter-has s pid [] w h = cc
first_waiter-has s pid (x ∷ l) w h = ground (arith, first_waiter-has s pid l w)

-- What waking a parent leaves as it is: everything but blocked processes and the queues they leave
-- and enter.
pub record Spares (s t : Scheduler) : Type 0 where
  pub init : t.init_process ≡ s.init_process
  pub current : t.current_process ≡ s.current_process
  pub zombies : t.queue zombie_queue ≡ s.queue zombie_queue
  pub stoppeds : t.queue stopped_queue ≡ s.queue stopped_queue

ready_queue-ends :
    (p : ℕ)
    → (queue_eq (ready_queue p) zombie_queue ≡ false)
      × (queue_eq (ready_queue p) stopped_queue ≡ false)
ready_queue-ends p = ground arith

unblock_process-Spares :
    (s : Scheduler) (pid : ℕ)
    → Placed s
    → has pid (s.queue blocked_queue) ≡ true
    → Returns (λ _ t. Spares s t) (unblock_process pid s)
unfolding unblock_process write_log write_pcb
unblock_process-Spares s pid v here =
    let p : Pcb = record (s.pcb pid) { state = running } in
    let b = PlacedBut-erase s pid blocked_queue p v here in
    let (not_zombies, not_stoppeds) = ready_queue-ends (s.pcb pid).priority in
    rw (remove-ok s pid blocked_queue here) (
      Returns.mono
        (push_tail-Placed _ pid (ready_queue (s.pcb pid).priority)
          (record { homes = b.homes; distinct = b.distinct; away = b.away }) (ground arith))
        λ _ t (_, is, _). record {
          init = rw is refl;
          current = rw is refl;
          zombies = rw (is, not_zombies) refl;
          stoppeds = rw (is, not_stoppeds) refl;
        })

blocked-state : (p : Pcb) → home p ≡ blocked_queue → p.state ≡ blocked
blocked-state p h = ground arith

-- `unblock_parents` never fails, keeps every process in its home queue and spares the processes that
-- are not blocked.
pub unblock_parents-Placed :
    (s : Scheduler) (pid : ℕ)
    → Placed s
    → Returns
        (λ _ t. Placed t × Spares s t × ((p : ℕ) → (s.pcb p).state ≢ blocked → t.pcb p ≡ s.pcb p))
        (unblock_parents pid s)
unfolding unblock_parents wake
unblock_parents-Placed s pid v = elim (Option-cases (first_waiter s pid (s.queue blocked_queue))) [
  | inl nobody ↦ rw nobody (
      returns
        (v, record { init = refl; current = refl; zombies = refl; stoppeds = refl }, λ p ne. refl))
  | inr (w, found) ↦
      let here = first_waiter-has s pid (s.queue blocked_queue) w found in
      let is_blocked = blocked-state (s.pcb w) (v.homes blocked_queue w here) in
      rw found (
        Returns.bind
          (Returns.both (unblock_process-Moved s w v here) (unblock_process-Spares s w v here))
          λ _ t ((moved, _), spared). returns (
            record { homes = moved.placed.homes; distinct = moved.placed.distinct },
            record {
              init = spared.init;
              current = spared.current;
              zombies = spared.zombies;
              stoppeds = spared.stoppeds;
            },
            λ p ne. moved.others p λ e. ne (rw e is_blocked),
          ))
]

-- A process that is active, in its home queue.
pub record IsActive (s : Scheduler) (pid : ℕ) : Type 0 where
  pub queued : has pid (s.queue (home (s.pcb pid))) ≡ true
  pub not_zombie : home (s.pcb pid) ≢ zombie_queue
