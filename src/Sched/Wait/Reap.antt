-- ===== src/Sched/Wait/Reap.antt =====
-- src/scheduler/scheduler.c: `k_waitpid` for one child, as the state of the child decides.
use pennos.Base.{ℕ, ℤ, ◌≡◌, ◌≢◌, refl, ◌∙◌, Bool, true, false, none, some, arith, ◌==◌, has, pos}
use pennos.Base.Returns
use pennos.Base.Returns.{Returns, returns}
use pennos.Sched.State.{
  blocked, stopped, zombied, Pcb, Queue, blocked_queue, zombie_queue, stopped_queue, Scheduler, ok,
  set_pcb, set_queue, write_pcb, write_log,
}
use pennos.Sched.Queue.{erase}
use pennos.Sched.Queue.Invariant.{Placed, PlacedBut, PlacedBut-erase, Placed-set_pcb, remove-ok}
use pennos.Sched.Move.Placed.{IsReady, block_process-Moved}
use pennos.Sched.Select.Find.{k_get_process_by_pid-queued}
use pennos.Sched.Wait.{
  returned, suspended, w_exited, reap, wait_child, keep_waiting, wait_for, k_waitpid,
}

PlacedBut-take :
    (s : Scheduler) (pid : ℕ) (q : Queue)
    → Placed s
    → has pid (s.queue q) ≡ true
    → PlacedBut pid (set_queue s q (erase pid (s.queue q)))
PlacedBut-take s pid q v here =
    let b = PlacedBut-erase s pid q (s.pcb pid) v here in
    record {
      homes = λ r i ne h. ground (arith, b.homes r i ne h);
      distinct = b.distinct;
      away = b.away;
    }

wait_child-keeps :
    (s : Scheduler) (parent c : ℕ) (nohang : Bool)
    → (s.pcb c).ppid ≡ parent
    → (s.pcb c).state ≢ zombied
    → (s.pcb c).state ≢ stopped
    → wait_child parent c nohang s ≡ keep_waiting parent c nohang s
unfolding wait_child
wait_child-keeps s parent c nohang is_child not_zombie not_stopped = ground arith

module _ (s : Scheduler) (parent c : ℕ) (target : ℤ) where
  abbrev asking_pcb : Pcb
  asking_pcb = record (s.pcb parent) { waited_child = target }

  -- The state in which the caller has noted for whom it waits.
  abbrev pub asking : Scheduler
  asking = set_pcb s parent asking_pcb

  pub reap-takes :
      Placed s
      → has c (s.queue zombie_queue) ≡ true
      → Returns
          (λ r t.
            (r ≡ returned (pos c) (some w_exited))
            × PlacedBut c t
            × ((t.pcb parent).children ≡ erase c (s.pcb parent).children)
            × (t.current_process ≡ s.current_process))
          (reap parent c asking)
  unfolding reap write_pcb write_log
  reap-takes v here =
      let p : Pcb = record (asking.pcb parent) {
        children = erase c (asking.pcb parent).children;
      } in
      let w : Scheduler = set_pcb asking parent p in
      let vw : Placed w =
        Placed-set_pcb parent p (Placed-set_pcb parent asking_pcb v refl) (ground arith) in
      let b = PlacedBut-take w c zombie_queue vw here in
      rw (remove-ok w c zombie_queue here) (
        returns (
          refl,
          record { homes = b.homes; distinct = b.distinct; away = b.away },
          ground arith,
          refl,
        ))

module _ (s : Scheduler) (parent c : ℕ) where
  abbrev waiting_pcb : Pcb
  waiting_pcb = record (s.pcb parent) { waited_child = pos c }

  abbrev pub waiting : Scheduler
  waiting = set_pcb s parent waiting_pcb

  k_waitpid-child :
      (q : Queue) (nohang : Bool)
      → s.current_process ≡ some parent
      → has c (s.queue q) ≡ true
      → k_waitpid (pos c) nohang s ≡ wait_child parent c nohang waiting
  unfolding k_waitpid wait_for write_pcb
  k_waitpid-child q nohang is_parent here =
      ground (arith, k_get_process_by_pid-queued s c q here, is_parent)

  -- `k_waitpid` for a zombie child in the zombie queue returns its pid and W_EXITED, and takes it out
  -- of the zombie queue, so that it is in no queue, and out of the parent's list of children.
  -- Before the call all processes must be in their home queues. The caller must be current, the
  -- parent of the child, and another process.
  pub k_waitpid-reaps :
      (nohang : Bool)
      → Placed s
      → s.current_process ≡ some parent
      → (s.pcb c).ppid ≡ parent
      → (s.pcb c).state ≡ zombied
      → has c (s.queue zombie_queue) ≡ true
      → c ≢ parent
      → Returns
          (λ r t.
            (r ≡ returned (pos c) (some w_exited))
            × PlacedBut c t
            × ((t.pcb parent).children ≡ erase c (s.pcb parent).children))
          (k_waitpid (pos c) nohang s)
  unfolding wait_child
  k_waitpid-reaps nohang v is_parent is_child is_zombie here other =
      let same : waiting.pcb c ≡ s.pcb c = ground arith in
      let yes : ((s.pcb c).ppid == parent) ≡ true = ground arith in
      rw (k_waitpid-child zombie_queue nohang is_parent here, same, yes, is_zombie)
        (Returns.mono (reap-takes s parent c (pos c) v here)
          λ r t (is, placed, children, _). (is, placed, children))

  -- `k_waitpid` for a stopped child returns 0 and leaves `wstatus` as it was, and W_STOPPED unstored.
  pub k_waitpid-stopped :
      (nohang : Bool)
      → s.current_process ≡ some parent
      → (s.pcb c).ppid ≡ parent
      → (s.pcb c).state ≡ stopped
      → has c (s.queue stopped_queue) ≡ true
      → c ≢ parent
      → k_waitpid (pos c) nohang s ≡ ok (returned (pos 0) none) waiting
  unfolding wait_child
  k_waitpid-stopped nohang is_parent is_child is_stopped here other =
      ground (arith, k_waitpid-child stopped_queue nohang is_parent here)

  -- Without `nohang`, a parent in its ready queue that waits for a running or blocked child is
  -- suspended: it is blocked in the blocked queue, and records the child it waits for. No other
  -- process changes.
  -- Before the call all processes must be in their home queues. The caller must be current, the
  -- parent of the child, and another process.
  pub k_waitpid-suspends :
      (q : Queue)
      → Placed s
      → s.current_process ≡ some parent
      → (s.pcb c).ppid ≡ parent
      → ((s.pcb c).state ≢ zombied) × ((s.pcb c).state ≢ stopped)
      → has c (s.queue q) ≡ true
      → c ≢ parent
      → IsReady s parent
      → Returns
          (λ r t.
            (r ≡ suspended (pos c))
            × Placed t
            × ((t.pcb parent).state ≡ blocked)
            × ((t.pcb parent).waited_child ≡ pos c)
            × (has parent (t.queue blocked_queue) ≡ true)
            × ((p : ℕ) → p ≢ parent → t.pcb p ≡ s.pcb p))
          (k_waitpid (pos c) false s)
  unfolding wait_child keep_waiting write_log
  k_waitpid-suspends q v is_parent is_child (not_zombie, not_stopped) here other ready =
      let v' : Placed waiting = Placed-set_pcb parent waiting_pcb v refl in
      let same : waiting.pcb c ≡ s.pcb c = ground arith in
      rw
        (
          k_waitpid-child q false is_parent here,
          wait_child-keeps waiting parent c false (rw same is_child) (rw same not_zombie)
              (rw same not_stopped),
        )
        (Returns.bind
          (block_process-Moved waiting parent v' (ground (arith, ready.is_running, ready.queued)))
          λ _ t (moved, is). returns (
            refl,
            moved.placed,
            rw is refl,
            rw is (ground arith),
            moved.here,
            λ p ne. moved.others p ne ∙ ground arith,
          ))
