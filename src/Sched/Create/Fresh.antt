-- ===== src/Sched/Create/Fresh.antt =====
-- src/scheduler/kernel.c: the pid and the queue of a new process.
use pennos.Base.{
  ℕ, ◌+◌, ◌≤◌, ◌≡◌, ◌≢◌, refl, ◌∙◌, true, false, not, ◌&&◌, [], ◌∷◌, ◌++◌, Option, none, some,
  arith, ltb, ◌==◌, has, pos, Bool-cases, inl, inr, is_some,
}
use pennos.Base.Run.{and_then}
use pennos.Base.Returns
use pennos.Base.Returns.{Returns, returns}
use pennos.Sched.State.{
  Queue, Scheduler, ok, set_pcb, write_pcb, write_log, log_create, ready_queue, queue_eq,
}
use pennos.Sched.Queue.Lists.{has-append_one}
use pennos.Sched.Queue.Invariant.{
  Placed, PlacedBut, PlacedBut-set_pcb, Placed-set_pcb, queue_eq-eq, push_tail-ok,
}
use pennos.Sched.Move.{k_add_to_ready_queue}
use pennos.Sched.Move.Placed.{k_add_to_ready_queue-Moved}
use pennos.Sched.Create.{Allocations, new_pcb, init_or, with_child, start_process, k_proc_create}

-- Every queued process has a pid that has been given out.
pub record Numbered (s : Scheduler) : Type 0 where
  pub given : (q : Queue) (pid : ℕ) → has pid (s.queue q) ≡ true → pid ≤ s.process_count

abbrev pub all_granted : Allocations
all_granted = record {
  proc = true;
  children = true;
  argv = true;
  command = true;
  thread = true;
  spthread = true;
  child_process = true;
}

-- A process not yet queued is away.
Placed-PlacedBut :
    (s : Scheduler) (pid : ℕ)
    → Placed s
    → ((q : Queue) → has pid (s.queue q) ≡ false)
    → PlacedBut pid s
Placed-PlacedBut s pid v away = record {
  homes = λ q i _ h. v.homes q i h;
  distinct = v.distinct;
  away = away;
}

with_child-Placed :
    (s : Scheduler) (parent : Option ℕ) (pid : ℕ)
    → Placed s
    → Placed (with_child s parent pid)
      × ((with_child s parent pid).queue ≡ s.queue)
      × ((with_child s parent pid).process_count ≡ s.process_count)
with_child-Placed s none pid v = (v, refl, refl)
with_child-Placed s (some p) pid v = (Placed-set_pcb p _ v refl, refl, refl)

-- The only process that `k_add_to_ready_queue` adds to a queue is its own.
k_add_to_ready_queue-adds :
    (u : Scheduler) (pid : ℕ)
    → PlacedBut pid u
    → (u.pcb pid).priority ≤ 2
    → Returns
        (λ _ t.
          (t.process_count ≡ u.process_count)
          × ((q : Queue) (p : ℕ) → has p (t.queue q) ≡ true → p ≢ pid → has p (u.queue q) ≡ true))
        (k_add_to_ready_queue pid u)
unfolding k_add_to_ready_queue write_pcb
k_add_to_ready_queue-adds u pid v in_range =
    let low_enough : ltb 2 (u.pcb pid).priority ≡ false = ground arith in
    let r = ready_queue (u.pcb pid).priority in
    rw (low_enough, push_tail-ok u pid r v)
      (returns (
        refl,
        λ q p h ne. elim (Bool-cases (queue_eq r q)) [
          | inl e ↦
              let h' : has p (u.queue r ++ pid ∷ []) ≡ true = rw e at h in
              let same = queue_eq-eq r q e in ground (arith, has-append_one p pid (u.queue r))
          | inr e ↦ rw e at h
        ],
      ))

module _ (s : Scheduler) (parent : Option ℕ) (priority : ℕ) where
  -- The scheduler when the new process is put into its queue.
  abbrev pub entered : Scheduler
  entered =
      let pid = s.process_count + 1 in
      let u : Scheduler = record s {
        process_count = pid;
        init_process = init_or parent s.init_process pid;
        log = log_create pid ∷ s.log;
      } in
      set_pcb (with_child u parent pid) pid (new_pcb u parent pid priority)

  pub k_proc_create-entered :
      (not (is_some parent) && is_some s.init_process) ≡ false
      → k_proc_create all_granted parent priority s
        ≡ and_then
            (k_add_to_ready_queue (s.process_count + 1) entered)
            (λ _. ok (pos (s.process_count + 1)))
  unfolding k_proc_create start_process write_log
  k_proc_create-entered h = rw h refl

  abbrev pub recorded : Scheduler
  recorded = record s {
    process_count = s.process_count + 1;
    init_process = init_or parent s.init_process (s.process_count + 1);
    log = log_create (s.process_count + 1) ∷ s.log;
  }

  pub entered-PlacedBut : Placed s → Numbered s → PlacedBut (s.process_count + 1) entered
  entered-PlacedBut v n =
      let pid = s.process_count + 1 in
      let v' : Placed recorded = record { homes = v.homes; distinct = v.distinct } in
      let (placed, queue, _) = with_child-Placed recorded parent pid v' in
      let away : (q : Queue) → has pid ((with_child recorded parent pid).queue q) ≡ false =
        λ q. rw queue (ground (arith, n.given q pid)) in
      PlacedBut-set_pcb (with_child recorded parent pid) pid (new_pcb recorded parent pid priority)
        (Placed-PlacedBut (with_child recorded parent pid) pid placed away)

  pub entered_self :
      entered.pcb (s.process_count + 1) ≡ new_pcb recorded parent (s.process_count + 1) priority
  entered_self = ground arith

  -- `k_proc_create` with a valid priority, every allocation granted, and for a first process no init
  -- yet, returns the next pid, which no queued process has. The new process is running in its ready
  -- queue, all processes are in their home queues, and all queued pids are given out.
  -- Before the call all processes must be in their home queues, and their pids given out.
  pub k_proc_create-Placed :
      Placed s
      → Numbered s
      → priority ≤ 2
      → (not (is_some parent) && is_some s.init_process) ≡ false
      → Returns
          (λ r t.
            (r ≡ pos (s.process_count + 1))
            × Placed t
            × Numbered t
            × (has (s.process_count + 1) (t.queue (ready_queue priority)) ≡ true)
            × (t.process_count ≡ s.process_count + 1))
          (k_proc_create all_granted parent priority s)
  unfolding new_pcb
  k_proc_create-Placed v n in_range h =
      let pid = s.process_count + 1 in
      let v' : Placed recorded = record { homes = v.homes; distinct = v.distinct } in
      let (_, queue, count) = with_child-Placed recorded parent pid v' in
      let out = entered-PlacedBut v n in
      let low : (entered.pcb pid).priority ≤ 2 = rw entered_self in_range in
      let its_priority : (entered.pcb pid).priority ≡ priority = rw entered_self refl in
      rw (k_proc_create-entered h) (
        Returns.bind
          (Returns.both (k_add_to_ready_queue-Moved entered pid entered out low (λ i ne. refl))
            (k_add_to_ready_queue-adds entered pid out low))
          λ r t ((_, moved, is), (same_count, added)). returns (
            refl,
            moved.placed,
            record {
              given = λ q p e.
                  let total : t.process_count ≡ s.process_count + 1 = same_count ∙ count in
                  elim (Bool-cases (p == s.process_count + 1)) [
                    | inl own ↦ ground arith
                    | inr not_own ↦
                        let old : has p (s.queue q) ≡ true =
                          rw queue at added q p e (ground arith) in
                        ground (arith, n.given q p old)
                  ];
            },
            rw its_priority at moved.here,
            same_count ∙ count,
          ))
