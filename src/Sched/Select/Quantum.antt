-- ===== src/Sched/Select/Quantum.antt =====
-- src/scheduler/scheduler.c: one call of `_run_next_process`, and the home queues.
use pennos.Base.{
  minus_tenth, ℕ, ◌+◌, ◌≡◌, refl, true, ◌&&◌, ◌||◌, List, [], ◌∷◌, Option, none, some, arith, ◌==◌,
  has, Bool-cases, inl, inr, is_some,
}
use pennos.Base.Returns
use pennos.Base.Returns.{Returns, returns}
use pennos.Sched.State.{
  ProcessState, running, blocked, stopped, zombied, Queue, blocked_queue, Scheduler, Cmd,
  zombie_queue, set_pcb, set_queue, write_pcb, write_log, log_schedule, ready_queue, queue_eq,
}
use pennos.Sched.Queue.{rotated, rotate, head_of}
use pennos.Sched.Queue.Lists.{has-rotated, nodup-rotated}
use pennos.Sched.Queue.Invariant.{Placed, Placed-set_pcb, queue_eq-eq}
use pennos.Sched.Select.{
  update_sleepers, update_blocked_processes, unblock_process, select_next_queue, pick_head,
  make_way, after_quantum, run_picked, run_turn, end_quantum, run_next_process,
  k_get_process_by_pid, is_empty,
}
use pennos.Sched.Select.Sleepers.{tick}
use pennos.Sched.Move.Placed.{unblock_process-Moved}

-- Every process is in its home queue and has a thread.
pub record Runnable (s : Scheduler) : Type 0 where
  pub placed : Placed s
  pub threads : (p : ℕ) → (s.pcb p).has_thread ≡ true

pub rotate-Placed :
    (s : Scheduler) (q : Queue) → Placed s → Placed (set_queue s q (rotated (s.queue q)))
rotate-Placed s q v = record {
  homes = λ r i h. elim (Bool-cases (queue_eq q r)) [
    | inl e ↦
        let h' : has i (rotated (s.queue q)) ≡ true = rw e at h in
        let same = queue_eq-eq q r e in ground (arith, has-rotated i (s.queue q), v.homes q i)
    | inr e ↦ let h' : has i (s.queue r) ≡ true = rw e at h in v.homes r i h'
  ];
  distinct = λ r. elim (Bool-cases (queue_eq q r)) [
    | inl e ↦ rw e (nodup-rotated (s.queue q) (v.distinct q))
    | inr e ↦ rw e (v.distinct r)
  ];
}

pub rotate-Runnable :
    (s : Scheduler) (q : Queue) → Runnable s → Returns (λ _ t. Runnable t) (rotate q s)
unfolding rotate
rotate-Runnable s q r =
    returns (record { placed = rotate-Placed s q r.placed; threads = r.threads })

pub ticked-Runnable : (s : Scheduler) (x : ℕ) → Runnable s → Runnable (set_pcb s x (tick (s.pcb x)))
ticked-Runnable s x r = record {
  placed = Placed-set_pcb x (tick (s.pcb x)) r.placed refl;
  threads = λ p. ground (arith, r.threads p, r.threads x);
}

pub unblock_process-Runnable :
    (s : Scheduler) (x : ℕ)
    → Runnable s
    → has x (s.queue blocked_queue) ≡ true
    → Returns (λ _ t. Runnable t) (unblock_process x s)
unblock_process-Runnable s x r here =
    Returns.mono (unblock_process-Moved s x r.placed here) λ _ t (moved, is). record {
      placed = moved.placed;
      threads = λ p. elim (Bool-cases (p == x)) [
        | inl same ↦ let e : p ≡ x = ground arith in rw (e, is) (r.threads x)
        | inr differs ↦ rw (moved.others p (ground arith)) (r.threads p)
      ];
    }

update_sleepers-Runnable :
    (l : List ℕ) (s : Scheduler)
    → Runnable s
    → ((p : ℕ) → has p l ≡ true → has p (s.queue blocked_queue) ≡ true)
    → Returns (λ _ t. Runnable t) (update_sleepers l s)
unfolding update_sleepers write_pcb
update_sleepers-Runnable [] s r h = returns r
update_sleepers-Runnable (x ∷ l) s r h = elim (Bool-cases ((s.pcb x).sleep_time == 0)) [
  | inl awake ↦ rw awake (update_sleepers-Runnable l s r (λ p e. h p (ground arith)))
  | inr sleeps ↦ elim (Bool-cases (minus_tenth (s.pcb x).sleep_time == 0)) [
    | inl last ↦
        rw (sleeps, last)
          (unblock_process-Runnable (set_pcb s x (tick (s.pcb x))) x (ticked-Runnable s x r)
            (h x (ground arith)))
    | inr longer ↦
        rw (sleeps, longer)
          (update_sleepers-Runnable l (set_pcb s x (tick (s.pcb x))) (ticked-Runnable s x r)
            (λ p e. h p (ground arith)))
  ]
]

after_quantum-Runnable :
    (q : Queue) (st : ProcessState) (u : Scheduler)
    → Runnable u
    → Returns (λ _ t. Runnable t) (after_quantum q st u)
unfolding after_quantum
after_quantum-Runnable q zombied u r = returns r
after_quantum-Runnable q stopped u r = returns r
after_quantum-Runnable q running u r = rotate-Runnable u q r
after_quantum-Runnable q blocked u r = rotate-Runnable u q r

end_quantum-Runnable :
    (q : Queue) (pid : ℕ) (s : Scheduler)
    → Runnable s
    → Returns (λ _ t. Runnable t) (end_quantum q pid s)
unfolding end_quantum
end_quantum-Runnable q pid s r =
    after_quantum-Runnable q (s.pcb pid).state (record s { quantum = s.quantum + 1 })
      (record {
        placed = record { homes = r.placed.homes; distinct = r.placed.distinct };
        threads = r.threads;
      })

make_way-Runnable :
    (q : Queue) (o : Option ℕ) (s : Scheduler)
    → Runnable s
    → Returns (λ _ t. Runnable t) (make_way q o s)
unfolding make_way
make_way-Runnable q none s r = returns r
make_way-Runnable q (some pid) s r =
    elim (Bool-cases (pid == 1 && (is_empty (s.queue zombie_queue) && s.shell_spawned))) [
      | inl makes_way ↦ rw makes_way (Returns.bind (rotate-Runnable s q r) λ _ t r'. returns r')
      | inr stays ↦ rw stays (returns r)
    ]

module _ (body : ℕ → Cmd (Unit {0}))
    (keeps : (pid : ℕ) (s : Scheduler)
      → Runnable s
      → Returns (λ _ t. Runnable t) (body pid s)) where
  run_picked-Runnable :
      (q : Queue) (picked : Option ℕ) (u : Scheduler)
      → Runnable u
      → Returns (λ _ t. Runnable t) (run_picked body q picked u)
  unfolding run_picked write_log
  run_picked-Runnable q none u r = returns r
  run_picked-Runnable q (some pid) u r =
      let scheduled : Scheduler = record u {
        current_process = some pid;
        log = log_schedule pid (u.pcb pid).priority ∷ u.log;
      } in
      rw (r.threads pid) (
        Returns.bind
          (keeps pid scheduled (record {
            placed = record { homes = r.placed.homes; distinct = r.placed.distinct };
            threads = r.threads;
          }))
          λ _ t r'. end_quantum-Runnable q pid t r')

  run_turn-Runnable :
      (turn : Option ℕ) (s : Scheduler)
      → Runnable s
      → Returns (λ _ t. Runnable t) (run_turn body turn s)
  unfolding run_turn pick_head
  run_turn-Runnable none s r = returns r
  run_turn-Runnable (some i) s r =
      let q = ready_queue i in
      Returns.bind (make_way-Runnable q (head_of (s.queue q)) s r)
        λ picked t r'. run_picked-Runnable q picked t r'

  -- If whatever a process does in its quantum returns and keeps all processes in their home queues and
  -- their threads, one call of `_run_next_process` returns and keeps them too: the walk over the
  -- sleepers, the choice of a queue, init's making way, the quantum and the rotation after it.
  pub run_next_process-Runnable :
      (s : Scheduler) → Runnable s → Returns (λ _ t. Runnable t) (run_next_process body s)
  unfolding run_next_process update_blocked_processes
  run_next_process-Runnable s r =
      Returns.bind (update_sleepers-Runnable (s.queue blocked_queue) s r (λ p e. e)) λ _ v r'.
        let w : Scheduler = record v {
          shell_spawned = v.shell_spawned || is_some (k_get_process_by_pid v 2);
        } in
        run_turn-Runnable (select_next_queue w) w (record {
          placed = record { homes = r'.placed.homes; distinct = r'.placed.distinct };
          threads = r'.threads;
        })
