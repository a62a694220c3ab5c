-- ===== src/Sched/Queue/Invariant.antt =====
-- src/scheduler/scheduler.c: where a process belongs, and what taking it out of a queue and putting it into one do to that.
use pennos.Base.{
  ℕ, ◌≡◌, refl, sym, ◌∙◌, ◌≢◌, true, false, List, [], ◌∷◌, ◌++◌, arith, has, Bool-cases, inl, inr,
}
use pennos.Base.Returns.{Returns, returns}
use pennos.Sched.State.{
  running, blocked, stopped, zombied, Pcb, Queue, high, medium, low, blocked_queue, zombie_queue,
  stopped_queue, queue_eq, ready_queue, Scheduler, ok, set_queue, set_pcb, Event,
}
use pennos.Sched.Queue.{erase, push_tail, remove}
use pennos.Sched.Queue.Lists.{nodup, has-append_one, nodup-append_one, has-erase, nodup-erase}

-- The queue for a process in this state and with this priority.
abbrev pub home : Pcb → Queue
home p = elim p.state [
  | running ↦ ready_queue p.priority
  | blocked ↦ blocked_queue
  | stopped ↦ stopped_queue
  | zombied ↦ zombie_queue
]

-- Every queued process is in the queue of its state and priority, so in no other, and once.
pub record Placed (s : Scheduler) : Type 0 where
  pub homes : (q : Queue) (pid : ℕ) → has pid (s.queue q) ≡ true → home (s.pcb pid) ≡ q
  pub distinct : (q : Queue) → nodup (s.queue q) ≡ true

-- The same for all processes but `pid`, which is in no queue.
pub record PlacedBut (pid : ℕ) (s : Scheduler) : Type 0 where
  pub homes : (q : Queue) (p : ℕ) → p ≢ pid → has p (s.queue q) ≡ true → home (s.pcb p) ≡ q
  pub distinct : (q : Queue) → nodup (s.queue q) ≡ true
  pub away : (q : Queue) → has pid (s.queue q) ≡ false

pub queue_eq_refl : (q : Queue) → queue_eq q q ≡ true
queue_eq_refl q = ground arith

eq-queue_eq : (q r : Queue) → q ≡ r → queue_eq q r ≡ true
eq-queue_eq q r e = rw (← e) (queue_eq_refl q)

pub queue_eq-eq : (q r : Queue) → queue_eq q r ≡ true → q ≡ r
queue_eq-eq q r h = ground arith

-- A process is in its home queue alone.
pub not_elsewhere :
    (s : Scheduler) (pid : ℕ) (q r : Queue)
    → Placed s
    → has pid (s.queue q) ≡ true
    → queue_eq q r ≡ false
    → has pid (s.queue r) ≡ false
not_elsewhere s pid q r v here ne = elim (Bool-cases (has pid (s.queue r))) [
  | inl there ↦ let same = eq-queue_eq q r (sym (v.homes q pid here) ∙ v.homes r pid there) in cc
  | inr gone ↦ gone
]

-- Neither the log nor any other field but the queues and the control blocks matters.
pub Placed-log : {s : Scheduler} (l : List Event) → Placed s → Placed (record s { log = l })
Placed-log l v = record { homes = v.homes; distinct = v.distinct }

-- A change of a control block that keeps the process at home.
pub Placed-set_pcb :
    {s : Scheduler} (pid : ℕ) (p : Pcb)
    → Placed s
    → home p ≡ home (s.pcb pid)
    → Placed (set_pcb s pid p)
Placed-set_pcb {s} pid p v same = record {
  homes = λ q i h. ground (arith, v.homes q i h);
  distinct = v.distinct;
}

module _ (s : Scheduler) (pid : ℕ) where
  -- Taking a process out, also after its control block has changed.
  pub PlacedBut-erase :
      (q : Queue) (p : Pcb)
      → Placed s
      → has pid (s.queue q) ≡ true
      → PlacedBut pid (set_queue (set_pcb s pid p) q (erase pid (s.queue q)))
  PlacedBut-erase q p v here = record {
    homes = λ r i ne h. elim (Bool-cases (queue_eq q r)) [
      | inl e ↦
          let h' : has i (erase pid (s.queue q)) ≡ true = rw e at h in
          let there : has i (s.queue q) ≡ true =
            ground (arith, has-erase i pid (s.queue q) (v.distinct q)) in
          ground (arith, v.homes q i there, queue_eq-eq q r e)
      | inr e ↦ let h' : has i (s.queue r) ≡ true = rw e at h in ground (arith, v.homes r i h')
    ];
    distinct = λ r. elim (Bool-cases (queue_eq q r)) [
      | inl e ↦ rw e (nodup-erase pid (s.queue q) (v.distinct q))
      | inr e ↦ rw e (v.distinct r)
    ];
    away = λ r. elim (Bool-cases (queue_eq q r)) [
      | inl e ↦ rw e (ground (arith, has-erase pid pid (s.queue q) (v.distinct q)))
      | inr e ↦ rw e (not_elsewhere s pid q r v here e)
    ];
  }

  pub PlacedBut-set_pcb : (p : Pcb) → PlacedBut pid s → PlacedBut pid (set_pcb s pid p)
  PlacedBut-set_pcb p v = record {
    homes = λ r i ne h. ground (arith, v.homes r i ne h);
    distinct = v.distinct;
    away = v.away;
  }

  -- Putting it into its home queue.
  pub Placed-push :
      (q : Queue)
      → PlacedBut pid s
      → home (s.pcb pid) ≡ q
      → Placed (set_queue s q (s.queue q ++ pid ∷ []))
  Placed-push q v at_home = record {
    homes = λ r i h. elim (Bool-cases (queue_eq q r)) [
      | inl e ↦
          let h' : has i (s.queue q ++ pid ∷ []) ≡ true = rw e at h in
          let same = queue_eq-eq q r e in
          ground (arith, has-append_one i pid (s.queue q), v.homes q i)
      | inr e ↦
          let h' : has i (s.queue r) ≡ true = rw e at h in ground (arith, v.homes r i, v.away r)
    ];
    distinct = λ r. elim (Bool-cases (queue_eq q r)) [
      | inl e ↦ rw e (nodup-append_one pid (s.queue q) (v.distinct q) (v.away q))
      | inr e ↦ rw e (v.distinct r)
    ];
  }

  pub push_tail-ok :
      (q : Queue)
      → PlacedBut pid s
      → push_tail q pid s ≡ ok tt (set_queue s q (s.queue q ++ pid ∷ []))
  unfolding push_tail
  push_tail-ok q v = rw (
    v.away high,
    v.away medium,
    v.away low,
    v.away blocked_queue,
    v.away zombie_queue,
    v.away stopped_queue,
  )

  pub remove-ok :
      (q : Queue)
      → has pid (s.queue q) ≡ true
      → remove q pid s ≡ ok tt (set_queue s q (erase pid (s.queue q)))
  unfolding remove
  remove-ok q here = rw here

  -- Pushing a process that is in no queue into its home queue.
  pub push_tail-Placed :
      (q : Queue)
      → PlacedBut pid s
      → home (s.pcb pid) ≡ q
      → Returns
          (λ _ t.
            Placed t × (t ≡ set_queue s q (s.queue q ++ pid ∷ [])) × (has pid (t.queue q) ≡ true))
          (push_tail q pid s)
  push_tail-Placed q v at_home = rw (push_tail-ok q v) (
      returns (
        Placed-push q v at_home,
        refl,
        rw (queue_eq_refl q) (ground (arith, has-append_one pid pid (s.queue q))),
      ))

module _ (s : Scheduler) (pid : ℕ) where
  -- The same, where the control block is written behind the push.
  pub Placed-append :
      (q : Queue) (p : Pcb)
      → PlacedBut pid s
      → home p ≡ q
      → Placed (set_pcb (set_queue s q (s.queue q ++ pid ∷ [])) pid p)
  Placed-append q p v at_home =
      Placed-push (set_pcb s pid p) pid q (PlacedBut-set_pcb s pid p v) (ground arith)
