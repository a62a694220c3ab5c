-- ===== src/Sched/Exit/Zombie.antt =====
-- src/scheduler/scheduler.c: a process that ends.
use pennos.Base.{
  ℕ, ◌≡◌, refl, ◌≢◌, true, false, List, [], ◌∷◌, ◌∙◌, some, arith, ◌==◌, has, ℤ, pos, Bool-cases,
  inl, inr,
}
use pennos.Base.Run.{Run, pure, get, deref, ◌>>=◌, ◌>>◌}
use pennos.Base.{◌++◌}
use pennos.Sched.Queue.Lists.{has-append_one}
use pennos.Sched.Queue.Invariant.{Placed-push, push_tail-ok}
use pennos.Sched.Exit.{unblock_parents}
use pennos.Sched.Exit.Wake.{Spares, IsActive}
use pennos.Base.Returns
use pennos.Base.Returns.{Returns, returns, deref-Returns}
use pennos.Sched.State.{
  blocked, zombied, Pcb, Queue, zombie_queue, queue_eq, Scheduler, set_queue, set_pcb, write_pcb,
  write_log, log_exited, log_zombie, log_orphan,
}
use pennos.Sched.Queue.{erase}
use pennos.Sched.Queue.Invariant.{
  home, Placed, PlacedBut, PlacedBut-erase, Placed-set_pcb, Placed-log, not_elsewhere,
}
use pennos.Sched.Exit.{adopt, is_nil, reparent_children, k_proc_exit}
use pennos.Sched.Exit.Wake.{k_remove_from_active_queue-found, unblock_parents-Placed}

-- What reparenting leaves as it is.
pub record Keeps (s t : Scheduler) : Type 0 where
  pub current : t.current_process ≡ s.current_process
  pub queue : t.queue ≡ s.queue
  pub state : (p : ℕ) → (t.pcb p).state ≡ (s.pcb p).state
  pub exit_status : (p : ℕ) → (t.pcb p).exit_status ≡ (s.pcb p).exit_status

adopt-Placed :
    (children : List ℕ) (s : Scheduler) (init : ℕ)
    → Placed s
    → Returns (λ _ t. Placed t × Keeps s t) (adopt init children s)
unfolding adopt write_log write_pcb
adopt-Placed [] s init v =
    returns (v, record { current = refl; queue = refl; state = λ p. refl; exit_status = λ p. refl })
adopt-Placed (c ∷ cs) s init v =
    Returns.mono
      (adopt-Placed cs _ init (
        Placed-set_pcb init _ (Placed-set_pcb c _ (Placed-log (log_orphan c ∷ s.log) v) refl) refl))
      λ _ t (v', k). (
        v',
        record {
          current = k.current;
          queue = k.queue;
          state = λ p. ground (arith, k.state p);
          exit_status = λ p. ground (arith, k.exit_status p);
        },
      )

pub reparent_children-Placed :
    (s : Scheduler) (pid init : ℕ)
    → Placed s
    → s.init_process ≡ some init
    → init ≢ pid
    → Returns (λ _ t. Placed t × Keeps s t) (reparent_children pid s)
unfolding reparent_children
reparent_children-Placed s pid init v is_init other =
    let not_own : (init == pid) ≡ false = ground arith in
    elim (Bool-cases (is_nil (s.pcb pid).children)) [
      | inl empty ↦ rw empty (
          returns (
            v,
            record { current = refl; queue = refl; state = λ p. refl; exit_status = λ p. refl },
          ))
      | inr some_child ↦ rw some_child (
          Returns.bind (deref-Returns s.init_process s init is_init) λ i t (same, kept).
            rw (same, kept, not_own) (adopt-Placed (s.pcb pid).children s init v))
    ]

-- The process has been taken out of its queue and pushed into the zombie queue.
module _ (s : Scheduler) (pid : ℕ) (exit_status : ℤ) where
  abbrev pub zombie_pcb : Pcb
  zombie_pcb = record (s.pcb pid) { state = zombied; exit_status = exit_status }

  abbrev taken_out : Scheduler
  taken_out =
      let q = home (s.pcb pid) in
      record (set_queue (set_pcb s pid zombie_pcb) q (erase pid (s.queue q))) {
        log = log_zombie pid ∷ (log_exited pid ∷ s.log);
      }

  abbrev pub zombified : Scheduler
  zombified = set_queue taken_out zombie_queue (taken_out.queue zombie_queue ++ pid ∷ [])

  -- What is left to do then.
  abbrev finish_exit : Scheduler → Run Scheduler ℤ
  finish_exit = do
    unblock_parents pid
    reparent_children pid
    t ← get
    _ ← deref t.current_process
    pure (pos 0)

  taken_out-PlacedBut : Placed s → IsActive s pid → PlacedBut pid taken_out
  taken_out-PlacedBut v a =
      let b = PlacedBut-erase s pid (home (s.pcb pid)) zombie_pcb v a.queued in
      record { homes = b.homes; distinct = b.distinct; away = b.away }

  pub zombified-Placed : Placed s → IsActive s pid → Placed zombified
  zombified-Placed v a =
      Placed-push taken_out pid zombie_queue (taken_out-PlacedBut v a) (ground arith)

  k_proc_exit-run :
      Placed s → IsActive s pid → k_proc_exit pid exit_status s ≡ finish_exit zombified
  unfolding k_proc_exit write_log write_pcb
  k_proc_exit-run v a =
      let q = home (s.pcb pid) in
      let u : Scheduler = set_pcb (record s { log = log_exited pid ∷ s.log }) pid zombie_pcb in
      let there : (r : Queue) → queue_eq q r ≡ false → has pid (s.queue r) ≡ false =
        λ r ne. not_elsewhere s pid q r v a.queued ne in
      rw
        (
          k_remove_from_active_queue-found u pid q a.queued there a.not_zombie,
          push_tail-ok taken_out pid zombie_queue (taken_out-PlacedBut v a),
        )
        refl

  -- `k_proc_exit` in terms of what `unblock_parents` does with the process in the zombie queue.
  pub k_proc_exit-by :
      {Q : Scheduler → Type 0} (init current : ℕ)
      → Placed s
      → IsActive s pid
      → s.init_process ≡ some init
      → s.current_process ≡ some current
      → init ≢ pid
      → Returns (λ _ t. Q t × Placed t × Spares zombified t) (unblock_parents pid zombified)
      → Returns
          (λ r t.
            (r ≡ pos 0) × Placed t × (t' : Scheduler) × Q t' × Spares zombified t' × Keeps t' t)
          (k_proc_exit pid exit_status s)
  k_proc_exit-by init current v a has_init has_current other woken = rw (k_proc_exit-run v a) (
      Returns.bind woken λ _ t' (q, v', spared).
        Returns.bind (reparent_children-Placed t' pid init v' (spared.init ∙ has_init) other)
          λ _ t (placed, kept).
            Returns.bind
              (deref-Returns t.current_process t current
                (kept.current ∙ spared.current ∙ has_current))
              λ _ r (_, is_t). rw is_t (returns (refl, placed, t', q, spared, kept)))

module _ (s : Scheduler) (pid : ℕ) (v : Placed s) where
  -- `k_proc_exit` on an active process, called with some process current, returns and leaves the
  -- process a zombie with that exit status in the zombie queue, and all processes in their home
  -- queues. Init must exist, and must not be the process.
  -- Before the call all processes must be in their home queues.
  pub k_proc_exit-Placed :
      (exit_status : ℤ) (init current : ℕ)
      → IsActive s pid
      → s.init_process ≡ some init
      → s.current_process ≡ some current
      → init ≢ pid
      → Returns
          (λ r t.
            (r ≡ pos 0)
            × Placed t
            × ((t.pcb pid).state ≡ zombied)
            × ((t.pcb pid).exit_status ≡ exit_status)
            × (has pid (t.queue zombie_queue) ≡ true))
          (k_proc_exit pid exit_status s)
  k_proc_exit-Placed exit_status init current a has_init has_current other =
      let z = zombified s pid exit_status in
      let self : z.pcb pid ≡ zombie_pcb s pid exit_status = ground arith in
      let ran : z.pcb pid ≡ zombie_pcb s pid exit_status → (z.pcb pid).state ≢ blocked =
        λ e h. let h' : zombied ≡ blocked = rw e at h in ground arith in
      let here : has pid (z.queue zombie_queue) ≡ true =
        ground (arith, has-append_one pid pid ((taken_out s pid exit_status).queue zombie_queue)) in
      Returns.mono
        (k_proc_exit-by s pid exit_status init current v a has_init has_current other (
          Returns.mono (unblock_parents-Placed z pid (zombified-Placed s pid exit_status v a))
            λ _ t (placed, spared, same). (same pid (ran self) ∙ self, placed, spared)))
        λ r t (zero_status, placed, t', is, spared, kept). (
          zero_status,
          placed,
          kept.state pid ∙ rw is refl,
          kept.exit_status pid ∙ rw is refl,
          rw (kept.queue, spared.zombies) here,
        )
