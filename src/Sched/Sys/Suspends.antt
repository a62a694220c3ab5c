-- ===== src/Sched/Sys/Suspends.antt =====
-- src/scheduler/sys.c: `s_waitpid` for a child that runs or is blocked.
use pennos.Base.{
  ℕ, ◌≡◌, ◌≢◌, refl, ap, true, false, some, arith, has, ℤ, pos, neg, ◌==◌, eq_ℤ, Bool-cases, inl,
  inr,
}
use pennos.Base.Run.{ok, deref}
use pennos.Base.Returns
use pennos.Base.Returns.{Returns, returns}
use pennos.Sched.State.{
  blocked, zombied, stopped, blocked_queue, Queue, Scheduler, set_pcb, write_pcb,
}
use pennos.Sched.Queue.Invariant.{Placed, Placed-set_pcb}
use pennos.Sched.Move.Placed.{IsReady}
use pennos.Sched.Wait.{suspended, k_waitpid}
use pennos.Sched.Wait.Reap.{k_waitpid-suspends}
use pennos.Sched.Sys.{s_set_errno, s_tcsetpid, s_waitpid}

-- A process that waits for another, which is not stopped.
pub record Waits (parent c : ℕ) (t : Scheduler) : Type 0 where
  pub placed : Placed t
  pub is_blocked : (t.pcb parent).state ≡ blocked
  pub waited : (t.pcb parent).waited_child ≡ pos c
  pub queued : has parent (t.queue blocked_queue) ≡ true
  pub not_stopped : (t.pcb c).state ≢ stopped

-- What is needed of a parent, in its ready queue, and its child, in a queue, to wait.
pub record CanWait (parent c : ℕ) (q : Queue) (s : Scheduler) : Type 0 where
  pub placed : Placed s
  pub is_parent : s.current_process ≡ some parent
  pub is_child : (s.pcb c).ppid ≡ parent
  pub not_zombie : (s.pcb c).state ≢ zombied
  pub not_stopped : (s.pcb c).state ≢ stopped
  pub here : has c (s.queue q) ≡ true
  pub other : c ≢ parent
  pub ready : IsReady s parent

k_waitpid-Waits :
    (parent c : ℕ) (q : Queue) (s : Scheduler)
    → CanWait parent c q s
    → Returns (λ w t. (w ≡ suspended (pos c)) × Waits parent c t) (k_waitpid (pos c) false s)
k_waitpid-Waits parent c q s w =
    Returns.mono
      (k_waitpid-suspends s parent c q w.placed w.is_parent w.is_child (w.not_zombie, w.not_stopped)
        w.here w.other w.ready)
      λ r t (is, placed, is_blocked, waited, queued, others). (
        is,
        record {
          placed = placed;
          is_blocked = is_blocked;
          waited = waited;
          queued = queued;
          not_stopped = rw (others c w.other) w.not_stopped;
        },
      )

module _ (s : Scheduler) (parent c : ℕ) (q : Queue) (w : CanWait parent c q s) where
  terminal-CanWait : (pid : ℤ) → CanWait parent c q (record s { terminal_controlling_pid = pid })
  terminal-CanWait pid = record {
    placed = record { homes = w.placed.homes; distinct = w.placed.distinct };
    is_parent = w.is_parent;
    is_child = w.is_child;
    not_zombie = w.not_zombie;
    not_stopped = w.not_stopped;
    here = w.here;
    other = w.other;
    ready = record { is_running = w.ready.is_running; queued = w.ready.queued };
  }

  refused-CanWait :
      CanWait parent c q (set_pcb s parent (record (s.pcb parent) { errnumber = neg 12 }))
  refused-CanWait =
      let other = w.other in
      let same : (parent == c) ≡ false = ground arith in
      let self : (parent == parent) ≡ true = ground arith in
      record {
        placed = Placed-set_pcb parent _ w.placed refl;
        is_parent = w.is_parent;
        is_child = rw same w.is_child;
        not_zombie = rw same w.not_zombie;
        not_stopped = rw same w.not_stopped;
        here = w.here;
        other = w.other;
        ready = record { is_running = rw self w.ready.is_running; queued = rw self w.ready.queued };
      }

  s_tcsetpid-CanWait : (pid : ℤ) → Returns (λ _ t. CanWait parent c q t) (s_tcsetpid pid s)
  unfolding s_tcsetpid s_set_errno write_pcb
  s_tcsetpid-CanWait pid =
      let current : deref s.current_process s ≡ ok parent s = ap (λ o. deref o s) w.is_parent in
      rw current (elim (Bool-cases (eq_ℤ s.terminal_controlling_pid (pos parent))) [
        | inl holds ↦ rw holds (returns (terminal-CanWait pid))
        | inr fails ↦ rw (fails, current) (returns refused-CanWait)
      ])

  pub s_waitpid-Waits :
      Returns (λ w t. (w ≡ suspended (pos c)) × Waits parent c t) (s_waitpid (pos c) false s)
  unfolding s_waitpid
  s_waitpid-Waits = Returns.bind (s_tcsetpid-CanWait (pos c)) λ _ t able.
      Returns.bind (k_waitpid-Waits parent c q t able)
        λ r u (is, waits). rw is (returns (refl, waits))
