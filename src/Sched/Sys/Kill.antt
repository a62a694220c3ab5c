-- ===== src/Sched/Sys/Kill.antt =====
-- src/scheduler/sys.c: what `s_kill` does to its target, and what it returns.
use pennos.Base.{ℕ, ◌≤◌, ◌≡◌, ◌≢◌, refl, true, false, none, some, arith, ◌==◌, has, pos, neg}
use pennos.Base.Returns
use pennos.Base.Returns.{Returns, returns, deref-Returns}
use pennos.Sched.State.{
  running, stopped, zombied, Queue, zombie_queue, stopped_queue, Scheduler, ok, set_pcb, write_pcb,
  ready_queue,
}
use pennos.Sched.Queue.Invariant.{Placed}
use pennos.Sched.Select.{k_get_process_by_pid, is_current}
use pennos.Sched.Select.Find.{k_get_process_by_pid-queued}
use pennos.Sched.Exit.Wake.{IsActive}
use pennos.Sched.Exit.Halt.{k_stop_process-Placed}
use pennos.Sched.Exit.Zombie.{k_proc_exit-Placed}
use pennos.Sched.Move.Placed.{Moved, k_continue_process-Moved}
use pennos.Sched.Move.Kept.{Kept, k_continue_process-Kept}
use pennos.Sched.Sys.{
  Signal, p_sigterm, p_sigstop, p_sigcont, other, s_kill, deliver, stop, terminate, continue,
  note_status, s_set_errno,
}

-- A signal to a process that exists and is not init is delivered.
pub s_kill-deliver :
    (s : Scheduler) (pid : ℕ) (q : Queue) (signal : Signal)
    → has pid (s.queue q) ≡ true
    → pid ≢ 1
    → s_kill pid signal s ≡ deliver pid signal s
unfolding s_kill
s_kill-deliver s pid q signal h ne =
    let not_init : (pid == 1) ≡ false = ground arith in
    ground (arith, k_get_process_by_pid-queued s pid q h)

module _ (s : Scheduler) (pid : ℕ) (v : Placed s) (ne : pid ≢ 1) where
  -- `s_kill` with P_SIGSTOP on an active process other than init that is not stopped leaves it stopped
  -- in the stopped queue, all processes in their home queues, and returns -1 as for an error.
  -- Before the call all processes must be in their home queues.
  pub s_kill-stops :
      IsActive s pid
      → (s.pcb pid).state ≢ stopped
      → Returns
          (λ r t.
            (r ≡ neg 1)
            × Placed t
            × ((t.pcb pid).state ≡ stopped)
            × (has pid (t.queue stopped_queue) ≡ true))
          (s_kill pid p_sigstop s)
  unfolding deliver stop note_status
  s_kill-stops a h = rw (s_kill-deliver s pid _ p_sigstop a.queued ne) (
      Returns.bind (k_stop_process-Placed s pid v a h)
        λ r t (zero, placed, now, there). rw zero (returns (refl, placed, now, there)))

  -- The target ends, also if it is the current process, for which the value of the call, which does
  -- not return then, says nothing.
  pub s_kill-ends :
      (current : ℕ)
      → IsActive s pid
      → s.init_process ≡ some 1
      → s.current_process ≡ some current
      → Returns
          (λ r t.
            (r ≡ neg 1)
            × Placed t
            × ((t.pcb pid).state ≡ zombied)
            × ((t.pcb pid).exit_status ≡ pos 1)
            × (has pid (t.queue zombie_queue) ≡ true))
          (s_kill pid p_sigterm s)
  unfolding deliver terminate note_status
  s_kill-ends current a is_init is_current = rw (s_kill-deliver s pid _ p_sigterm a.queued ne) (
      Returns.bind
        (k_proc_exit-Placed s pid v (pos 1) 1 current a is_init is_current (λ e. ground arith))
        λ r t (zero, placed, now, status, there).
          rw zero (returns (refl, placed, now, status, there)))

  -- `s_kill` with P_SIGTERM on an active process other than init and the current process leaves it a
  -- zombie with exit status 1 in the zombie queue, all processes in their home queues, and returns
  -- -1 as for an error. Some process must be current.
  -- Before the call all processes must be in their home queues.
  -- Init must be process 1.
  pub s_kill-terminates :
      (current : ℕ)
      → pid ≢ current
      → IsActive s pid
      → s.init_process ≡ some 1
      → s.current_process ≡ some current
      → Returns
          (λ r t.
            (r ≡ neg 1)
            × Placed t
            × ((t.pcb pid).state ≡ zombied)
            × ((t.pcb pid).exit_status ≡ pos 1)
            × (has pid (t.queue zombie_queue) ≡ true))
          (s_kill pid p_sigterm s)
  s_kill-terminates current not_self a is_init is_current = s_kill-ends current a is_init is_current

  -- `s_kill` with P_SIGCONT on a stopped process with a valid priority puts it, running, into its
  -- ready queue, and returns -1 as for an error.
  pub s_kill-continues :
      (s.pcb pid).state ≡ stopped
      → has pid (s.queue stopped_queue) ≡ true
      → (s.pcb pid).priority ≤ 2
      → Returns
          (λ r t.
            (r ≡ neg 1)
            × Moved s pid (ready_queue (s.pcb pid).priority) t
            × (t.pcb pid ≡ record (s.pcb pid) { state = running }))
          (s_kill pid p_sigcont s)
  unfolding deliver continue note_status
  s_kill-continues h here in_range = rw (s_kill-deliver s pid stopped_queue p_sigcont here ne) (
      Returns.bind (k_continue_process-Moved s pid v h here in_range)
        λ r t (zero, moved, is). rw zero (returns (refl, moved, is)))

module _ (s : Scheduler) (pid : ℕ) (v : Placed s) (ne : pid ≢ 1) where
  -- With P_SIGCONT on a stopped process all others stay in their queues.
  pub s_kill-continues-Kept :
      (s.pcb pid).state ≡ stopped
      → has pid (s.queue stopped_queue) ≡ true
      → (s.pcb pid).priority ≤ 2
      → Returns (λ _ t. Kept s pid t) (s_kill pid p_sigcont s)
  unfolding deliver continue note_status
  s_kill-continues-Kept h here in_range =
      rw (s_kill-deliver s pid stopped_queue p_sigcont here ne) (
        Returns.bind
          (Returns.both (k_continue_process-Moved s pid v h here in_range)
            (k_continue_process-Kept s pid v h here in_range))
          λ r t ((zero, _, _), kept). rw zero (returns kept))

-- `s_kill` on init, or with a signal that sys.h does not name, or on a pid that no process has,
-- returns -1, changes the error number of the current process and nothing else.
pub s_kill-refused :
    (s : Scheduler) (pid current : ℕ) (signal : Signal)
    → s.current_process ≡ some current
    → (k_get_process_by_pid s pid ≡ none
        → s_kill pid signal s
          ≡ ok (neg 1) (set_pcb s current (record (s.pcb current) { errnumber = neg 9 })))
      × (k_get_process_by_pid s pid ≡ some 1
          → s_kill pid signal s
            ≡ ok (neg 1) (set_pcb s current (record (s.pcb current) { errnumber = neg 11 })))
      × (k_get_process_by_pid s pid ≡ some pid
          → pid ≢ 1
          → s_kill pid other s
            ≡ ok (neg 1) (set_pcb s current (record (s.pcb current) { errnumber = neg 10 })))
unfolding s_kill deliver s_set_errno write_pcb
s_kill-refused s pid current signal h =
    (λ e. ground (arith, e, h), λ e. ground (arith, e, h), λ e ne. ground (arith, e, h))
