-- ===== src/Shell/Loop/Host.antt =====
-- src/shell/signals.c: the handler for the signals of the host.
use pennos.Base.{ℕ, ◌≡◌, ◌≢◌, ap, ◌∙◌, sym, true, false, some, has, ◌∷◌, pos}
use pennos.Base.Returns
use pennos.Base.Returns.{Returns, returns}
use pennos.Sched.State.{zombied, zombie_queue, Scheduler, log_signaled, write_log}
use pennos.Sched.Queue.Invariant.{Placed, Placed-log}
use pennos.Sched.Exit.Wake.{IsActive}
use pennos.Sched.Sys.{p_sigint, p_sigterm, s_kill, deliver}
use pennos.Sched.Sys.Kill.{s_kill-deliver, s_kill-ends}
use pennos.Shell.Control.{kill_job}
use pennos.Shell.Loop.{sigint, pennos_signal_handler}

module _ (s : Scheduler) (pid : ℕ) (ne : pid ≢ 1) where
  abbrev logged : Scheduler
  logged = record s { log = log_signaled pid ∷ s.log }

  logged-IsActive : IsActive s pid → IsActive logged pid
  logged-IsActive a = record { queued = a.queued; not_zombie = a.not_zombie }

  -- A process is ended by the signal that it does not ignore as by P_SIGTERM.
  s_kill-sigint :
      IsActive s pid
      → (s.pcb pid).ignore_sigint ≡ false
      → s_kill pid p_sigint s ≡ s_kill pid p_sigterm logged
  unfolding deliver write_log
  s_kill-sigint a heeds =
      s_kill-deliver s pid _ p_sigint a.queued ne
      ∙ rw heeds (sym (s_kill-deliver logged pid _ p_sigterm a.queued ne))

  -- Ctrl-C on the terminal ends the process which controls it, if it does not ignore the signal: it
  -- is a zombie with exit status 1 in the zombie queue, and all processes are in their home queues.
  -- The process is active and not init, which is process 1, and some process is current. Before the
  -- signal all processes must be in their home queues.
  pub pennos_signal_handler-ends :
      (current : ℕ)
      → Placed s
      → s.terminal_controlling_pid ≡ pos pid
      → (s.pcb pid).ignore_sigint ≡ false
      → IsActive s pid
      → s.init_process ≡ some 1
      → s.current_process ≡ some current
      → Returns
          (λ _ t.
            Placed t
            × ((t.pcb pid).state ≡ zombied)
            × ((t.pcb pid).exit_status ≡ pos 1)
            × (has pid (t.queue zombie_queue) ≡ true))
          (pennos_signal_handler sigint s)
  unfolding pennos_signal_handler kill_job
  pennos_signal_handler-ends current v controls heeds a is_init is_current =
      let ended =
        s_kill-ends logged pid (Placed-log _ v) ne current (logged-IsActive a) is_init is_current in
      let run : kill_job s.terminal_controlling_pid p_sigint s ≡ s_kill pid p_sigterm logged =
        ap (λ c. kill_job c p_sigint s) controls ∙ s_kill-sigint a heeds in
      rw run (
        Returns.bind ended
          λ r t (_, placed, now, status, there). returns (placed, now, status, there))
