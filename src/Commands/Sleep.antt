-- ===== src/Commands/Sleep.antt =====
-- src/shell/commands.c: `sleep`, up to its suspension and from its last resumption on.
use pennos.Base.{ℕ, ◌≡◌, refl, ap, pos}
use pennos.Base.Run.{ok, deref}
use pennos.Base.Returns
use pennos.Base.Returns.{Returns, returns}
use pennos.Sched.Queue.Invariant.{Placed}
use pennos.Sched.Move.{k_resume_sleep}
use pennos.Sched.Own.{resume_sleep}
use pennos.Calls.{System, current_process}
use pennos.Calls.Lift.{with_processes-Returns}
use pennos.Commands.{exit}
use pennos.Commands.Remove.{CanExit, Ended, s_exit-Ended}
use pennos.Commands.Process.{slept, resume_sleep_command}

module _ (s : System) (pid : ℕ) where
  -- A process that slept and is resumed when no sleeping time is left ends with status 0, as a zombie
  -- in the zombie queue, and all processes are in their home queues. It is current, active and not
  -- init, which is process 1; before the call all processes must be in their home queues.
  pub resume_sleep_command-ends :
      CanExit pid s.processes
      → (s.processes.pcb pid).sleep_time ≡ 0
      → Returns
          (λ r t. (r ≡ slept) × Ended pid (pos 0) t.processes × (t.files ≡ s.files))
          (resume_sleep_command s)
  unfolding resume_sleep_command current_process resume_sleep k_resume_sleep exit
  resume_sleep_command-ends c over =
      let current : deref s.processes.current_process s ≡ ok pid s =
        ap (λ o. deref o s) c.is_current in
      rw (current, over)
        (Returns.bind (with_processes-Returns s.files (s_exit-Ended pid (pos 0) s.processes c))
          λ _ t (ended, same). returns (refl, ended, same))
