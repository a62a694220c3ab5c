-- ===== src/Shell/Loop/Reaping.antt =====
-- src/shell/penn-shell.c and src/scheduler/scheduler.c: the shell's loop over its children.
use pennos.Base.{ℕ, suc, ◌≡◌, refl, Bool, true, some, arith, has, pos, neg}
use pennos.Base.Returns
use pennos.Base.Returns.{Returns, returns}
use pennos.Sched.State.{zombie_queue, Scheduler, write_pcb}
use pennos.Sched.Queue.{erase}
use pennos.Sched.Queue.Invariant.{Placed, PlacedBut}
use pennos.Sched.Wait.{
  returned, w_exited, reap, zombie_child, scan_children, wait_any, wait_for, k_waitpid,
}
use pennos.Sched.Wait.Reap.{asking, reap-takes}
use pennos.Sched.Sys.{s_waitpid}
use pennos.Shell.Jobs.{Shell}
use pennos.Shell.Control.Background.{on_processes-then}
use pennos.Shell.Loop.{reap_jobs}

module _ (s : Scheduler) (parent c : ℕ) where
  k_waitpid-any :
      (nohang : Bool)
      → s.current_process ≡ some parent
      → scan_children s (s.pcb parent).children ≡ zombie_child c
      → k_waitpid (neg 1) nohang s ≡ reap parent c (asking s parent c (neg 1))
  unfolding k_waitpid wait_for wait_any write_pcb
  k_waitpid-any nohang is_parent first = ground (arith, is_parent, first)

  s_waitpid-reaps :
      Placed s
      → s.current_process ≡ some parent
      → scan_children s (s.pcb parent).children ≡ zombie_child c
      → has c (s.queue zombie_queue) ≡ true
      → Returns
          (λ r t.
            (r ≡ returned (pos 0) (some w_exited))
            × PlacedBut c t
            × ((t.pcb parent).children ≡ erase c (s.pcb parent).children))
          (s_waitpid (neg 1) true s)
  unfolding s_waitpid
  s_waitpid-reaps v is_parent first here = rw (k_waitpid-any true is_parent first) (
      Returns.bind (reap-takes s parent c (neg 1) v here)
        λ r t (is, placed, children, _). rw is (returns (refl, placed, children)))

module _ (s : Shell) (parent c rounds garbage : ℕ) where
  -- When a child of the shell has ended, the shell's loop over its children takes it out of the zombie
  -- queue and out of the list of children, and ends at once: `s_waitpid` returns 0 for the child and
  -- the loop wants a positive number. The job of the child, if there is one, stays in the list of jobs
  -- as it was, and nothing is printed.
  -- The shell is the current process, and of its children that are stopped or zombies, the child is the first in
  -- the list, and in the zombie queue. Before the loop all processes must be in their home queues.
  pub reap_jobs-forgets :
      Placed s.system.processes
      → s.system.processes.current_process ≡ some parent
      → scan_children s.system.processes (s.system.processes.pcb parent).children ≡ zombie_child c
      → has c (s.system.processes.queue zombie_queue) ≡ true
      → Returns
          (λ ends t.
            (ends ≡ true)
            × PlacedBut c t.system.processes
            × ((t.system.processes.pcb parent).children
                ≡ erase c (s.system.processes.pcb parent).children)
            × (t.jobs ≡ s.jobs)
            × (t.job ≡ s.job)
            × (t.output ≡ s.output))
          (reap_jobs (suc rounds) garbage s)
  unfolding reap_jobs
  reap_jobs-forgets v is_parent first here =
      on_processes-then s _ (s_waitpid-reaps s.system.processes parent c v is_parent first here)
        λ r t (is, placed, children). rw is (returns (refl, placed, children, refl, refl, refl))
