-- ===== src/Shell/Control/Resume.antt =====
-- src/shell/jobs.c: `handle_fg` on a job that is stopped.
use pennos.Base.{ℕ, ◌≤◌, ◌≡◌, ◌≢◌, refl, ap, ◌∙◌, true, List, [], ◌∷◌, ◌++◌, some, arith, has}
use pennos.Base.Returns
use pennos.Base.Returns.{Returns, returns}
use pennos.Sched.State.{running, stopped, stopped_queue, ready_queue, Scheduler}
use pennos.Sched.Queue.{erase}
use pennos.Sched.Queue.Invariant.{Placed}
use pennos.Sched.Move.Placed.{IsReady}
use pennos.Sched.Sys.{p_sigcont, s_kill}
use pennos.Sched.Sys.Kill.{s_kill-continues, s_kill-continues-Kept}
use pennos.Shell.Parser.{ParsedCommand}
use pennos.Shell.Jobs.{
  j_running_fg, j_stopped, Shell, no_jobs_to_fg, text, command_text, set_jobs, with_jobs,
  with_status,
}
use pennos.Shell.Control.{from_tail, waits_for, kill_job, continue_stopped, fg_job, handle_fg}
use pennos.Shell.Control.Background.{
  on_processes-then, IsAlone, first_command-IsAlone, load_job-ok, set_status-ok, search_target-last,
  print_job_command-ok, job_of,
}
use pennos.Sched.Sys.Suspends.{Waits, CanWait}
use pennos.Shell.Control.Foreground.{resume_fg-Waits, from_tail-erase}

-- A shell in its ready queue with a stopped child.
pub record CanResume (parent c : ℕ) (s : Scheduler) : Type 0 where
  pub placed : Placed s
  pub is_parent : s.current_process ≡ some parent
  pub is_child : (s.pcb c).ppid ≡ parent
  pub is_stopped : (s.pcb c).state ≡ stopped
  pub here : has c (s.queue stopped_queue) ≡ true
  pub in_range : (s.pcb c).priority ≤ 2
  pub not_init : c ≢ 1
  pub other : c ≢ parent
  pub ready : IsReady s parent

s_kill-CanWait :
    (parent c : ℕ) (s : Scheduler)
    → CanResume parent c s
    → Returns (λ _ t. CanWait parent c (ready_queue (s.pcb c).priority) t) (s_kill c p_sigcont s)
s_kill-CanWait parent c s r =
    Returns.mono
      (Returns.both (s_kill-continues s c r.placed r.not_init r.is_stopped r.here r.in_range)
        (s_kill-continues-Kept s c r.placed r.not_init r.is_stopped r.here r.in_range))
      λ _ t ((_, moved, is), kept).
        let apart : parent ≢ c = λ e. ground (arith, r.other) in
        let same : t.pcb parent ≡ s.pcb parent = moved.others parent apart in
        let state : (t.pcb c).state ≡ running = ap (λ x. x.state) is in
        record {
          placed = moved.placed;
          is_parent = kept.current ∙ r.is_parent;
          is_child = ap (λ x. x.ppid) is ∙ r.is_child;
          not_zombie = λ e. ground (arith, state, e);
          not_stopped = λ e. ground (arith, state, e);
          here = moved.here;
          other = r.other;
          ready = record {
            is_running = ap (λ x. x.state) same ∙ r.ready.is_running;
            queued =
                ap (λ x. has parent (t.queue (ready_queue x.priority))) same
                ∙ kept.queued (ready_queue (s.pcb parent).priority) parent apart r.ready.queued;
          };
        }

module _ (s : Shell) (p id c parent : ℕ) (line : ParsedCommand) where
  continue_stopped-CanWait :
      s.job p ≡ some (job_of id c j_stopped line)
      → CanResume parent c s.system.processes
      → Returns
          (λ _ u.
            (u.jobs ≡ s.jobs)
            × (u.job ≡ s.job)
            × (u.output ≡ s.output)
            × CanWait parent c (ready_queue (s.system.processes.pcb c).priority) u.system.processes)
          (continue_stopped p s)
  unfolding continue_stopped kill_job
  continue_stopped-CanWait here r = rw (load_job-ok s p (job_of id c j_stopped line) here) (
      on_processes-then s _ (s_kill-CanWait parent c s.system.processes r)
        λ _ t able. returns (refl, refl, refl, able))

module _ (s : Shell) (p id c parent : ℕ) (line : ParsedCommand) (shown : List ℕ) where
  fg_job-resumes :
      (garbage : ℕ)
      → s.job p ≡ some (job_of id c j_stopped line)
      → command_text line ≡ some shown
      → CanResume parent c s.system.processes
      → Returns
          (λ r t.
            (r ≡ waits_for p)
            × (t.jobs ≡ from_tail (erase p (from_tail s.jobs)))
            × (t.job p ≡ some (job_of id c j_running_fg line))
            × (t.output ≡ text shown ∷ s.output)
            × Waits parent c t.system.processes)
          (fg_job garbage (some p) s)
  unfolding fg_job set_jobs
  fg_job-resumes garbage here shows r =
      let j = job_of id c j_stopped line in
      let q = ready_queue (s.system.processes.pcb c).priority in
      let s1 = with_jobs s (from_tail (erase p (from_tail s.jobs))) in
      let s2 = record s1 { output = text shown ∷ s.output } in
      rw (print_job_command-ok s1 p j shown here shows) (
        Returns.bind (continue_stopped-CanWait s2 p id c parent line here r)
          λ _ u (jobs, job, output, able).
            let v = with_status u p j j_running_fg in
            let now : v.job p ≡ some (job_of id c j_running_fg line) = ground arith in
            rw (set_status-ok u p j j_running_fg (ap (λ f. f p) job ∙ here)) (
              Returns.mono (resume_fg-Waits v p id c parent q line shown garbage now able)
                λ r t (is, same, fg, out, waits). (is, same ∙ jobs, fg, out ∙ output, waits)))

  -- fg without an argument, when the last job of the list is a stopped one: its process is
  -- continued, the job leaves the list and is marked as running in the foreground, its command is
  -- printed, and the shell is suspended until the job changes its state: it is blocked in the
  -- blocked queue, and waits for the job's process, which is not stopped any more. All processes are in their home queues then.
  -- The shell is the current process and in its ready queue, and the parent of the job's process,
  -- which is not init, is stopped in the stopped queue and has a valid priority. The strings of the
  -- command can be printed. Before the call all processes must be in their home queues.
  pub handle_fg-resumes :
      (garbage : ℕ) (cmd : ParsedCommand) (l : List ℕ)
      → IsAlone cmd
      → s.jobs ≡ l ++ p ∷ []
      → s.job p ≡ some (job_of id c j_stopped line)
      → command_text line ≡ some shown
      → CanResume parent c s.system.processes
      → Returns
          (λ r t.
            (r ≡ waits_for p)
            × (t.jobs ≡ l)
            × (t.job p ≡ some (job_of id c j_running_fg line))
            × (t.output ≡ text shown ∷ s.output)
            × Waits parent c t.system.processes)
          (handle_fg garbage cmd s)
  unfolding handle_fg
  handle_fg-resumes garbage cmd l alone last here shows r =
      rw (first_command-IsAlone cmd s alone, search_target-last s no_jobs_to_fg l p last)
        (Returns.mono (fg_job-resumes garbage here shows r) λ r t (is, jobs, now, output, waits). (
          is,
          jobs ∙ ap (λ k. from_tail (erase p (from_tail k))) last ∙ from_tail-erase l p,
          now,
          output,
          waits,
        ))
