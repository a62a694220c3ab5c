-- ===== src/Shell/Control/Foreground.antt =====
-- src/shell/jobs.c: `handle_fg` on the last job of the list.
use pennos.Base.{ℕ, ◌≡◌, refl, ap, ◌∙◌, true, List, [], ◌∷◌, ◌++◌, some, arith, update, ◌==◌}
use mathlib.Core.List.{append-nil}
use pennos.Base.Run.{ok}
use pennos.Base.Returns
use pennos.Base.Returns.{Returns, returns}
use pennos.Sched.State.{Queue}
use pennos.Sched.Queue.{erase}
use pennos.Sched.Sys.Suspends.{Waits, CanWait, s_waitpid-Waits}
use pennos.Shell.Parser.{ParsedCommand}
use pennos.Shell.Jobs.{
  j_running_fg, j_running_bg, Shell, no_jobs_to_fg, text, command_text, set_jobs, with_jobs,
  with_status,
}
use pennos.Shell.Control.{
  reverse_onto, from_tail, continue_stopped, waits_for, after_wait, resume_fg, fg_job, handle_fg,
}
use pennos.Shell.Control.Background.{
  on_processes-then, IsAlone, first_command-IsAlone, load_job-ok, set_status-ok, search_target-last,
  print_job_command-ok, job_of,
}

-- The list without its last element.
reverse_onto-append :
    (l acc : List ℕ) (p : ℕ) → reverse_onto (l ++ p ∷ []) acc ≡ p ∷ reverse_onto l acc
reverse_onto-append [] acc p = refl
reverse_onto-append (q ∷ l) acc p = reverse_onto-append l (q ∷ acc) p

reverse_onto-reverse_onto :
    (l acc rest : List ℕ) → reverse_onto (reverse_onto l acc) rest ≡ reverse_onto acc (l ++ rest)
reverse_onto-reverse_onto [] acc rest = refl
reverse_onto-reverse_onto (q ∷ l) acc rest = reverse_onto-reverse_onto l (q ∷ acc) rest

pub from_tail-erase : (l : List ℕ) (p : ℕ) → from_tail (erase p (from_tail (l ++ p ∷ []))) ≡ l
from_tail-erase l p =
    let self : (p == p) ≡ true = ground arith in
    rw (reverse_onto-append l [] p, self) (reverse_onto-reverse_onto l [] [] ∙ append-nil l)

module _ (s : Shell) (p id c parent : ℕ) (q : Queue) (line : ParsedCommand) (shown : List ℕ) where
  pub resume_fg-Waits :
      (garbage : ℕ)
      → s.job p ≡ some (job_of id c j_running_fg line)
      → CanWait parent c q s.system.processes
      → Returns
          (λ r t.
            (r ≡ waits_for p)
            × (t.jobs ≡ s.jobs)
            × (t.job p ≡ some (job_of id c j_running_fg line))
            × (t.output ≡ s.output)
            × Waits parent c t.system.processes)
          (resume_fg garbage p s)
  unfolding resume_fg after_wait
  resume_fg-Waits garbage here w = rw (load_job-ok s p (job_of id c j_running_fg line) here) (
      on_processes-then s _ (s_waitpid-Waits s.system.processes parent c q w)
        λ r t (is, waits). rw is (returns (refl, refl, here, refl, waits)))

module _ (s : Shell) (p id c : ℕ) (line : ParsedCommand) where
  continue_stopped-running :
      s.job p ≡ some (job_of id c j_running_bg line) → continue_stopped p s ≡ ok tt s
  unfolding continue_stopped
  continue_stopped-running here = rw (load_job-ok s p (job_of id c j_running_bg line) here) refl

module _ (s : Shell) (p id c parent : ℕ) (q : Queue) (line : ParsedCommand) (shown : List ℕ) where
  fg_job-Waits :
      (garbage : ℕ)
      → s.job p ≡ some (job_of id c j_running_bg line)
      → command_text line ≡ some shown
      → CanWait parent c q s.system.processes
      → Returns
          (λ r t.
            (r ≡ waits_for p)
            × (t.jobs ≡ from_tail (erase p (from_tail s.jobs)))
            × (t.job p ≡ some (job_of id c j_running_fg line))
            × (t.output ≡ text shown ∷ s.output)
            × Waits parent c t.system.processes)
          (fg_job garbage (some p) s)
  unfolding fg_job set_jobs
  fg_job-Waits garbage here shows w =
      let j = job_of id c j_running_bg line in
      let s1 = with_jobs s (from_tail (erase p (from_tail s.jobs))) in
      let s2 = record s1 { output = text shown ∷ s.output } in
      let now : update s.job p (some (job_of id c j_running_fg line)) p
          ≡ some (job_of id c j_running_fg line) =
        ground arith in
      rw
        (
          print_job_command-ok s1 p j shown here shows,
          continue_stopped-running s2 p id c line here,
          set_status-ok s2 p j j_running_fg here,
        )
        (resume_fg-Waits (with_status s2 p j j_running_fg) p id c parent q line shown garbage now w)

  -- fg without an argument, when the last job of the list is running in the background: the job leaves
  -- the list and is marked as running in the foreground, its command is printed, and the shell is
  -- suspended until the job changes its state: it is blocked in the blocked queue, and waits for the
  -- job's process, which is not stopped. All processes are in their home queues then.
  -- The shell is the current process and in its ready queue, and the parent of the job's process,
  -- which is in some queue and neither stopped nor a zombie. The strings of the command can be
  -- printed. Before the call all processes must be in
  -- their home queues.
  pub handle_fg-Waits :
      (garbage : ℕ) (cmd : ParsedCommand) (l : List ℕ)
      → IsAlone cmd
      → s.jobs ≡ l ++ p ∷ []
      → s.job p ≡ some (job_of id c j_running_bg line)
      → command_text line ≡ some shown
      → CanWait parent c q s.system.processes
      → Returns
          (λ r t.
            (r ≡ waits_for p)
            × (t.jobs ≡ l)
            × (t.job p ≡ some (job_of id c j_running_fg line))
            × (t.output ≡ text shown ∷ s.output)
            × Waits parent c t.system.processes)
          (handle_fg garbage cmd s)
  unfolding handle_fg
  handle_fg-Waits garbage cmd l alone last here shows w =
      rw (first_command-IsAlone cmd s alone, search_target-last s no_jobs_to_fg l p last)
        (Returns.mono (fg_job-Waits garbage here shows w) λ r t (is, jobs, now, output, waits). (
          is,
          jobs ∙ ap (λ k. from_tail (erase p (from_tail k))) last ∙ from_tail-erase l p,
          now,
          output,
          waits,
        ))
