-- ===== src/Shell/Control/Background.antt =====
-- src/shell/jobs.c: `handle_bg` on the job that was stopped last.
use pennos.Base.{
  ℕ, ◌≡◌, ◌≢◌, ◌≤◌, refl, ap, true, List, [], ◌∷◌, ◌++◌, none, some, ◌∙◌, arith, has, pos,
}
use pennos.Base.Run.{Run, ok, deref, and_then}
use pennos.Base.Returns.{Returns, returns}
use pennos.Sched.State.{running, stopped, stopped_queue, ready_queue, Scheduler}
use pennos.Sched.Queue.Invariant.{Placed}
use pennos.Sched.Move.Placed.{Moved}
use pennos.Sched.Sys.Kill.{s_kill-continues}
use pennos.Shell.Parser.{ParsedCommand}
use pennos.Shell.Jobs.{
  Job, JobStatus, Message, with_processes, j_stopped, j_running_bg, Shell, no_jobs_to_bg, text,
  command_text, resumed, load_job, set_status, with_status, with_system, print, print_job_command,
  first_of,
}
use pennos.Shell.Control.{
  found_or, first_command, element, reverse_onto, from_tail, search_target, kill_job, bg_job,
  handle_bg,
}

-- The last element.
pub first_of-from_tail :
    (l acc : List ℕ) (p : ℕ) → first_of (reverse_onto (l ++ p ∷ []) acc) ≡ some p
first_of-from_tail [] acc p = refl
first_of-from_tail (q ∷ l) acc p = first_of-from_tail l (q ∷ acc) p

pub on_processes-then :
    {A B : Type 0} {P : A → Scheduler → Type 0} {Q : B → Shell → Type 0} (s : Shell)
    {r : Run Scheduler A} (f : A → Shell → Run Shell B)
    → Returns P r
    → ((a : A) (t : Scheduler) → P a t → Returns Q (f a (with_processes s t)))
    → Returns Q (and_then (with_system s r) f)
on_processes-then s f (returns p) next = next _ _ p

-- A command whose words are one command without an argument.
pub record IsAlone (cmd : ParsedCommand) : Type 0 where
  pub start : element cmd.commands 0 ≡ some 0
  pub argument : element cmd.arguments 1 ≡ some none

pub first_command-IsAlone :
    (cmd : ParsedCommand) (s : Shell) → IsAlone cmd → first_command cmd 1 s ≡ ok none s
unfolding first_command
first_command-IsAlone cmd s a = rw (a.start, a.argument) refl

pub load_job-ok : (s : Shell) (p : ℕ) (j : Job) → s.job p ≡ some j → load_job p s ≡ ok j s
unfolding load_job
load_job-ok s p j h = ap (λ o. deref o s) h

pub set_status-ok :
    (s : Shell) (p : ℕ) (j : Job) (st : JobStatus)
    → s.job p ≡ some j
    → set_status p st s ≡ ok tt (with_status s p j st)
unfolding set_status
set_status-ok s p j st h = rw (load_job-ok s p j h) refl

pub search_target-last :
    (s : Shell) (nothing : Message) (l : List ℕ) (p : ℕ)
    → s.jobs ≡ l ++ p ∷ []
    → search_target nothing none s ≡ ok (some p) s
unfolding search_target
search_target-last s nothing l p h =
    ap (λ o. found_or nothing o s) (ap (λ k. first_of (from_tail k)) h ∙ first_of-from_tail l [] p)

pub print_job_command-ok :
    (s : Shell) (p : ℕ) (j : Job) (shown : List ℕ)
    → s.job p ≡ some j
    → command_text j.cmd ≡ some shown
    → print_job_command p s ≡ ok tt (record s { output = text shown ∷ s.output })
unfolding print_job_command print
print_job_command-ok s p j shown h t = rw (load_job-ok s p j h, t) refl

abbrev pub job_of : (id c : ℕ) → JobStatus → ParsedCommand → Job
job_of id c status cmd = record { id = id; pid = pos c; status = status; cmd = cmd }

module _ (s : Shell) (p id c : ℕ) (line : ParsedCommand) (shown : List ℕ) where
  bg_job-resumes :
      s.job p ≡ some (job_of id c j_stopped line)
      → command_text line ≡ some shown
      → Placed s.system.processes
      → c ≢ 1
      → (s.system.processes.pcb c).state ≡ stopped
      → has c (s.system.processes.queue stopped_queue) ≡ true
      → (s.system.processes.pcb c).priority ≤ 2
      → Returns
          (λ _ t.
            (t.jobs ≡ s.jobs)
            × (t.job p ≡ some (job_of id c j_running_bg line))
            × (t.output ≡ text shown ∷ resumed id ∷ s.output)
            × Moved s.system.processes c
                (ready_queue (s.system.processes.pcb c).priority)
                t.system.processes
            × ((t.system.processes.pcb c).state ≡ running))
          (bg_job (some p) s)
  unfolding bg_job kill_job print
  bg_job-resumes here t v ne is_stopped queued in_range =
      let s' = with_status s p (job_of id c j_stopped line) j_running_bg in
      rw
        (
          load_job-ok s p (job_of id c j_stopped line) here,
          set_status-ok s p (job_of id c j_stopped line) j_running_bg here,
        )
        (on_processes-then s' _
          (s_kill-continues s.system.processes c v ne is_stopped queued in_range)
          λ r u (_, moved, is).
            let now = with_processes s' u in
            rw
              (print_job_command-ok (record now { output = resumed id ∷ s.output }) p
                (job_of id c j_running_bg line) shown (ground arith) t)
              (returns (refl, ground arith, refl, moved, ap (λ x. x.state) is)))

  -- bg without an argument, when the last job of the list is a stopped one: the job stays in the list,
  -- now marked as running in the background, its process is running, in the ready queue of its
  -- priority, and all processes are in their home queues; the job's number and command are printed.
  -- The strings of the command can be printed.
  -- The job's process is not init, is stopped in the stopped queue and has a valid priority. Before
  -- the call all processes must be in their home queues.
  pub handle_bg-resumes :
      (cmd : ParsedCommand) (l : List ℕ)
      → IsAlone cmd
      → s.jobs ≡ l ++ p ∷ []
      → s.job p ≡ some (job_of id c j_stopped line)
      → command_text line ≡ some shown
      → Placed s.system.processes
      → c ≢ 1
      → (s.system.processes.pcb c).state ≡ stopped
      → has c (s.system.processes.queue stopped_queue) ≡ true
      → (s.system.processes.pcb c).priority ≤ 2
      → Returns
          (λ _ t.
            (t.jobs ≡ s.jobs)
            × (t.job p ≡ some (job_of id c j_running_bg line))
            × (t.output ≡ text shown ∷ resumed id ∷ s.output)
            × Moved s.system.processes c
                (ready_queue (s.system.processes.pcb c).priority)
                t.system.processes
            × ((t.system.processes.pcb c).state ≡ running))
          (handle_bg cmd s)
  unfolding handle_bg
  handle_bg-resumes cmd l alone last here t v ne is_stopped queued in_range =
      rw (first_command-IsAlone cmd s alone, search_target-last s no_jobs_to_bg l p last)
        (bg_job-resumes here t v ne is_stopped queued in_range)
