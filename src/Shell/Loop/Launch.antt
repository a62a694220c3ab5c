-- ===== src/Shell/Loop/Launch.antt =====
-- src/shell/penn-shell.c: a command in the background, from its parsed form to its job in the list.
use pennos.Base.{
  ℕ, ◌+◌, ◌%◌, ◌^◌, ◌≡◌, refl, ap, ◌∙◌, true, false, List, [], ◌∷◌, ◌++◌, Option, some, arith, ◌==◌,
  list_eq, update, pos, neg,
}
use pennos.Base.Run.{ok}
use pennos.Base.Returns
use pennos.Base.Returns.{Returns, returns}
use pennos.Sched.Create.Fresh.{all_granted}
use pennos.Shell.Jobs.{
  Job, Shell, started, store_job, print, set_jobs, with_jobs, enqueue_job, is_fg,
}
use pennos.Shell.Control.Background.{load_job-ok}
use pennos.Shell.Execute.Plain.{background, plain_job, CanSpawn, Spawned, execute_job-spawns}
use pennos.Shell.Loop.{again, next_job_id, start_background, start_job}

enqueue_job-ok :
    (s : Shell) (p : ℕ) (j : Job)
    → s.job p ≡ some j
    → is_fg j.status ≡ false
    → s.malloc ≡ true
    → enqueue_job p s ≡ ok tt (with_jobs s (s.jobs ++ p ∷ []))
unfolding enqueue_job set_jobs
enqueue_job-ok s p j here not_fg granted = rw (load_job-ok s p j here, not_fg, granted) refl

module _ (s : Shell) (p parent garbage : ℕ) (word : List ℕ) (rest : List (Option (List ℕ))) where
  -- A command in the background: its process is created with the descriptors of the shell. Its
  -- job, with the next number and the new pid, and running in the background, is the last of the list;
  -- number and pid are printed.
  -- The line is one command, with no files, whose first word is not a bar; all memory is granted. The shell is
  -- the current process, with its standard descriptors in use. Before the call all processes must be
  -- in their home queues, and their pids and the shell's given out.
  pub start_job-background :
      list_eq word (b'|' ∷ []) ≡ false
      → s.malloc ≡ true
      → CanSpawn parent s.system.processes
      → let pid = s.system.processes.process_count + 1 in
        let id = (s.job_id + 1) % 2 ^ 64 in
        Returns
          (λ r t.
            (r ≡ again)
            × (t.jobs ≡ s.jobs ++ p ∷ [])
            × (t.job p ≡ some (plain_job id (pos pid) word rest))
            × (t.output ≡ started id (pos pid) ∷ s.output)
            × Spawned parent s.system.processes t.system.processes)
          (start_job all_granted garbage (some p) (background word rest) s)
  unfolding next_job_id store_job start_background print
  start_job-background word_is granted c =
      let pid = s.system.processes.process_count + 1 in
      let id = (s.job_id + 1) % 2 ^ 64 in
      let made : Job = plain_job id (neg 1) word rest in
      let s2 = record s { job_id = id; job = update s.job p (some made) } in
      let self : (p == p) ≡ true = ground arith in
      let positive : (pid == 0) ≡ false = ground arith in
      Returns.bind
        (execute_job-spawns s2 p parent garbage id word rest (neg 1) (rw self refl) word_is c)
        λ r t (jobs, job, output, malloc, spawned).
          let now : t.job p ≡ some (plain_job id (pos pid) word rest) =
            ap (λ f. f p) job ∙ rw self refl in
          let u = record t { output = started id (pos pid) ∷ t.output } in
          rw (load_job-ok t p (plain_job id (pos pid) word rest) now, positive)
            (rw (enqueue_job-ok u p (plain_job id (pos pid) word rest) now refl (malloc ∙ granted))
              (returns (
                refl,
                ap (λ l. l ++ p ∷ []) jobs,
                now,
                ap (λ o. started id (pos pid) ∷ o) output,
                spawned,
              )))
