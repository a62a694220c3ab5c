-- ===== src/Shell/Execute/Plain.antt =====
-- src/shell/command_execution.c: `execute_job` for one command in the background, with the standard
-- descriptors.
use pennos.Base.{
  ℕ, ◌+◌, ◌≤◌, ◌≡◌, refl, ◌∙◌, true, false, List, [], ◌∷◌, Option, none, some, arith, list_eq,
  update, ℤ, pos,
}
use pennos.Base.Run.{ok}
use pennos.Base.Returns
use pennos.Base.Returns.{Returns, returns}
use pennos.Sched.State.{FdSlot, Scheduler}
use pennos.Sched.Queue.Invariant.{Placed}
use pennos.Sched.Create.Fresh.{Numbered, all_granted}
use pennos.Sched.Spawn.{s_spawn, s_spawn-inherits, redirected}
use pennos.Shell.Parser.{ParsedCommand}
use pennos.Shell.Jobs.{Job, j_running_bg, Shell, with_processes, store_job}
use pennos.Shell.Control.Background.{on_processes-then, load_job-ok}
use pennos.Shell.Execute.{first_words, validate_command, open_file, spawn_job, execute_job}

-- `word ... &`, without files.
abbrev pub background : (word : List ℕ) → (rest : List (Option (List ℕ))) → ParsedCommand
background word rest = record {
  is_background = true;
  is_file_append = false;
  stdin_file = none;
  stdout_file = none;
  num_commands = 1;
  commands = 0 ∷ [];
  arguments = some word ∷ rest;
}

validate_command-background :
    (s : Shell) (word : List ℕ) (rest : List (Option (List ℕ)))
    → list_eq word (b'|' ∷ []) ≡ false
    → validate_command (background word rest) s ≡ ok tt s
unfolding validate_command first_words
validate_command-background s word rest h = rw h refl

redirected_self : (table : ℕ → FdSlot) (i : ℕ) → redirected table (table 0) (table 1) i ≡ table i
redirected_self table i = ground arith

-- A process with its standard descriptors in use makes another.
pub record CanSpawn (parent : ℕ) (s : Scheduler) : Type 0 where
  pub placed : Placed s
  pub numbered : Numbered s
  pub is_current : s.current_process ≡ some parent
  pub old : parent ≤ s.process_count
  pub stdin : ((s.pcb parent).fd_table 0).in_use ≡ true
  pub stdout : ((s.pcb parent).fd_table 1).in_use ≡ true

-- The next process, with the table of its parent.
pub record Spawned (parent : ℕ) (s t : Scheduler) : Type 0 where
  pub placed : Placed t
  pub table : (i : ℕ) → (t.pcb (s.process_count + 1)).fd_table i ≡ (s.pcb parent).fd_table i
  pub is_current : t.current_process ≡ some parent

s_spawn-Spawned :
    (parent : ℕ) (s : Scheduler)
    → CanSpawn parent s
    → Returns
        (λ pid t. (pid ≡ pos (s.process_count + 1)) × Spawned parent s t)
        (s_spawn all_granted (pos 0) (pos 1) 1 s)
s_spawn-Spawned parent s c =
    Returns.mono
      (s_spawn-inherits s parent 0 1 1 c.placed c.numbered c.is_current c.old (omega arith)
        (omega arith) (omega arith) c.stdin c.stdout)
      λ pid t (is, placed, table, _, current, queued). (
        is,
        record {
          placed = placed;
          table = λ i. table i ∙ redirected_self (s.pcb parent).fd_table i;
          is_current = current;
        },
      )

-- A job in the background of one command without files.
abbrev pub plain_job :
    (id : ℕ) → (pid : ℤ) → (word : List ℕ) → (rest : List (Option (List ℕ))) → Job
plain_job id pid word rest = record {
  id = id;
  pid = pid;
  status = j_running_bg;
  cmd = background word rest;
}

module _ (s : Shell) (p parent garbage id : ℕ) (word : List ℕ) (rest : List (Option (List ℕ))) where
  abbrev pub spawned_job : Job
  spawned_job = plain_job id (pos (s.system.processes.process_count + 1)) word rest

  pub execute_job-spawns :
      (pid : ℤ)
      → s.job p ≡ some (plain_job id pid word rest)
      → list_eq word (b'|' ∷ []) ≡ false
      → CanSpawn parent s.system.processes
      → Returns
          (λ r t.
            (t.jobs ≡ s.jobs)
            × (t.job ≡ update s.job p (some spawned_job))
            × (t.output ≡ s.output)
            × (t.malloc ≡ s.malloc)
            × Spawned parent s.system.processes t.system.processes)
          (execute_job all_granted garbage p s)
  unfolding execute_job spawn_job open_file store_job
  execute_job-spawns pid here word_is c =
      let j = plain_job id pid word rest in
      rw (load_job-ok s p j here, validate_command-background s word rest word_is)
        (on_processes-then s _ (s_spawn-Spawned parent s.system.processes c) λ pid t (is, spawned).
          rw (is, load_job-ok (with_processes s t) p j here)
            (returns (refl, refl, refl, refl, spawned)))
