-- ===== src/Tests/Jobs.antt =====
-- src/shell: the job control of the shell on a list of two jobs.
use pennos.Base.{
  ℕ, ◌≡◌, refl, true, List, [], ◌∷◌, Option, none, some, ltb, ◌==◌, has, pos, if◌then◌else◌, arith,
}
use pennos.Base.Returns.{Returns}
use pennos.Sched.State.{running, zombied, low, blocked_queue, zombie_queue, Scheduler}
use pennos.Sched.Wait.{scan_children}
use pennos.Sched.Queue.Invariant.{Placed, PlacedBut}
use pennos.Sched.Move.Placed.{Moved}
use pennos.Sched.Create.Fresh.{all_granted}
use pennos.Shell.Parser.{ParsedCommand}
use pennos.Shell.Jobs.{
  command_text, commands_text, words_text, Job, j_stopped, j_running_bg, j_running_fg, Shell, text,
  resumed, started,
}
use pennos.Shell.Control.{waits_for, handle_bg, handle_fg, strtol, digits, signed}
use pennos.Shell.Control.Background.{job_of, handle_bg-resumes}
use pennos.Sched.Sys.Suspends.{Waits}
use pennos.Shell.Control.Foreground.{handle_fg-Waits}
use pennos.Shell.Control.Resume.{handle_fg-resumes}
use pennos.Shell.Execute.Plain.{background, plain_job, Spawned}
use pennos.Shell.Loop.{sigint, pennos_signal_handler, reap_jobs, again, start_job}
use pennos.Shell.Loop.Host.{pennos_signal_handler-ends}
use pennos.Shell.Loop.Launch.{start_job-background}
use pennos.Shell.Loop.Reaping.{reap_jobs-forgets}
use pennos.Tests.Processes.{example, example_pcb, example-Placed, example-Numbered, example-IsReady}
use pennos.Tests.Disk.{disk}

-- `w`.
abbrev line : ParsedCommand
line = background (b'w' ∷ []) (none ∷ [])

-- `fg` and `bg`.
abbrev fg_line : ParsedCommand
fg_line = background (b'f' ∷ b'g' ∷ []) (none ∷ [])

abbrev bg_line : ParsedCommand
bg_line = background (b'b' ∷ b'g' ∷ []) (none ∷ [])

-- The jobs of the stopped process 5 and of the blocked process 4.
abbrev job_at : ℕ → Option Job
job_at p =
    if p == 50
    then some (job_of 1 5 j_stopped line)
    else if p == 40
    then some (job_of 2 4 j_running_bg line)
    else none

abbrev shell_with : List ℕ → Shell
shell_with jobs = record {
  system = record { files = disk; processes = example };
  jobs = jobs;
  job = job_at;
  job_id = 2;
  malloc = true;
  output = [];
}

handle_bg-resumes_example :
    Returns
      (λ _ t.
        (t.jobs ≡ 40 ∷ 50 ∷ [])
        × (t.job 50 ≡ some (job_of 1 5 j_running_bg line))
        × (t.output ≡ text (b'w' ∷ []) ∷ resumed 1 ∷ [])
        × Moved example 5 low t.system.processes
        × ((t.system.processes.pcb 5).state ≡ running))
      (handle_bg bg_line (shell_with (40 ∷ 50 ∷ [])))
unfolding command_text commands_text words_text
handle_bg-resumes_example =
    handle_bg-resumes (shell_with (40 ∷ 50 ∷ [])) 50 1 5 line (b'w' ∷ []) bg_line (40 ∷ [])
      (record { start = refl; argument = refl }) refl refl refl example-Placed (λ e. ground arith)
      refl refl (omega arith)

handle_fg-Waits_example :
    Returns
      (λ r t.
        (r ≡ waits_for 40)
        × (t.jobs ≡ 50 ∷ [])
        × (t.job 40 ≡ some (job_of 2 4 j_running_fg line))
        × (t.output ≡ text (b'w' ∷ []) ∷ [])
        × Waits 2 4 t.system.processes)
      (handle_fg 7 fg_line (shell_with (50 ∷ 40 ∷ [])))
unfolding command_text commands_text words_text
handle_fg-Waits_example =
    handle_fg-Waits (shell_with (50 ∷ 40 ∷ [])) 40 2 4 2 blocked_queue line (b'w' ∷ []) 7 fg_line
      (50 ∷ []) (record { start = refl; argument = refl }) refl refl refl
      (record {
        placed = example-Placed;
        is_parent = refl;
        is_child = refl;
        not_zombie = λ e. ground arith;
        not_stopped = λ e. ground arith;
        here = refl;
        other = λ e. ground arith;
        ready = example-IsReady;
      })

-- The stopped process 5 as a child of the shell.
abbrev with_stopped_child : Scheduler
with_stopped_child = record example {
  pcb = λ p. record (example_pcb p) { ppid = if p == 5 then 2 else (example_pcb p).ppid };
}

abbrev stopped_last : Shell
stopped_last = record (shell_with (40 ∷ 50 ∷ [])) {
  system = record { files = disk; processes = with_stopped_child };
}

handle_fg-resumes_example :
    Returns
      (λ r t.
        (r ≡ waits_for 50)
        × (t.jobs ≡ 40 ∷ [])
        × (t.job 50 ≡ some (job_of 1 5 j_running_fg line))
        × (t.output ≡ text (b'w' ∷ []) ∷ [])
        × Waits 2 5 t.system.processes)
      (handle_fg 7 fg_line stopped_last)
unfolding command_text commands_text words_text
handle_fg-resumes_example =
    handle_fg-resumes stopped_last 50 1 5 2 line (b'w' ∷ []) 7 fg_line (40 ∷ [])
      (record { start = refl; argument = refl }) refl refl refl
      (record {
        placed = record { homes = example-Placed.homes; distinct = example-Placed.distinct };
        is_parent = refl;
        is_child = refl;
        is_stopped = refl;
        here = refl;
        in_range = omega arith;
        not_init = λ e. ground arith;
        other = λ e. ground arith;
        ready = record { is_running = refl; queued = refl };
      })

reap_jobs-forgets_example :
    Returns
      (λ ends t.
        (ends ≡ true)
        × PlacedBut 6 t.system.processes
        × ((t.system.processes.pcb 2).children ≡ 4 ∷ [])
        × (t.jobs ≡ 50 ∷ 40 ∷ [])
        × (t.job ≡ job_at)
        × (t.output ≡ []))
      (reap_jobs 1 7 (shell_with (50 ∷ 40 ∷ [])))
unfolding scan_children
reap_jobs-forgets_example =
    reap_jobs-forgets (shell_with (50 ∷ 40 ∷ [])) 2 6 0 7 example-Placed refl refl refl

-- Process 3 has the terminal.
abbrev with_terminal : Scheduler
with_terminal = record example { terminal_controlling_pid = pos 3 }

pennos_signal_handler-ends_example :
    Returns
      (λ _ t.
        Placed t
        × ((t.pcb 3).state ≡ zombied)
        × ((t.pcb 3).exit_status ≡ pos 1)
        × (has 3 (t.queue zombie_queue) ≡ true))
      (pennos_signal_handler sigint with_terminal)
pennos_signal_handler-ends_example =
    pennos_signal_handler-ends with_terminal 3 (λ e. ground arith) 2
      (record { homes = example-Placed.homes; distinct = example-Placed.distinct }) refl refl
      (record { queued = refl; not_zombie = λ e. ground arith }) refl refl

-- The standard descriptors of every process are in use.
abbrev processes : Scheduler
processes = record example {
  pcb = λ p. record (example_pcb p) {
    fd_table = λ i. record { global_fd = i; offset = 0; mode = 0; in_use = ltb i 3 };
  };
}

abbrev starting : Shell
starting = record (shell_with (50 ∷ [])) { system = record { files = disk; processes = processes } }

start_job-background_example :
    Returns
      (λ r t.
        (r ≡ again)
        × (t.jobs ≡ 50 ∷ 60 ∷ [])
        × (t.job 60 ≡ some (plain_job 3 (pos 7) (b'w' ∷ []) (none ∷ [])))
        × (t.output ≡ started 3 (pos 7) ∷ [])
        × Spawned 2 processes t.system.processes)
      (start_job all_granted 7 (some 60) line starting)
start_job-background_example =
    start_job-background starting 60 2 7 (b'w' ∷ []) (none ∷ []) refl refl (record {
      placed = record { homes = example-Placed.homes; distinct = example-Placed.distinct };
      numbered = record { given = example-Numbered.given };
      is_current = refl;
      old = omega arith;
      stdin = refl;
      stdout = refl;
    })

-- Text behind the number, and a negative one.
strtol_texts :
    (strtol (32 ∷ b'1' ∷ b'2' ∷ b'x' ∷ []) ≡ 12)
    × (strtol (b'-' ∷ b'1' ∷ []) ≡ 0xFFFF_FFFF_FFFF_FFFF)
unfolding strtol digits signed
strtol_texts = (refl, refl)
