-- ===== src/Shell/Loop.antt =====
-- src/shell/penn-shell.c, shell_porcelain.c and signals.c: a turn of the shell's loop.
pub mod Reaping
pub mod Host
pub mod Launch
use pennos.Base.{
  ℕ, zero, suc, ◌+◌, ◌%◌, ◌^◌, Bool, true, false, ◌||◌, not, List, [], ◌∷◌, Option, none, some,
  ◌==◌, if◌then◌else◌, ℤ, pos, negsuc, neg, is_neg, eq_ℤ,
}
use pennos.Base.Run.{pure, ◌>>=◌, ◌>>◌, get, put, fault}
use pennos.Fat.Read.{Reading}
use pennos.Sched.Create.{Allocations}
use pennos.Sched.Wait.{Wait, returned, suspended}
use pennos.Sched.Sys.{Signal, p_sigint, p_sigtstp, s_waitpid}
use pennos.Sched.Own.{p_wifstopped, s_logout}
use pennos.Sched.State.{Scheduler}
use pennos.Base.Run.{Run}
use pennos.Calls.{s_read}
use pennos.Shell.Lexer.{is_nil}
use pennos.Shell.Parser.{
  Memory, ParsedCommand, Parsed, no_memory, parse_error, parsed, runs_on, parse_command,
}
use pennos.Shell.Jobs.{
  JobStatus, j_running_fg, j_running_bg, j_stopped, Job, Shell, Cmd, newline, unparseable,
  not_parsed, no_job, done, started, on_processes, print, load_job, store_job, set_status,
  is_stopped, is_positive, destroy_job, print_job_command, find_job_by_pid, enqueue_job,
  add_foreground_job, remove_foreground_job, remove_job_by_pid,
}
use pennos.Shell.Jobs
use pennos.Shell.Control.{
  Fg, waits_for, ended, status_of, kill_job, Handled, not_handled, handled, first_command,
  handle_jobs_commands,
}
use pennos.Shell.Execute.{Execution, executed, executing, on_system, execute_job}

-- SIGINT and SIGTSTP of the host, and any other.
pub data HostSignal : Type 0 where
  sigint sigtstp another : HostSignal

unfoldable pub pennos_signal_handler : HostSignal → Scheduler → Run Scheduler (Unit {0})
pennos_signal_handler sigtstp = do
  s ← get
  _ ← kill_job s.terminal_controlling_pid p_sigtstp
  pure tt
pennos_signal_handler sigint = do s ← get; _ ← kill_job s.terminal_controlling_pid p_sigint; pure tt
pennos_signal_handler another = pure tt

-- A job whose process has changed its state. `remove_job_by_pid` also frees the job.
abbrev pub note_change : (pid : ℤ) → (is_stopped : Bool) → Option ℕ → Cmd (Unit {0})
note_change pid b none = pure tt
note_change pid true (some p) = do set_status p j_stopped; remove_job_by_pid pid; enqueue_job p
note_change pid false (some p) = do
  j ← load_job p
  print (done j.id)
  print_job_command p
  remove_job_by_pid pid

-- What the loop condition makes of the wait: the pid, if it is positive, and the status.
abbrev pub changed : (garbage : ℕ) → Wait → Option (ℤ × ℕ)
changed garbage (suspended _) = none
changed garbage (returned pid stored) =
    if is_positive pid then some (pid, status_of garbage stored) else none

-- The inner loop, and whether it has ended.
unfoldable pub reap_jobs : (rounds garbage : ℕ) → Cmd Bool
reap_jobs zero garbage = pure false
reap_jobs (suc rounds) garbage = do
  w ← on_processes (s_waitpid (neg 1) true)
  elim (changed garbage w) [
    | none ↦ pure true
    | some (pid, status) ↦ do
      found ← find_job_by_pid pid
      note_change pid (p_wifstopped status) found
      reap_jobs rounds status
  ]

-- What `read_command` returns, with the command.
pub data Command : Type 0 where
  end_of_file failed : Command
  read_line : ParsedCommand → Command

abbrev pub no_command : Parsed → Cmd Command
no_command no_memory = do print not_parsed; pure failed
no_command (parse_error _) = do print unparseable; pure failed
no_command (parsed cmd) = pure (read_line cmd)
no_command runs_on = λ _. Run.diverge

-- The string that ends with the first null byte.
abbrev pub as_string : List ℕ → List ℕ
as_string [] = []
as_string (c ∷ s) = let rest = as_string s in if c == 0 then [] else c ∷ rest

abbrev pub ends_in_newline : List ℕ → Bool
ends_in_newline [] = false
ends_in_newline (c ∷ s) = let rest = ends_in_newline s in if is_nil s then c == 10 else rest

-- The line that `s_read` has put into the buffer.
unfoldable pub parse_line_read : Memory → List ℕ → Cmd Command
parse_line_read m line = do
  if ends_in_newline line then pure tt else print newline
  no_command (parse_command m (as_string line))

-- The bytes that `s_read` counts are in the buffer.
unfoldable pub read_command : Memory → Cmd Command
read_command m = do
  r ← on_system (s_read (pos 0) (pos 4096))
  if is_neg r.status
      then (λ _. Run.diverge)
      else if eq_ℤ r.status (pos 0)
      then (do print newline; pure end_of_file)
      else parse_line_read m r.bytes

-- Where a turn ends: at its end, or in one of the two places in which the shell waits for a job.
pub data Turn : Type 0 where
  again : Turn
  in_fg : Fg → Turn
  in_job : (p : ℕ) → Execution → Turn

-- Behind `execute_job` for a job in the foreground.
unfoldable pub leave_job : (p : ℕ) → Execution → Cmd Turn
leave_job p (executing stdin_fd stdout_fd) = pure (in_job p (executing stdin_fd stdout_fd))
leave_job p executed = do
  j ← load_job p
  if is_stopped j.status then pure tt else (do remove_foreground_job p; destroy_job p)
  pure again

abbrev pub new_job : (id : ℕ) → JobStatus → ParsedCommand → Job
new_job id status cmd = record { id = id; pid = neg 1; status = status; cmd = cmd }

unfoldable pub start_background : Allocations → (garbage p : ℕ) → Cmd Turn
start_background a garbage p = do
  _ ← execute_job a garbage p
  j ← load_job p
  if is_positive j.pid then print (started j.id j.pid) else pure tt
  enqueue_job p
  pure again

unfoldable pub start_foreground : Allocations → (garbage p : ℕ) → Cmd Turn
start_foreground a garbage p = do add_foreground_job p; w ← execute_job a garbage p; leave_job p w

abbrev pub start_as : (is_background : Bool) → Allocations → (garbage p : ℕ) → Cmd Turn
start_as true a garbage p = start_background a garbage p
start_as false a garbage p = start_foreground a garbage p

abbrev pub status_as : (is_background : Bool) → JobStatus
status_as true = j_running_bg
status_as false = j_running_fg

-- `++job_id`, in 64 bits.
unfoldable pub next_job_id : Cmd ℕ
next_job_id = do s ← get; let id = (s.job_id + 1) % 2 ^ 64; put (record s { job_id = id }); pure id

-- `allocated` is what `malloc` returns for the job.
abbrev pub start_job :
    Allocations → (garbage : ℕ) → (allocated : Option ℕ) → ParsedCommand → Cmd Turn
start_job a garbage none cmd = do print no_job; pure again
start_job a garbage (some p) cmd = do
  id ← next_job_id
  store_job p (new_job id (status_as cmd.is_background) cmd)
  start_as cmd.is_background a garbage p

abbrev pub after_builtin :
    Allocations → (garbage : ℕ) → (allocated : Option ℕ) → ParsedCommand → Handled → Cmd Turn
after_builtin a garbage allocated cmd (handled w) = pure (in_fg w)
after_builtin a garbage allocated cmd not_handled = start_job a garbage allocated cmd

-- A command without a first word is skipped.
abbrev pub run_command :
    Allocations
    → (garbage : ℕ) → (allocated : Option ℕ) → ParsedCommand
    → Option (List ℕ)
    → Cmd Turn
run_command a garbage allocated cmd none = pure again
run_command a garbage allocated cmd (some word) = do
  h ← handle_jobs_commands garbage cmd
  after_builtin a garbage allocated cmd h

abbrev pub take_command : Allocations → (garbage : ℕ) → (allocated : Option ℕ) → Command → Cmd Turn
take_command a garbage allocated end_of_file = do on_processes s_logout; pure again
take_command a garbage allocated failed = pure again
take_command a garbage allocated (read_line cmd) =
    if cmd.num_commands == 0
    then pure again
    else (do word ← first_command cmd 0; run_command a garbage allocated cmd word)

-- From the prompt on.
unfoldable pub take_turn : Allocations → Memory → (garbage : ℕ) → (allocated : Option ℕ) → Cmd Turn
take_turn a m garbage allocated = do c ← read_command m; take_command a garbage allocated c
