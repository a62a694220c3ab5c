-- ===== src/Shell/Execute.antt =====
-- src/shell/command_execution.c: `execute_job`. What the new process does, `execute_command`, is not part
-- of it. The shell is the current process: where it is suspended, `resume_job` goes on.
pub mod Plain
use pennos.Base.{
  ℕ, Bool, true, false, ◌||◌, ◌&&◌, List, [], ◌∷◌, Option, none, some, if◌then◌else◌, list_eq, ℤ,
  pos, negsuc, is_neg,
}
use pennos.Base.Run.{Run, ok, fault, diverge, pure, ◌>>=◌, ◌>>◌, get, put, deref}
use pennos.Fat.State.{f_read, f_write, f_append}
use pennos.Sched.Wait.{Wait, returned, suspended}
use pennos.Sched.Create.{Allocations}
use pennos.Sched.Sys.{s_waitpid}
use pennos.Sched.Spawn.{s_spawn}
use pennos.Sched.Own.{p_wifstopped}
use pennos.Calls.{System, s_open, s_close}
use pennos.Shell.Parser.{ParsedCommand}
use pennos.Shell.Jobs.{
  JobStatus, j_running_fg, j_running_bg, j_stopped, Job, Shell, Cmd, not_opened_stdin,
  not_opened_stdout, not_spawned, invalid, on_processes, print, load_job, store_job,
}
use pennos.Shell.Control.{element, status_of, note_stopped}

abbrev pub with_system_of : {A : Type 0} → Shell → Run System A → Run Shell A
with_system_of s (ok a k) = ok a (record s { system = k })
with_system_of s fault = fault
with_system_of s diverge = diverge

abbrev pub on_system : {A : Type 0} → (System → Run System A) → Cmd A
on_system m s = with_system_of s (m s.system)

-- The first words of the commands that start at `starts`.
unfoldable pub first_words : ParsedCommand → (starts : List ℕ) → Cmd (List (List ℕ))
first_words cmd [] = pure []
first_words cmd (start ∷ starts) = do
  argument ← deref (element cmd.arguments start)
  word ← deref argument
  words ← first_words cmd starts
  pure (word ∷ words)

abbrev pub any_is : List ℕ → List (List ℕ) → Bool
any_is word [] = false
any_is word (w ∷ ws) = list_eq w word || any_is word ws

unfoldable pub validate_command : ParsedCommand → Cmd (Unit {0})
validate_command cmd = do
  words ← first_words cmd cmd.commands
  if any_is (b'|' ∷ []) words && (any_is (b'>' ∷ []) words || any_is (b'<' ∷ []) words)
      then print invalid
      else pure tt

-- The descriptor of a redirection, or a standard one.
unfoldable pub open_file : Option (List ℕ) → (mode standard : ℕ) → Cmd ℤ
open_file none mode standard = pure (pos standard)
open_file (some name) mode standard = on_system (s_open name mode)

unfoldable pub close_file : Option (List ℕ) → ℤ → Cmd (Unit {0})
close_file none fd = pure tt
close_file (some name) fd = do _ ← on_system (s_close fd); pure tt

-- How `execute_job` ends: it returns, or the shell is suspended with the descriptors of the job open.
pub data Execution : Type 0 where
  executed : Execution
  executing : (stdin_fd stdout_fd : ℤ) → Execution

-- Behind the wait.
unfoldable pub finish_job : (p : ℕ) → (stdin_fd stdout_fd : ℤ) → (is_stopped : Bool) → Cmd Execution
finish_job p stdin_fd stdout_fd is_stopped = do
  note_stopped p is_stopped
  j ← load_job p
  close_file j.cmd.stdin_file stdin_fd
  close_file j.cmd.stdout_file stdout_fd
  pure executed

abbrev pub after_job : (garbage p : ℕ) → (stdin_fd stdout_fd : ℤ) → Wait → Cmd Execution
after_job garbage p stdin_fd stdout_fd (suspended _) = pure (executing stdin_fd stdout_fd)
after_job garbage p stdin_fd stdout_fd (returned _ stored) =
    finish_job p stdin_fd stdout_fd (p_wifstopped (status_of garbage stored))

-- From the call of `s_waitpid` on; `status` is not initialised before it, and holds `garbage`.
unfoldable pub resume_job : (garbage p : ℕ) → (stdin_fd stdout_fd : ℤ) → Cmd Execution
resume_job garbage p stdin_fd stdout_fd = do
  j ← load_job p
  w ← on_processes (s_waitpid j.pid false)
  after_job garbage p stdin_fd stdout_fd w

-- What follows the spawn, as the status of the job says.
abbrev pub wait_if : JobStatus → (garbage p : ℕ) → (stdin_fd stdout_fd : ℤ) → Cmd Execution
wait_if j_running_fg garbage p stdin_fd stdout_fd = resume_job garbage p stdin_fd stdout_fd
wait_if j_running_bg garbage p stdin_fd stdout_fd = pure executed
wait_if j_stopped garbage p stdin_fd stdout_fd = finish_job p stdin_fd stdout_fd false

unfoldable pub spawn_job : Allocations → (garbage p : ℕ) → (stdin_fd stdout_fd : ℤ) → Cmd Execution
spawn_job a garbage p stdin_fd stdout_fd = do
  pid ← on_processes (s_spawn a stdin_fd stdout_fd 1)
  j ← load_job p
  store_job p (record j { pid = pid })
  if is_neg pid then print not_spawned else pure tt
  wait_if j.status garbage p stdin_fd stdout_fd

-- When the file for the output cannot be opened, the one for the input stays open.
unfoldable pub execute_job : Allocations → (garbage p : ℕ) → Cmd Execution
execute_job a garbage p = do
  j ← load_job p
  validate_command j.cmd
  stdin_fd ← open_file j.cmd.stdin_file f_read 0
  if is_neg stdin_fd then (do print not_opened_stdin; pure executed) else (do
    stdout_fd ← open_file j.cmd.stdout_file (if j.cmd.is_file_append then f_append else f_write) 1
    if is_neg stdout_fd
        then (do print not_opened_stdout; pure executed)
        else spawn_job a garbage p stdin_fd stdout_fd)
