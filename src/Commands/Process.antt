-- ===== src/Commands/Process.antt =====
-- src/shell/commands.c: the commands on processes.
use pennos.Base.{
  ℕ, zero, suc, ◌+◌, ◌/◌, ◌%◌, ◌^◌, Bool, false, List, [], ◌∷◌, ◌++◌, Option, none, some, ◌==◌,
  if◌then◌else◌, list_eq, codes, ℤ, pos, negsuc, neg, eq_ℤ,
}
use pennos.Base.Run.{Run, pure, diverge, ◌>>=◌, ◌>>◌, get}
use pennos.Fat.Seek.{as_u32}
use pennos.Sched.State.{Scheduler}
use pennos.Sched.Create.{Allocations}
use pennos.Sched.Spawn.{s_spawn}
use pennos.Sched.Sys.{Signal, p_sigterm, p_sigstop, p_sigcont, out_of_range, s_nice, fail}
use pennos.Sched.Own.{Sleep, awake, asleep, s_sleep, resume_sleep}
use pennos.Calls.{Cmd, on_processes, as_int, current_process}
use pennos.Shell.Control.{strtol, kill_job}
use pennos.Commands.{say, u_perror, exit}

-- `(int) strtol(text, NULL, 10)`.
unfoldable pub atoi : List ℕ → ℤ
atoi text = as_int (strtol text % 2 ^ 32)

abbrev pub usage_of_kill : List ℕ
usage_of_kill = codes "Usage: kill [-term|-stop|-cont] <pid> [pid...]\n"

-- The loop over the pids.
unfoldable pub kill_all : Signal → (pids : List (List ℕ)) → Cmd (Unit {0})
kill_all signal [] = exit (pos 0)
kill_all signal (text ∷ texts) = do
  ret ← on_processes (kill_job (atoi text) signal)
  if eq_ℤ ret (pos 0) then pure tt else u_perror (codes "kill")
  kill_all signal texts

abbrev pub kill_some : Signal → (pids : List (List ℕ)) → Cmd (Unit {0})
kill_some signal [] = do
  say (codes "Error: kill command requires at least one PID\n")
  say usage_of_kill
  exit (pos 1)
kill_some signal (text ∷ texts) = kill_all signal (text ∷ texts)

-- The signal of a flag.
abbrev pub flag_of : List ℕ → Option Signal
flag_of flag =
    if list_eq flag (codes "-term")
    then some p_sigterm
    else if list_eq flag (codes "-stop")
    then some p_sigstop
    else if list_eq flag (codes "-cont")
    then some p_sigcont
    else none

abbrev pub kill_flagged : Option Signal → (pids : List (List ℕ)) → Cmd (Unit {0})
kill_flagged (some signal) pids = kill_some signal pids
kill_flagged none pids = do say (codes "Unknown signal flag\n"); say usage_of_kill; exit (pos 1)

abbrev pub has_dash : List ℕ → Bool
has_dash [] = false
has_dash (c ∷ s) = c == b'-'

unfoldable pub kill_process_shell : (command : List (List ℕ)) → Cmd (Unit {0})
kill_process_shell (_ ∷ first_term ∷ terms) =
    if has_dash first_term
    then kill_flagged (flag_of first_term) terms
    else kill_some p_sigterm (first_term ∷ terms)
kill_process_shell _ = do say (codes "Error: kill command requires a process ID\n"); exit (pos 1)

-- How `sleep` ends: the process has exited, or is suspended until it goes on.
pub data Slept : Type 0 where
  slept : Slept
  sleeping : Slept

abbrev pub after_sleep : Sleep → Cmd Slept
after_sleep asleep = pure sleeping
after_sleep (awake ret) = do
  if eq_ℤ ret (pos 0) then pure tt else u_perror (codes "sleep")
  exit (pos 0)
  pure slept

unfoldable pub sleep_command : (command : List (List ℕ)) → Cmd Slept
sleep_command (_ ∷ time ∷ _) = do ret ← on_processes (s_sleep (as_u32 (atoi time))); after_sleep ret
sleep_command _ = do
  say (codes "Error: sleep command requires a number of ticks\n")
  exit (pos 1)
  pure slept

-- Behind a suspension.
unfoldable pub resume_sleep_command : Cmd Slept
resume_sleep_command = do
  current ← current_process
  ret ← on_processes (resume_sleep current)
  after_sleep ret

-- An int in decimal notation, of ten digits at most.
unfoldable pub digits_of : (rounds n : ℕ) → List ℕ
digits_of zero n = []
digits_of (suc rounds) n =
    let front = digits_of rounds (n / 10) in
    (if n / 10 == 0 then [] else front) ++ (48 + n % 10) ∷ []

unfoldable pub show_int : ℤ → List ℕ
show_int (pos n) = digits_of 10 n
show_int (negsuc n) = b'-' ∷ digits_of 10 (n + 1)

abbrev pub nice_process : (pid priority : ℤ) → Scheduler → Run Scheduler ℤ
nice_process (pos pid) priority = s_nice pid priority
nice_process (negsuc _) priority = fail (neg 9)

-- Only the last of these ways exits.
unfoldable pub nice_pid_command : (command : List (List ℕ)) → Cmd (Unit {0})
nice_pid_command (_ ∷ pid ∷ priority ∷ _) =
    if out_of_range (atoi priority)
    then say (codes "Invalid priority level. Use 0 (high), 1 (medium), or 2 (low)\n")
    else (do
      result ← on_processes (nice_process (atoi pid) (atoi priority))
      if eq_ℤ result (pos 0)
          then say (
              codes "Changed priority of process "
              ++ show_int (atoi pid)
              ++ codes " to "
              ++ show_int (atoi priority)
              ++ 10 ∷ [])
          else say (codes "Failed to change priority of process " ++ show_int (atoi pid) ++ 10 ∷ [])
      exit (pos 0))
nice_pid_command _ = say (codes "Usage: nice <pid> <priority_level>\n")

unfoldable pub busy : (priority : List ℕ) → Cmd (Unit {0})
busy priority =
    if out_of_range (atoi priority)
    then (do
      say (codes "Invalid priority level. Use 0 (high), 1 (medium), or 2 (low)\n")
      exit (pos 1))
    else (do
      s ← get
      elim s.processes.current_process [
        | none ↦ do say (codes "Busy: Could not get current process\n"); exit (pos 1)
        | some pid ↦ do
          result ← on_processes (s_nice pid (atoi priority))
          if eq_ℤ result (pos 0)
              then (λ _. diverge)
              else (do u_perror (codes "busy (s_nice)"); exit (pos 1))
      ])

-- The child of `zombify` is done when it has exited; its parent runs on.
unfoldable pub zombie_child : Cmd (Unit {0})
zombie_child = exit (pos 0)

unfoldable pub zombify : Allocations → Cmd (Unit {0})
zombify a = do _ ← on_processes (s_spawn a (pos 0) (pos 1) 1); λ _. diverge

unfoldable pub orphanify : Allocations → Cmd (Unit {0})
orphanify a = do _ ← on_processes (s_spawn a (pos 0) (pos 1) 1); exit (pos 0)
