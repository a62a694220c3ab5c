-- ===== src/Shell/Control.antt =====
-- src/shell/jobs.c: the built-in commands fg, bg and jobs. The shell is the current process: a call that
-- suspends it ends a command here, and `resume_fg` goes on when it runs again.
pub mod Background
pub mod Foreground
pub mod Resume
use pennos.Base.{
  ℕ, ◌+◌, ◌-◌, ◌*◌, ◌%◌, ◌^◌, min, Bool, true, false, ◌&&◌, not, List, [], ◌∷◌, ◌++◌, Option, none,
  some, leb, ◌==◌, if◌then◌else◌, list_eq, drop, ℤ, pos, negsuc, neg,
}
use pennos.Base.Run.{Run, pure, fault, ◌>>=◌, ◌>>◌, get, deref}
use pennos.Sched.State.{Scheduler}
use pennos.Sched.Queue.{erase}
use pennos.Sched.Wait.{Wait, returned, suspended}
use pennos.Sched.Sys.{Signal, p_sigcont, s_kill, s_waitpid, fail}
use pennos.Sched.Own.{p_wifstopped}
use pennos.Shell.Lexer.{skip_space}
use pennos.Shell.Parser.{ParsedCommand}
use pennos.Shell.Jobs.{
  JobStatus, j_running_fg, j_running_bg, j_stopped, Message, Cmd, no_job_with_id, no_jobs_to_fg,
  no_jobs_to_bg, already_running, resumed, on_processes, print, set_jobs, load_job, set_status,
  is_stopped, print_job_command, find_first, has_id, handle_jobs, enqueue_job,
  remove_foreground_job, first_of,
}

-- `strtol` in base 10, as a `jid_t`: clamped to a long, and converted to 64 bits without a sign.
unfoldable pub digits : ℕ → List ℕ → ℕ
digits n [] = n
digits n (c ∷ s) =
    let rest = digits (n * 10 + (c - b'0')) s in if leb b'0' c && leb c b'9' then rest else n

unfoldable pub signed : List ℕ → ℕ
signed [] = 0
signed (c ∷ s) =
    if c == b'-'
    then (2 ^ 64 - min (digits 0 s) (2 ^ 63)) % 2 ^ 64
    else if c == b'+'
    then min (digits 0 s) (2 ^ 63 - 1)
    else min (digits 0 (c ∷ s)) (2 ^ 63 - 1)

unfoldable pub strtol : List ℕ → ℕ
strtol s = signed (skip_space s)

-- `cmd->commands[0][i]`: the arguments behind the place where the first command starts.
abbrev pub element : {A : Type 0} → List A → ℕ → Option A
element l i = first_of (drop i l)

unfoldable pub first_command : ParsedCommand → ℕ → Cmd (Option (List ℕ))
first_command cmd i = do
  start ← deref (element cmd.commands 0)
  deref (element cmd.arguments (start + i))

abbrev pub reverse_onto : List ℕ → List ℕ → List ℕ
reverse_onto [] acc = acc
reverse_onto (p ∷ ps) acc = reverse_onto ps (p ∷ acc)

abbrev pub from_tail : List ℕ → List ℕ
from_tail l = reverse_onto l []

-- The job that fg and bg are about, or that there is none, said in a message.
abbrev pub found_or : Message → Option ℕ → Cmd (Option ℕ)
found_or message none = do print message; pure none
found_or message (some p) = pure (some p)

unfoldable pub search_target : (nothing : Message) → Option (List ℕ) → Cmd (Option ℕ)
search_target nothing none = do s ← get; found_or nothing (first_of (from_tail s.jobs))
search_target nothing (some text) = do
  s ← get
  found ← find_first (has_id (strtol text)) (from_tail s.jobs)
  found_or (no_job_with_id (strtol text)) found

-- No process has a negative pid.
unfoldable pub kill_job : ℤ → Signal → Scheduler → Run Scheduler ℤ
kill_job (pos pid) signal = s_kill pid signal
kill_job (negsuc _) signal = fail (neg 9)

-- How fg ends: the shell is suspended until the job changes its state, or goes on.
pub data Fg : Type 0 where
  waits_for : ℕ → Fg
  ended : Fg

-- `status` is not initialised: where `s_waitpid` stores nothing it is `garbage`.
abbrev pub status_of : (garbage : ℕ) → Option ℕ → ℕ
status_of garbage none = garbage
status_of garbage (some status) = status

unfoldable pub note_stopped : ℕ → (is_stopped : Bool) → Cmd (Unit {0})
note_stopped p false = pure tt
note_stopped p true = do set_status p j_stopped; remove_foreground_job p; enqueue_job p

unfoldable pub after_wait : (garbage p : ℕ) → Wait → Cmd Fg
after_wait garbage p (suspended _) = pure (waits_for p)
after_wait garbage p (returned _ stored) = do
  note_stopped p (p_wifstopped (status_of garbage stored))
  pure ended

-- From the call of `s_waitpid` on.
unfoldable pub resume_fg : (garbage p : ℕ) → Cmd Fg
resume_fg garbage p = do
  j ← load_job p
  w ← on_processes (s_waitpid j.pid false)
  after_wait garbage p w

unfoldable pub continue_stopped : ℕ → Cmd (Unit {0})
continue_stopped p = do
  j ← load_job p
  if is_stopped j.status then (do _ ← on_processes (kill_job j.pid p_sigcont); pure tt) else pure tt

-- The job's node is the first from the tail.
unfoldable pub fg_job : (garbage : ℕ) → Option ℕ → Cmd Fg
fg_job garbage none = pure ended
fg_job garbage (some p) = do
  s ← get
  set_jobs (from_tail (erase p (from_tail s.jobs)))
  print_job_command p
  continue_stopped p
  set_status p j_running_fg
  resume_fg garbage p

unfoldable pub handle_fg : (garbage : ℕ) → ParsedCommand → Cmd Fg
handle_fg garbage cmd = do
  target_id_str ← first_command cmd 1
  found ← search_target no_jobs_to_fg target_id_str
  fg_job garbage found

unfoldable pub bg_job : Option ℕ → Cmd (Unit {0})
bg_job none = pure tt
bg_job (some p) = do
  j ← load_job p
  if not (is_stopped j.status) then print (already_running j.id) else (do
    set_status p j_running_bg
    _ ← on_processes (kill_job j.pid p_sigcont)
    print (resumed j.id)
    print_job_command p)

unfoldable pub handle_bg : ParsedCommand → Cmd (Unit {0})
handle_bg cmd = do
  target_id_str ← first_command cmd 1
  found ← search_target no_jobs_to_bg target_id_str
  bg_job found

-- Whether the command is one of the three, and how it ended.
pub data Handled : Type 0 where
  not_handled : Handled
  handled : Fg → Handled

unfoldable pub handle_word : (garbage : ℕ) → ParsedCommand → Option (List ℕ) → Cmd Handled
handle_word garbage cmd none = λ _. fault
handle_word garbage cmd (some command) =
    if list_eq command (b'j' ∷ b'o' ∷ b'b' ∷ b's' ∷ [])
    then (do handle_jobs; pure (handled ended))
    else if list_eq command (b'f' ∷ b'g' ∷ [])
    then (do w ← handle_fg garbage cmd; pure (handled w))
    else if list_eq command (b'b' ∷ b'g' ∷ [])
    then (do handle_bg cmd; pure (handled ended))
    else pure not_handled

unfoldable pub handle_jobs_commands : (garbage : ℕ) → ParsedCommand → Cmd Handled
handle_jobs_commands garbage cmd =
    if not (cmd.num_commands == 1)
    then pure not_handled
    else (do command ← first_command cmd 0; handle_word garbage cmd command)
