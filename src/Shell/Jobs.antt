-- ===== src/Shell/Jobs.antt =====
-- src/shell/jobs.c and Job.c: the job list. A job is named by the number that stands for its pointer; the
-- list has the pointers of its nodes, and a job that was freed is `none`.
use pennos.Base.{
  ℕ, Bool, true, false, ◌&&◌, not, List, [], ◌∷◌, ◌++◌, Option, none, some, ◌==◌, if◌then◌else◌,
  update, take, drop, ℤ, pos, negsuc, eq_ℤ,
}
use pennos.Base.Run.{Run, ok, fault, diverge, pure, ◌>>=◌, ◌>>◌, get, put, deref}
use pennos.Sched.State.{Scheduler}
use pennos.Sched.Queue.{erase}
use pennos.Calls.{System}
use pennos.Shell.Parser.{ParsedCommand}

pub data JobStatus : Type 0 where
  j_running_fg j_running_bg j_stopped : JobStatus

-- `struct job_st`; `num_processes` is never used.
pub record Job : Type 0 where
  pub id : ℕ
  pub pid : ℤ
  pub status : JobStatus
  pub cmd : ParsedCommand

-- What the shell writes to standard error; `text` is a command, and the others stand for their format
-- with its numbers.
pub data Message : Type 0 where
  no_job_with_id : ℕ → Message
  no_jobs_to_fg no_jobs_to_bg cannot_enqueue no_memory : Message
  not_opened_stdin not_opened_stdout not_spawned invalid newline unparseable not_parsed no_job :
      Message
  started : ℕ → ℤ → Message
  already_running : ℕ → Message
  text : List ℕ → Message
  resumed done : ℕ → Message
  listed : ℕ → (is_running : Bool) → Message

-- `job_id` is the last number given to a job, `output` has the latest message first, and `malloc` says whether a node is granted.
pub record Shell : Type 0 where
  pub system : System
  pub jobs : List ℕ
  pub job : ℕ → Option Job
  pub job_id : ℕ
  pub malloc : Bool
  pub output : List Message

abbrev pub Cmd : Type 0 → Type 0
Cmd A = Shell → Run Shell A

abbrev pub with_processes : Shell → Scheduler → Shell
with_processes s p = record s { system = record s.system { processes = p } }

abbrev pub with_system : {A : Type 0} → Shell → Run Scheduler A → Run Shell A
with_system s (ok a p) = ok a (with_processes s p)
with_system s fault = fault
with_system s diverge = diverge

abbrev pub on_processes : {A : Type 0} → (Scheduler → Run Scheduler A) → Cmd A
on_processes m s = with_system s (m s.system.processes)

unfoldable pub print : Message → Cmd (Unit {0})
print m s = ok tt (record s { output = m ∷ s.output })

abbrev pub with_jobs : Shell → List ℕ → Shell
with_jobs s l = record s { jobs = l }

unfoldable pub set_jobs : List ℕ → Cmd (Unit {0})
set_jobs l s = ok tt (with_jobs s l)

-- `job->...`.
unfoldable pub load_job : ℕ → Cmd Job
load_job p = do s ← get; deref (s.job p)

abbrev pub with_status : Shell → ℕ → Job → JobStatus → Shell
with_status s p j st = record s { job = update s.job p (some (record j { status = st })) }

unfoldable pub store_job : ℕ → Job → Cmd (Unit {0})
store_job p j = do s ← get; put (record s { job = update s.job p (some j) })

unfoldable pub set_status : ℕ → JobStatus → Cmd (Unit {0})
set_status p st = do j ← load_job p; s ← get; put (with_status s p j st)

unfoldable pub destroy_job : ℕ → Cmd (Unit {0})
destroy_job p = do _ ← load_job p; s ← get; put (record s { job = update s.job p none })

abbrev pub is_fg : JobStatus → Bool
is_fg j_running_fg = true
is_fg _ = false

abbrev pub is_bg : JobStatus → Bool
is_bg j_running_bg = true
is_bg _ = false

abbrev pub is_stopped : JobStatus → Bool
is_stopped j_stopped = true
is_stopped _ = false

-- `before` and what follows it, if that can be read.
abbrev pub joined : (before : List ℕ) → Option (List ℕ) → Option (List ℕ)
joined before none = none
joined before (some rest) = some (before ++ rest)

-- The strings up to the null pointer, with a blank between two of them.
unfoldable pub words_text : (before : List ℕ) → List (Option (List ℕ)) → Option (List ℕ)
words_text before [] = none
words_text before (none ∷ ws) = some []
words_text before (some w ∷ ws) = joined (before ++ w) (words_text (32 ∷ []) ws)

-- The same for the commands that start at `starts`, with a bar between two of them.
unfoldable pub commands_text :
    (before : List ℕ) → ParsedCommand → (starts : List ℕ) → Option (List ℕ)
commands_text before cmd [] = some []
commands_text before cmd (start ∷ starts) =
    let rest = commands_text (32 ∷ b'|' ∷ 32 ∷ []) cmd starts in
    elim (words_text [] (drop start cmd.arguments)) [
      | none ↦ none
      | some words ↦ joined (before ++ words) rest
    ]

unfoldable pub command_text : ParsedCommand → Option (List ℕ)
command_text cmd = commands_text [] cmd (take cmd.num_commands cmd.commands)

unfoldable pub print_job_command : ℕ → Cmd (Unit {0})
print_job_command p = do j ← load_job p; shown ← deref (command_text j.cmd); print (text shown)

-- The first job of a list of nodes that passes a test.
unfoldable pub find_first : (Job → Bool) → List ℕ → Cmd (Option ℕ)
find_first test [] = pure none
find_first test (p ∷ ps) = do j ← load_job p; if test j then pure (some p) else find_first test ps

abbrev pub has_id : ℕ → Job → Bool
has_id id j = j.id == id

abbrev pub is_pid : ℤ → Job → Bool
is_pid pid j = eq_ℤ j.pid pid

abbrev pub is_positive : ℤ → Bool
is_positive (pos n) = not (n == 0)
is_positive (negsuc _) = false

unfoldable pub find_job_by_id : ℕ → Cmd (Option ℕ)
find_job_by_id id = do s ← get; find_first (has_id id) s.jobs

unfoldable pub find_job_by_pid : ℤ → Cmd (Option ℕ)
find_job_by_pid pid = do s ← get; find_first (λ j. is_positive j.pid && is_pid pid j) s.jobs

unfoldable pub list_jobs : List ℕ → Cmd (Unit {0})
list_jobs [] = pure tt
list_jobs (p ∷ ps) = do
  j ← load_job p
  print (listed j.id (is_bg j.status))
  print_job_command p
  list_jobs ps

unfoldable pub handle_jobs : Cmd (Unit {0})
handle_jobs = do s ← get; list_jobs s.jobs

-- `exit` does not return.
unfoldable pub enqueue_job : ℕ → Cmd (Unit {0})
enqueue_job p = do
  j ← load_job p
  s ← get
  if is_fg j.status
      then (do print cannot_enqueue; λ _. diverge)
      else if not s.malloc
      then print no_memory
      else set_jobs (s.jobs ++ p ∷ [])

unfoldable pub add_foreground_job : ℕ → Cmd (Unit {0})
add_foreground_job p = do s ← get; if not s.malloc then print no_memory else set_jobs (p ∷ s.jobs)

-- The first node of the job, if there is one.
unfoldable pub remove_foreground_job : ℕ → Cmd (Unit {0})
remove_foreground_job p = do s ← get; set_jobs (erase p s.jobs)

unfoldable pub remove_found_job : Option ℕ → Cmd (Unit {0})
remove_found_job none = pure tt
remove_found_job (some p) = do s ← get; set_jobs (erase p s.jobs); destroy_job p

unfoldable pub remove_job_by_pid : ℤ → Cmd (Unit {0})
remove_job_by_pid pid = do s ← get; found ← find_first (is_pid pid) s.jobs; remove_found_job found

abbrev pub first_of : {A : Type 0} → List A → Option A
first_of [] = none
first_of (p ∷ ps) = some p

unfoldable pub get_jobs_head : Cmd (Option ℕ)
get_jobs_head = do s ← get; pure (first_of s.jobs)
