-- ===== src/Sched/Create.antt =====
-- src/scheduler/kernel.c: `k_proc_create`. Each allocation of the source can fail; the process is then
-- given up, but its pid stays used and a first process stays recorded as init.
pub mod Fresh
pub mod Table
use pennos.Base.{
  ℕ, ◌+◌, Bool, true, false, ◌&&◌, ◌||◌, not, List, [], ◌∷◌, ◌++◌, Option, none, some, ltb, ◌==◌,
  if◌then◌else◌, ℤ, pos, neg, update, is_some,
}
use pennos.Sched.State.{
  ProcessState, running, FdSlot, Pcb, Scheduler, Cmd, pure, ◌>>=◌, ◌>>◌, get, put, set_pcb,
  write_pcb, write_log, log_create,
}
use pennos.Sched.Move.{k_add_to_ready_queue}

-- Whether `malloc`, `duplicate_argv`, `strdup` and `spthread_create` give what is asked for, in the
-- order of the source.
pub record Allocations : Type 0 where
  pub proc : Bool
  pub children : Bool
  pub argv : Bool
  pub command : Bool
  pub thread : Bool
  pub spthread : Bool
  pub child_process : Bool

abbrev pub unused_slot : FdSlot
unused_slot = record { global_fd = 0; offset = 0; mode = 0; in_use = false }

abbrev pub std_slot : ℕ → ℕ → FdSlot
std_slot fd mode = record { global_fd = fd; offset = 0; mode = mode; in_use = true }

-- The table of a first process: F_WRITE on standard input, F_READ on the other two.
abbrev pub initial_fd_table : ℕ → FdSlot
initial_fd_table i =
    if i == 0
    then std_slot 0 1
    else if i == 1
    then std_slot 1 0
    else if i == 2
    then std_slot 2 0
    else unused_slot

abbrev pub parent_pid : Option ℕ → ℕ
parent_pid none = 1
parent_pid (some p) = p

abbrev pub group_of : Scheduler → Option ℕ → ℕ → ℕ
group_of s none pid = pid
group_of s (some p) pid = if p == 1 then pid else (s.pcb p).pgid

abbrev pub inherited_fds : Scheduler → Option ℕ → ℕ → FdSlot
inherited_fds s none = initial_fd_table
inherited_fds s (some p) = (s.pcb p).fd_table

-- The source leaves `errnumber` as the memory has it.
unfoldable pub new_pcb : Scheduler → Option ℕ → (pid priority : ℕ) → Pcb
new_pcb s parent pid priority = record {
  ppid = parent_pid parent;
  pgid = group_of s parent pid;
  children = [];
  fd_table = inherited_fds s parent;
  state = running;
  waited_child = neg 2;
  ignore_sigint = false;
  ignore_sigtstp = false;
  errnumber = (s.pcb pid).errnumber;
  priority = priority;
  sleep_time = 0;
  has_thread = true;
  exit_status = pos 0;
}

abbrev pub init_or : Option ℕ → Option ℕ → ℕ → Option ℕ
init_or none old pid = some pid
init_or (some p) old pid = old

abbrev pub with_child : Scheduler → Option ℕ → ℕ → Scheduler
with_child s none pid = s
with_child s (some p) pid =
    set_pcb s p (record (s.pcb p) { children = (s.pcb p).children ++ pid ∷ [] })

-- From the call of `spthread_create` on, which needs every allocation before it.
unfoldable pub start_process : Allocations → Option ℕ → (pid priority : ℕ) → Cmd ℤ
start_process a parent pid priority = if not a.spthread then pure (neg 3) else (do
  write_log (log_create pid)
  if not a.child_process then pure (neg 3) else (do
    s ← get
    put (set_pcb (with_child s parent pid) pid (new_pcb s parent pid priority))
    _ ← k_add_to_ready_queue pid
    pure (pos pid)))

unfoldable pub k_proc_create : Allocations → Option ℕ → (priority : ℕ) → Cmd ℤ
k_proc_create a parent priority = do
  s ← get
  if not (is_some parent) && is_some s.init_process
      then pure (neg 2)
      else if not a.proc
      then pure (neg 3)
      else (do
        let pid = s.process_count + 1
        put (record s { process_count = pid; init_process = init_or parent s.init_process pid })
        if not a.children || not a.argv
            then pure (neg 3)
            else if not a.command
            then pure (neg 4)
            else if not a.thread
            then pure (neg 3)
            else start_process a parent pid priority)
