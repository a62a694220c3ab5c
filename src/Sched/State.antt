-- ===== src/Sched/State.antt =====
-- src/scheduler/scheduler.h: processes, the six queues and the scheduler's globals. A process control
-- block is named by its pid, which `k_proc_create` counts up.
pub use pennos.Base.Run.{Run, ok, fault, diverge, pure, ◌>>=◌, ◌>>◌, get, put, deref}
use pennos.Base.{ℕ, Bool, true, false, Option, List, ℤ, update, if◌then◌else◌, ◌∷◌, ◌==◌}

pub data ProcessState : Type 0 where
  running blocked stopped zombied : ProcessState

-- `process_fd_entry`.
pub record FdSlot : Type 0 where
  pub global_fd : ℕ
  pub offset : ℕ
  pub mode : ℕ
  pub in_use : Bool

-- `PROCESS_FD_TABLE_SIZE`.
abbrev pub process_fd_table_size : ℕ
process_fd_table_size = 128

-- `pcb_t`. The double `sleep_time` is a number of 2^-55ths (Base/Double.antt), with 0 for all that is
-- not positive.
pub record Pcb : Type 0 where
  pub ppid : ℕ
  pub pgid : ℕ
  pub children : List ℕ
  pub fd_table : ℕ → FdSlot
  pub state : ProcessState
  pub waited_child : ℤ
  pub ignore_sigint : Bool
  pub ignore_sigtstp : Bool
  pub errnumber : ℤ
  pub priority : ℕ
  pub sleep_time : ℕ
  pub has_thread : Bool
  pub exit_status : ℤ

-- The six queues of `scheduler_t`: `ready_queues[0]` to `ready_queues[2]` and the other three.
pub data Queue : Type 0 where
  high medium low blocked_queue zombie_queue stopped_queue : Queue

abbrev pub queue_eq : Queue → Queue → Bool
queue_eq high high = true
queue_eq medium medium = true
queue_eq low low = true
queue_eq blocked_queue blocked_queue = true
queue_eq zombie_queue zombie_queue = true
queue_eq stopped_queue stopped_queue = true
queue_eq _ _ = false

-- `ready_queues[priority]`, for the priorities 0 to 2.
abbrev pub ready_queue : ℕ → Queue
ready_queue p = if p == 0 then high else if p == 1 then medium else low

-- The lines that logger.c writes.
pub data Event : Type 0 where
  log_create log_blocked log_unblocked log_exited log_zombie log_orphan : ℕ → Event
  log_schedule : (pid priority : ℕ) → Event
  log_waited log_stopped log_continued log_sleep log_signaled log_nice : ℕ → Event

-- `log` has the latest line first.
pub record Scheduler : Type 0 where
  pub queue : Queue → List ℕ
  pub pcb : ℕ → Pcb
  pub init_process : Option ℕ
  pub current_process : Option ℕ
  pub process_count : ℕ
  pub terminal_controlling_pid : ℤ
  pub quantum : ℕ
  pub shell_spawned : Bool
  pub logout_issued : Bool
  pub log : List Event

abbrev pub Cmd : Type 0 → Type 0
Cmd A = Scheduler → Run Scheduler A

abbrev pub set_queue : Scheduler → Queue → List ℕ → Scheduler
set_queue s q l = record s { queue = λ r. if queue_eq q r then l else s.queue r }

abbrev pub set_pcb : Scheduler → ℕ → Pcb → Scheduler
set_pcb s pid p = record s { pcb = update s.pcb pid p }

unfoldable pub write_pcb : ℕ → Pcb → Cmd (Unit {0})
write_pcb pid p s = ok tt (set_pcb s pid p)

unfoldable pub write_log : Event → Cmd (Unit {0})
write_log e s = ok tt (record s { log = e ∷ s.log })
