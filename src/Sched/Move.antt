-- ===== src/Sched/Move.antt =====
-- src/scheduler/scheduler.c: the calls that move a process from one queue to another.
pub mod Placed
pub mod Kept
pub mod Priority
use pennos.Base.{
  double_of, ℕ, ◌+◌, ◌-◌, Bool, true, false, ◌&&◌, ◌||◌, not, Option, none, some, ltb, leb, ◌==◌,
  if◌then◌else◌, ℤ, pos, negsuc, neg, is_neg, has,
}
use pennos.Sched.State.{
  ProcessState, running, blocked, stopped, zombied, Pcb, Queue, blocked_queue, stopped_queue,
  ready_queue, Scheduler, Cmd, pure, ◌>>=◌, ◌>>◌, get, write_pcb, write_log, log_blocked,
  log_stopped, log_continued, log_sleep,
}
use pennos.Sched.Queue.{push_tail, remove, k_remove_from_active_queue}

abbrev pub is_stopped : ProcessState → Bool
is_stopped stopped = true
is_stopped _ = false

abbrev pub is_running : ProcessState → Bool
is_running running = true
is_running _ = false

abbrev pub set_state : ℕ → ProcessState → Cmd (Unit {0})
set_state pid st = do s ← get; write_pcb pid (record (s.pcb pid) { state = st })

unfoldable pub k_add_to_ready_queue : ℕ → Cmd ℤ
k_add_to_ready_queue pid = do
  s ← get
  if ltb 2 (s.pcb pid).priority then pure (neg 7) else (do
    push_tail (ready_queue (s.pcb pid).priority) pid
    set_state pid running
    pure (pos 0))

unfoldable pub block_process : ℕ → Cmd (Unit {0})
block_process pid = do
  write_log (log_blocked pid)
  s ← get
  remove (ready_queue (s.pcb pid).priority) pid
  set_state pid blocked
  push_tail blocked_queue pid

-- `stop_and_wake` is the call of `unblock_parents`, which Exit has; `k_stop_process` ends with it.
unfoldable pub stop_process : (unblock_parents : Cmd (Unit {0})) → ℕ → Cmd ℤ
stop_process unblock_parents pid = do
  s ← get
  if is_stopped (s.pcb pid).state then pure (neg 14) else (do
    write_log (log_stopped pid)
    removed ← k_remove_from_active_queue pid
    if not removed
        then pure (neg 15)
        else (do set_state pid stopped; push_tail stopped_queue pid; unblock_parents; pure (pos 0)))

unfoldable pub k_continue_process : ℕ → Cmd ℤ
k_continue_process pid = do
  s ← get
  if not (is_stopped (s.pcb pid).state) then pure (neg 13) else (do
    write_log (log_continued pid)
    if not (has pid (s.queue stopped_queue)) then pure (neg 13) else (do
      remove stopped_queue pid
      set_state pid running
      _ ← k_add_to_ready_queue pid
      pure (pos 0)))

-- The priority is written before the process leaves its old queue.
unfoldable pub k_set_priority : ℕ → ℤ → Cmd ℤ
k_set_priority pid (negsuc _) = pure (neg 10)
k_set_priority pid (pos priority) = do
  s ← get
  let p = s.pcb pid
  if ltb 2 priority then pure (neg 10) else (do
    write_pcb pid (record p { priority = priority })
    if not (is_running p.state && not (p.priority == priority))
        then pure (pos 0)
        else if not (has pid (s.queue (ready_queue p.priority)))
        then pure (neg 18)
        else (do
          remove (ready_queue p.priority) pid
          status ← k_add_to_ready_queue pid
          pure (if is_neg status then status else pos 0)))

unfoldable pub k_sleep : (pid ticks : ℕ) → Cmd ℤ
k_sleep pid ticks = if ticks == 0 then pure (neg 10) else (do
  write_log (log_sleep pid)
  s ← get
  write_pcb pid (record (s.pcb pid) { sleep_time = double_of ticks })
  block_process pid
  pure (pos 0))

unfoldable pub k_resume_sleep : ℕ → Cmd Bool
k_resume_sleep pid = do
  s ← get
  if (s.pcb pid).sleep_time == 0 then pure false else (do block_process pid; pure true)
