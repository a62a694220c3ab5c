-- ===== src/Sched/Select.antt =====
-- src/scheduler/scheduler.c: which queue runs next, the sleepers' clock, and one quantum.
pub mod Busy
pub mod Fair
pub mod Find
pub mod Quantum
pub mod Sleepers
use pennos.Base.{
  minus_tenth, ℕ, zero, suc, ◌+◌, ◌-◌, ◌%◌, Bool, true, false, ◌&&◌, ◌||◌, not, List, [], ◌∷◌,
  Option, none, some, ltb, ◌==◌, if◌then◌else◌, ℤ, pos, get_or, has, is_some,
}
use pennos.Sched.State.{
  ProcessState, running, blocked, stopped, zombied, Pcb, Queue, high, medium, low, blocked_queue,
  zombie_queue, ready_queue, Scheduler, Cmd, fault, pure, ◌>>=◌, ◌>>◌, get, put, write_pcb,
  write_log, log_unblocked, log_schedule,
}
use pennos.Sched.Queue.{push_tail, remove, head_of, rotate, is_queued}

abbrev pub process_to_run : List ℕ
process_to_run = 0 ∷ 0 ∷ 1 ∷ 0 ∷ 0 ∷ 1 ∷ 2 ∷ 0 ∷ 1 ∷ 1 ∷ 0 ∷ 0 ∷ 1 ∷ 2 ∷ 0 ∷ 2 ∷ 1 ∷ 0 ∷ 2 ∷ []

abbrev pub is_empty : List ℕ → Bool
is_empty [] = true
is_empty (x ∷ xs) = false

-- `none` is the -1 of the source.
unfoldable pub select_next_queue : Scheduler → Option ℕ
select_next_queue s =
    let turn = get_or process_to_run (s.quantum % 19) 0 in
    if not (is_empty (s.queue (ready_queue turn)))
    then some turn
    else if not (is_empty (s.queue high))
    then some 0
    else if not (is_empty (s.queue medium))
    then some 1
    else if not (is_empty (s.queue low))
    then some 2
    else none

unfoldable pub unblock_process : ℕ → Cmd (Unit {0})
unblock_process pid = do
  remove blocked_queue pid
  write_log (log_unblocked pid)
  s ← get
  write_pcb pid (record (s.pcb pid) { state = running })
  push_tail (ready_queue (s.pcb pid).priority) pid

-- The walk of `_update_blocked_processes`. A process that wakes up is pushed to the tail of a ready
-- queue, where its `next` is null, so the walk ends with it.
unfoldable pub update_sleepers : List ℕ → Cmd (Unit {0})
update_sleepers [] = pure tt
update_sleepers (pid ∷ rest) = do
  s ← get
  let p = s.pcb pid
  if p.sleep_time == 0 then update_sleepers rest else (do
    write_pcb pid (record p { sleep_time = minus_tenth p.sleep_time })
    if minus_tenth p.sleep_time == 0 then unblock_process pid else update_sleepers rest)

unfoldable pub update_blocked_processes : Cmd (Unit {0})
update_blocked_processes = do s ← get; update_sleepers (s.queue blocked_queue)

abbrev pub is_current : Option ℕ → ℕ → Bool
is_current none pid = false
is_current (some c) pid = c == pid

-- The current process, then every queue.
unfoldable pub k_get_process_by_pid : Scheduler → ℕ → Option ℕ
k_get_process_by_pid s pid =
    if is_current s.current_process pid || is_queued s pid then some pid else none

-- The process at the head of the chosen queue; init makes way if the shell runs and no zombie waits.
unfoldable pub make_way : Queue → Option ℕ → Cmd (Option ℕ)
make_way q none = pure none
make_way q (some pid) = do
  s ← get
  if pid == 1 && (is_empty (s.queue zombie_queue) && s.shell_spawned)
      then (do rotate q; t ← get; pure (head_of (t.queue q)))
      else pure (some pid)

unfoldable pub pick_head : Queue → Cmd (Option ℕ)
pick_head q = do s ← get; make_way q (head_of (s.queue q))

-- After a quantum: a process that is neither a zombie nor stopped has the head of its queue moved to
-- the tail.
unfoldable pub after_quantum : Queue → ProcessState → Cmd (Unit {0})
after_quantum q zombied = pure tt
after_quantum q stopped = pure tt
after_quantum q running = rotate q
after_quantum q blocked = rotate q

unfoldable pub end_quantum : Queue → ℕ → Cmd (Unit {0})
end_quantum q pid = do
  s ← get
  put (record s { quantum = s.quantum + 1 })
  after_quantum q (s.pcb pid).state

-- The quantum of the process that was picked, where `body pid` is what the process does in it. A
-- process without a thread is freed while it is still queued, which is a fault later.
unfoldable pub run_picked : (body : ℕ → Cmd (Unit {0})) → Queue → Option ℕ → Cmd (Unit {0})
run_picked body q none = pure tt
run_picked body q (some pid) = do
  u ← get
  if not (u.pcb pid).has_thread then (λ _. fault) else (do
    put (record u { current_process = some pid })
    write_log (log_schedule pid (u.pcb pid).priority)
    body pid
    end_quantum q pid)

unfoldable pub run_turn : (body : ℕ → Cmd (Unit {0})) → Option ℕ → Cmd (Unit {0})
run_turn body none = pure tt
run_turn body (some i) = do
  picked ← pick_head (ready_queue i)
  run_picked body (ready_queue i) picked

-- One call of `_run_next_process`.
unfoldable pub run_next_process : (body : ℕ → Cmd (Unit {0})) → Cmd (Unit {0})
run_next_process body = do
  update_blocked_processes
  s ← get
  put (record s { shell_spawned = s.shell_spawned || is_some (k_get_process_by_pid s 2) })
  t ← get
  run_turn body (select_next_queue t)

-- The first `n` rounds of the loop of `run_scheduler`, while no logout is issued.
unfoldable pub run_rounds : (body : ℕ → Cmd (Unit {0})) → ℕ → Cmd (Unit {0})
run_rounds body zero = pure tt
run_rounds body (suc n) = do run_next_process body; run_rounds body n
