-- ===== src/Sched/Exit.antt =====
-- src/scheduler/scheduler.c: what happens when a process ends or stops, to its waiting parent and to
-- its children.
pub mod Halt
pub mod Handover
pub mod Parent
pub mod Wake
pub mod Zombie
use pennos.Base.{
  ℕ, ◌+◌, ◌-◌, Bool, true, false, ◌&&◌, ◌||◌, not, List, [], ◌∷◌, ◌++◌, Option, none, some, ◌==◌,
  if◌then◌else◌, ℤ, pos, negsuc, neg, eq_ℤ, has,
}
use pennos.Sched.State.{
  ProcessState, zombied, Pcb, Queue, blocked_queue, zombie_queue, Scheduler, Cmd, diverge, pure,
  ◌>>=◌, ◌>>◌, get, put, deref, write_pcb, write_log, log_exited, log_zombie, log_orphan,
}
use pennos.Sched.Queue.{push_tail, k_remove_from_active_queue}
use pennos.Sched.Select.{unblock_process}
use pennos.Sched.Move.{stop_process, set_state}

-- The blocked process `waiter` waits for `pid`, or for any of its children, one of which is `pid`.
unfoldable pub waits_for : Scheduler → (waiter pid : ℕ) → Bool
waits_for s waiter pid =
    let w = s.pcb waiter in
    eq_ℤ w.waited_child (pos pid) || (eq_ℤ w.waited_child (neg 1) && has pid w.children)

-- The first process of the list that waits for `pid`.
unfoldable pub first_waiter : Scheduler → ℕ → List ℕ → Option ℕ
first_waiter s pid [] = none
first_waiter s pid (w ∷ ws) = if waits_for s w pid then some w else first_waiter s pid ws

-- It is unblocked, and inherits the terminal if the process had it.
unfoldable pub wake : ℕ → Option ℕ → Cmd (Unit {0})
wake pid none = pure tt
wake pid (some w) = do
  unblock_process w
  t ← get
  put (record t {
    terminal_controlling_pid =
        if eq_ℤ t.terminal_controlling_pid (pos pid) then pos w else t.terminal_controlling_pid;
  })

unfoldable pub unblock_parents : ℕ → Cmd (Unit {0})
unblock_parents pid = do s ← get; wake pid (first_waiter s pid (s.queue blocked_queue))

unfoldable pub k_stop_process : ℕ → Cmd ℤ
k_stop_process pid = stop_process (unblock_parents pid) pid

-- Each child gets process 1 as its parent, and its node goes to the end of init's list. (The nodes
-- are shared, so the dead process's own list runs on into init's; nothing reads it again.)
unfoldable pub adopt : (init : ℕ) → List ℕ → Cmd (Unit {0})
adopt init [] = pure tt
adopt init (c ∷ cs) = do
  write_log (log_orphan c)
  s ← get
  write_pcb c (record (s.pcb c) { ppid = 1 })
  t ← get
  write_pcb init (record (t.pcb init) { children = (t.pcb init).children ++ c ∷ [] })
  adopt init cs

abbrev pub is_nil : List ℕ → Bool
is_nil [] = true
is_nil (x ∷ xs) = false

-- If the process is init itself, each node is pushed behind the list that is walked: with one child
-- the list stays as it is, with more the walk never ends.
unfoldable pub adopt_own : List ℕ → Cmd (Unit {0})
adopt_own [] = pure tt
adopt_own (c ∷ []) = do
  write_log (log_orphan c)
  s ← get
  write_pcb c (record (s.pcb c) { ppid = 1 })
adopt_own (c ∷ d ∷ cs) = λ _. diverge

unfoldable pub reparent_children : ℕ → Cmd (Unit {0})
reparent_children pid = do
  s ← get
  if is_nil (s.pcb pid).children then pure tt else (do
    init ← deref s.init_process
    if init == pid then adopt_own (s.pcb pid).children else adopt init (s.pcb pid).children)

-- The call does not return to a process that ends itself; it then has the value 0 here.
unfoldable pub k_proc_exit : ℕ → ℤ → Cmd ℤ
k_proc_exit pid exit_status = do
  write_log (log_exited pid)
  s ← get
  write_pcb pid (record (s.pcb pid) { state = zombied; exit_status = exit_status })
  _ ← k_remove_from_active_queue pid
  write_log (log_zombie pid)
  push_tail zombie_queue pid
  unblock_parents pid
  reparent_children pid
  t ← get
  _ ← deref t.current_process
  pure (pos 0)
