-- ===== src/Sched/Wait.antt =====
-- src/scheduler/scheduler.c: `k_waitpid`, up to the point where it returns or suspends its caller. A
-- caller that is resumed makes the call again, with `nohang` false.
pub mod Reap
use pennos.Base.{
  ℕ, Bool, true, false, ◌&&◌, ◌||◌, not, List, [], ◌∷◌, Option, none, some, ◌==◌, if◌then◌else◌, ℤ,
  pos, negsuc, neg, has,
}
use pennos.Sched.State.{
  ProcessState, running, blocked, stopped, zombied, Pcb, Queue, zombie_queue, Scheduler, Cmd, fault,
  pure, ◌>>=◌, ◌>>◌, get, deref, write_pcb, write_log, log_waited,
}
use pennos.Sched.Queue.{remove, erase}
use pennos.Sched.Select.{k_get_process_by_pid}
use pennos.Sched.Move.{block_process}
use pennos.Sched.Exit.{is_nil}

-- The return value and what was stored through `wstatus`, or the pid that the caller, now blocked,
-- waits for.
pub data Wait : Type 0 where
  returned : ℤ → Option ℕ → Wait
  suspended : ℤ → Wait

abbrev pub w_exited : ℕ
w_exited = 1

abbrev pub w_stopped : ℕ
w_stopped = 2

-- The child leaves its parent's list and the zombie queue.
unfoldable pub reap : (parent child : ℕ) → Cmd Wait
reap parent child = do
  s ← get
  write_pcb parent (record (s.pcb parent) { children = erase child (s.pcb parent).children })
  remove zombie_queue child
  write_log (log_waited child)
  pure (returned (pos child) (some w_exited))

-- What the first pass over the children meets first.
pub data Found : Type 0 where
  zombie_child : ℕ → Found
  stopped_child nothing : Found

unfoldable pub scan_children : Scheduler → List ℕ → Found
scan_children s [] = nothing
scan_children s (c ∷ cs) =
    let rest = scan_children s cs in
    elim (s.pcb c).state [ zombied ↦ zombie_child c | stopped ↦ stopped_child | _ ↦ rest ]

unfoldable pub wait_any : ℕ → (nohang : Bool) → Cmd Wait
wait_any parent nohang = do
  s ← get
  write_pcb parent (record (s.pcb parent) { waited_child = neg 1 })
  elim (scan_children s (s.pcb parent).children) [
    | zombie_child c ↦ reap parent c
    | stopped_child ↦ pure (returned (pos 0) none)
    | nothing ↦
        if is_nil (s.pcb parent).children
        then pure (returned (neg 1) none)
        else if nohang
        then pure (returned (pos 0) none)
        else (do block_process parent; pure (suspended (neg 1)))
  ]

unfoldable pub keep_waiting : (parent child : ℕ) → (nohang : Bool) → Cmd Wait
keep_waiting parent child nohang =
    if nohang
    then (do write_log (log_waited child); pure (returned (pos 0) none))
    else (do block_process parent; pure (suspended (pos child)))

unfoldable pub wait_child : (parent child : ℕ) → (nohang : Bool) → Cmd Wait
wait_child parent child nohang = do
  s ← get
  if not ((s.pcb child).ppid == parent)
      then pure (returned (neg 1) none)
      else elim (s.pcb child).state [
        | zombied ↦ reap parent child
        | stopped ↦ pure (returned (pos 0) none)
        | running ↦ keep_waiting parent child nohang
        | blocked ↦ keep_waiting parent child nohang
      ]

unfoldable pub wait_for : (parent : ℕ) → ℤ → (nohang : Bool) → Cmd Wait
wait_for parent (negsuc m) nohang = if m == 0 then wait_any parent nohang else (do
  s ← get
  write_pcb parent (record (s.pcb parent) { waited_child = negsuc m })
  pure (returned (neg 16) none))
wait_for parent (pos c) nohang = do
  s ← get
  write_pcb parent (record (s.pcb parent) { waited_child = pos c })
  elim (k_get_process_by_pid s c) [
    | none ↦ pure (returned (neg 16) none)
    | some child ↦ wait_child parent child nohang
  ]

unfoldable pub k_waitpid : ℤ → (nohang : Bool) → Cmd Wait
k_waitpid pid nohang = do
  s ← get
  elim s.current_process [
    | none ↦ pure (returned (neg 1) none)
    | some parent ↦ wait_for parent pid nohang
  ]
