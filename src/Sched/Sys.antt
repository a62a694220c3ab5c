-- ===== src/Sched/Sys.antt =====
-- src/scheduler/sys.c: the system calls on processes.
pub mod Kill
pub mod Suspends
pub mod Waitpid
use pennos.Base.{
  ℕ, zero, suc, Bool, true, false, ◌&&◌, ◌||◌, not, Option, none, some, ltb, leb, ◌==◌,
  if◌then◌else◌, ℤ, pos, negsuc, neg, is_neg, eq_ℤ,
}
use pennos.Sched.State.{
  Pcb, FdSlot, Scheduler, Cmd, pure, ◌>>=◌, ◌>>◌, get, put, deref, write_pcb, write_log,
  log_signaled, log_nice,
}
use pennos.Sched.Select.{k_get_process_by_pid}
use pennos.Sched.Move.{k_continue_process, k_set_priority, k_sleep}
use pennos.Sched.Exit.{k_stop_process, k_proc_exit}
use pennos.Sched.Wait.{Wait, returned, suspended, k_waitpid}
use pennos.Sched.Create.{Allocations, k_proc_create}

unfoldable pub s_set_errno : ℤ → Cmd (Unit {0})
s_set_errno errno = do
  s ← get
  current ← deref s.current_process
  write_pcb current (record (s.pcb current) { errnumber = errno })

abbrev pub fail : ℤ → Cmd ℤ
fail errno = do s_set_errno errno; pure (neg 1)

-- A status other than 0 becomes the error number.
abbrev pub note_status : ℤ → Cmd (Unit {0})
note_status (pos zero) = pure tt
note_status (pos (suc n)) = s_set_errno (pos (suc n))
note_status (negsuc n) = s_set_errno (negsuc n)

-- The signals that sys.h names, and any other number.
pub data Signal : Type 0 where
  p_sigint p_sigterm p_sigtstp p_sigstop p_sigcont other : Signal

-- The variable `success` is never set to true, so that each of these ends with -1.
unfoldable pub terminate : ℕ → Cmd ℤ
terminate pid = do status ← k_proc_exit pid (pos 1); note_status status; pure (neg 1)

unfoldable pub stop : ℕ → Cmd ℤ
stop pid = do status ← k_stop_process pid; note_status status; pure (neg 1)

unfoldable pub continue : ℕ → Cmd ℤ
continue pid = do status ← k_continue_process pid; note_status status; pure (neg 1)

unfoldable pub deliver : ℕ → Signal → Cmd ℤ
deliver pid p_sigint = do
  write_log (log_signaled pid)
  s ← get
  if (s.pcb pid).ignore_sigint then pure (pos 0) else terminate pid
deliver pid p_sigterm = terminate pid
deliver pid p_sigtstp = do s ← get; if (s.pcb pid).ignore_sigtstp then pure (pos 0) else stop pid
deliver pid p_sigstop = stop pid
deliver pid p_sigcont = continue pid
deliver pid other = fail (neg 10)

unfoldable pub s_kill : ℕ → Signal → Cmd ℤ
s_kill pid signal = do
  s ← get
  elim (k_get_process_by_pid s pid) [
    | none ↦ fail (neg 9)
    | some target ↦ if target == 1 then fail (neg 11) else deliver target signal
  ]

unfoldable pub s_exit : ℤ → Cmd (Unit {0})
s_exit status = do
  s ← get
  current ← deref s.current_process
  ret ← k_proc_exit current status
  note_status ret

abbrev pub out_of_range : ℤ → Bool
out_of_range (pos p) = ltb 2 p
out_of_range (negsuc _) = true

unfoldable pub s_nice : ℕ → (priority : ℤ) → Cmd ℤ
s_nice pid priority = do
  s ← get
  elim (k_get_process_by_pid s pid) [
    | none ↦ fail (neg 9)
    | some target ↦ if out_of_range priority then fail (neg 10) else (do
      status ← k_set_priority target priority
      if eq_ℤ status (pos 0) then (do write_log (log_nice target); pure (pos 0)) else fail status)
  ]

unfoldable pub s_tcsetpid : ℤ → Cmd ℤ
s_tcsetpid pid = do
  s ← get
  current ← deref s.current_process
  if eq_ℤ s.terminal_controlling_pid (pos current)
      then (do put (record s { terminal_controlling_pid = pid }); pure (pos 0))
      else fail (neg 12)

-- What `s_waitpid` returns if `k_waitpid` returns; a caller that is suspended waits on.
unfoldable pub s_waitpid : ℤ → (nohang : Bool) → Cmd Wait
s_waitpid pid nohang = do
  _ ← (if eq_ℤ pid (neg 1) || nohang then pure (pos 0) else s_tcsetpid pid)
  w ← k_waitpid pid nohang
  elim w [
    | suspended p ↦ pure (suspended p)
    | returned status wstatus ↦
        if is_neg status
        then (do s_set_errno status; pure (returned (neg 1) wstatus))
        else pure (returned (pos 0) wstatus)
  ]
