-- ===== src/Sched/Own.antt =====
-- src/scheduler/sys.c: the system calls of a process on itself, and the tests of a status.
use pennos.Base.{
  double_of, ℕ, ◌≡◌, ◌≢◌, refl, ap, Bool, true, false, not, Option, none, some, arith, ◌==◌, ℤ, pos,
  neg, if◌then◌else◌, eq_ℤ, bit_and,
}
use pennos.Base.Returns
use pennos.Base.Returns.{Returns, returns}
use pennos.Sched.State.{
  blocked, blocked_queue, Scheduler, Cmd, pure, ◌>>=◌, ◌>>◌, get, put, deref, write_pcb,
}
use pennos.Sched.Queue.Invariant.{Placed}
use pennos.Sched.Move.{k_sleep, k_resume_sleep}
use pennos.Sched.Move.Placed.{Moved, IsReady, k_sleep-Moved, block_process-Moved}
use pennos.Sched.Sys.{fail}

-- What `s_sleep` returns, or that it suspends its caller; a caller that is resumed goes on with
-- `resume_sleep`.
pub data Sleep : Type 0 where
  awake : ℤ → Sleep
  asleep : Sleep

-- The loop behind the first suspension.
unfoldable pub resume_sleep : ℕ → Cmd Sleep
resume_sleep current = do
  again ← k_resume_sleep current
  pure (if again then asleep else awake (pos 0))

-- Without a current process the error number is stored through the null pointer.
unfoldable pub sleep_current : Option ℕ → (ticks : ℕ) → Cmd Sleep
sleep_current none ticks = do _ ← fail (neg 17); pure (awake (neg 1))
sleep_current (some current) ticks = do
  status ← k_sleep current ticks
  if eq_ℤ status (pos 0) then pure asleep else (do _ ← fail status; pure (awake (neg 1)))

unfoldable pub s_sleep : ℕ → Cmd Sleep
s_sleep ticks =
    if ticks == 0 then pure (awake (pos 0)) else (do s ← get; sleep_current s.current_process ticks)

unfoldable pub s_ignore_sigint : Bool → Cmd ℤ
s_ignore_sigint ignore = do
  s ← get
  elim s.current_process [
    | none ↦ fail (neg 17)
    | some current ↦ do
      write_pcb current (record (s.pcb current) { ignore_sigint = ignore })
      pure (pos 0)
  ]

unfoldable pub s_ignore_sigtstp : Bool → Cmd ℤ
s_ignore_sigtstp ignore = do
  s ← get
  elim s.current_process [
    | none ↦ fail (neg 17)
    | some current ↦ do
      write_pcb current (record (s.pcb current) { ignore_sigtstp = ignore })
      pure (pos 0)
  ]

unfoldable pub s_get_errno : Cmd ℤ
s_get_errno = do s ← get; current ← deref s.current_process; pure (s.pcb current).errnumber

unfoldable pub s_logout : Cmd (Unit {0})
s_logout = do s ← get; put (record s { logout_issued = true })

unfoldable pub p_wifexited : ℕ → Bool
p_wifexited wstatus = not (bit_and wstatus 1 == 0)

unfoldable pub p_wifstopped : ℕ → Bool
p_wifstopped wstatus = not (bit_and wstatus 2 == 0)

unfoldable pub p_wifsignaled : ℕ → Bool
p_wifsignaled wstatus = not (bit_and wstatus 4 == 0)

module _ (s : Scheduler) (current : ℕ) (v : Placed s) (r : IsReady s current) where
  -- `s_sleep` of the current process, in its ready queue, for a positive number of ticks blocks it, with
  -- its sleeping time set, and suspends it. Before the call all processes must be in their home queues.
  pub s_sleep-suspends :
      (ticks : ℕ)
      → ticks ≢ 0
      → s.current_process ≡ some current
      → Returns
          (λ w t.
            (w ≡ asleep)
            × Moved s current blocked_queue t
            × ((t.pcb current).state ≡ blocked)
            × ((t.pcb current).sleep_time ≡ double_of ticks))
          (s_sleep ticks s)
  unfolding s_sleep sleep_current
  s_sleep-suspends ticks positive is_current =
      let some_ticks : (ticks == 0) ≡ false = ground arith in
      let start : s_sleep ticks s ≡ sleep_current (some current) ticks s =
        rw some_ticks (ap (λ c. sleep_current c ticks s) is_current) in
      rw start (
        Returns.bind (k_sleep-Moved s current v ticks positive r)
          λ w t (zero, moved, now, time). rw zero (returns (refl, moved, now, time)))

  -- A sleeping process that is resumed, as by a signal, while sleeping time is left does not return from
  -- `s_sleep`: it is blocked and suspended again. It must be in its ready queue, and before the call
  -- all processes in their home queues.
  pub resume_sleep-again :
      (s.pcb current).sleep_time ≢ 0
      → Returns (λ w t. (w ≡ asleep) × Moved s current blocked_queue t) (resume_sleep current s)
  unfolding resume_sleep k_resume_sleep
  resume_sleep-again left =
      let more : ((s.pcb current).sleep_time == 0) ≡ false = ground arith in
      rw more (
        Returns.bind
          (Returns.bind {Q = λ b t. (b ≡ true) × Moved s current blocked_queue t}
            (block_process-Moved s current v r) λ _ t (moved, _). returns (refl, moved))
          λ b t (is, moved). rw is (returns (refl, moved)))
