-- ===== src/Calls/Open.antt =====
-- src/scheduler/fat_syscalls.c: `s_open` and `s_close`.
use pennos.Base.{
  ap, ℕ, ◌≤◌, ◌<◌, ◌≡◌, ◌≢◌, refl, ◌∙◌, true, false, List, some, arith, ◌==◌, ℤ, pos, negsuc, neg,
  ◌⊎◌,
}
use pennos.Base.Run.{ok}
use pennos.Fat.State.{Kernel}
use pennos.Fat.Open.{k_open, k_close}
use pennos.Sched.State.{process_fd_table_size, FdSlot, set_pcb, write_pcb}
use pennos.Sched.Sys.{s_set_errno}
use pennos.Calls.{
  System, fail, find_empty_spot_in_process_fd_table, not_found, opened_slot, with_slot, set_slot,
  enter_slot, s_open, s_close,
}
use pennos.Calls.Slots.{current_process-ok, find_slot-some, find_slot-none}

-- The system with an error number stored for a process.
abbrev pub with_errno : System → ℕ → ℤ → System
with_errno s pid errno = record s {
  processes = set_pcb s.processes pid (record (s.processes.pcb pid) { errnumber = errno });
}

abbrev pub with_kernel : System → Kernel → System
with_kernel s g = record s { files = g }

module _ (s : System) (current : ℕ) (is_current : s.processes.current_process ≡ some current) where
  pub s_set_errno-ok :
      (errno : ℤ) → s_set_errno errno s.processes ≡ ok tt (with_errno s current errno).processes
  unfolding s_set_errno write_pcb
  s_set_errno-ok errno = rw is_current refl

  pub fail-ok : (errno : ℤ) → fail errno s ≡ ok (neg 1) (with_errno s current errno)
  fail-ok errno = rw (s_set_errno-ok errno) refl

  enter_slot-cases :
      (fd mode : ℕ)
      → let spot = find_empty_spot_in_process_fd_table (s.processes.pcb current).fd_table in
        (spot ≢ not_found
          → enter_slot fd mode s ≡ ok (pos spot) (with_slot s current spot (opened_slot fd mode)))
        × (spot ≡ not_found → enter_slot fd mode s ≡ ok (neg 1) (with_errno s current (neg 100)))
  unfolding enter_slot set_slot
  enter_slot-cases fd mode =
      let spot = find_empty_spot_in_process_fd_table (s.processes.pcb current).fd_table in
      (
        λ room.
            let free : (spot == not_found) ≡ false = ground arith in
            rw (current_process-ok s current 0 is_current) (rw free refl),
        λ full.
            let used : (spot == not_found) ≡ true = ground arith in
            rw (current_process-ok s current 0 is_current) (rw used (fail-ok (neg 100))),
      )

  -- After `s_close` of a descriptor that is in use the entry is unused, and 0 is returned whatever
  -- `k_close` answers; a descriptor that is not in use, or past the table, gives -1 and the error number
  -- -103. Nothing else changes but what `k_close` does.
  pub s_close-cases :
      (i : ℕ) (g : Kernel) (r : ℤ)
      → let slot = (s.processes.pcb current).fd_table i in
        (i < process_fd_table_size
          → slot.in_use ≡ true
          → k_close (pos slot.global_fd) s.files ≡ ok r g
          → s_close (pos i) s
            ≡ ok (pos 0) (with_slot (with_kernel s g) current i (record slot { in_use = false })))
        × ((process_fd_table_size ≤ i) ⊎ (slot.in_use ≡ false)
            → s_close (pos i) s ≡ ok (neg 1) (with_errno s current (neg 103)))
  unfolding s_close set_slot
  s_close-cases i g r = (
    λ inside used closed. rw (find_slot-some s current i is_current inside used) (rw closed refl),
    λ unused. rw (find_slot-none s current i is_current unused) (fail-ok (neg 103)),
  )

module _ (s : System) (current : ℕ) (is_current : s.processes.current_process ≡ some current) where
  -- `s_open` after each outcome of `k_open`. An error becomes the error number of the current process,
  -- and -1 is returned. If it succeeds and the process has an unused entry, the least one is
  -- returned and refers to the global descriptor, with the mode and offset 0. If all entries are in
  -- use, -1 is returned with the error number -100, and the kernel keeps the descriptor open.
  pub s_open-cases :
      (fname : List ℕ) (mode : ℕ) (g : Kernel)
      → let spot = find_empty_spot_in_process_fd_table (s.processes.pcb current).fd_table in
        ((e : ℕ)
          → k_open fname mode s.files ≡ ok (negsuc e) g
          → s_open fname mode s ≡ ok (neg 1) (with_errno (with_kernel s g) current (negsuc e)))
        × ((fd : ℕ)
            → k_open fname mode s.files ≡ ok (pos fd) g
            → spot ≢ not_found
            → s_open fname mode s
              ≡ ok (pos spot) (with_slot (with_kernel s g) current spot (opened_slot fd mode)))
        × ((fd : ℕ)
            → k_open fname mode s.files ≡ ok (pos fd) g
            → spot ≡ not_found
            → s_open fname mode s ≡ ok (neg 1) (with_errno (with_kernel s g) current (neg 100)))
  unfolding s_open enter_slot set_slot
  s_open-cases fname mode g = (
    λ e failed. rw failed (fail-ok (with_kernel s g) current is_current (negsuc e)),
    λ fd opened room.
        rw opened ((enter_slot-cases (with_kernel s g) current is_current fd mode).0 room),
    λ fd opened full.
        rw opened ((enter_slot-cases (with_kernel s g) current is_current fd mode).1 full),
  )

-- The same with the entry named.
pub s_close-used :
    (s : System) (current i : ℕ) (slot : FdSlot) (g : Kernel) (r : ℤ)
    → s.processes.current_process ≡ some current
    → (s.processes.pcb current).fd_table i ≡ slot
    → i < process_fd_table_size
    → slot.in_use ≡ true
    → k_close (pos slot.global_fd) s.files ≡ ok r g
    → s_close (pos i) s
      ≡ ok (pos 0) (with_slot (with_kernel s g) current i (record slot { in_use = false }))
s_close-used s current i slot g r is_current is inside used closed = rw (← is) (
    (s_close-cases s current is_current i g r).0 inside (ap (λ x. x.in_use) is ∙ used)
      (ap (λ x. k_close (pos x.global_fd) s.files) is ∙ closed))
