-- ===== src/Calls.antt =====
-- src/scheduler/fat_syscalls.c: the system calls on files, between the descriptor table of the current
-- process and the file system.
pub mod Lift
pub mod Slots
pub mod Open
pub mod Reopen
pub mod Read
pub mod Write
pub mod Share
pub mod Inherit
use pennos.Base.{
  ℕ, zero, suc, ◌+◌, ◌-◌, ◌%◌, ◌^◌, Bool, true, false, ◌&&◌, not, List, [], Option, none, some, ltb,
  leb, ◌||◌, ◌==◌, if◌then◌else◌, update, ℤ, pos, negsuc, neg, is_neg, eq_ℤ,
}
use pennos.Base.Run.{Run, ok, fault, diverge, pure, ◌>>=◌, ◌>>◌, get, put, deref}
use pennos.Fat.State.{Kernel}
use pennos.Fat.Open.{k_open, k_close}
use pennos.Fat.Seek.{as_u32, k_lseek}
use pennos.Fat.Read.{Reading, no_bytes, k_read}
use pennos.Fat.Write.{k_write}
use pennos.Fat.FdTable.{k_setmode, k_getmode}
use pennos.Fat.Edit.{k_unlink, k_chmod, k_mv}
use pennos.Sched.State.{process_fd_table_size, FdSlot, Pcb, Scheduler, set_pcb}
use pennos.Sched.Sys.{Signal, p_sigstop, s_kill, s_set_errno}

-- The two halves of the kernel.
pub record System : Type 0 where
  pub files : Kernel
  pub processes : Scheduler

abbrev pub Cmd : Type 0 → Type 0
Cmd A = System → Run System A

abbrev pub with_files : {A : Type 0} → Scheduler → Run Kernel A → Run System A
with_files p (ok a k) = ok a (record { files = k; processes = p })
with_files p fault = fault
with_files p diverge = diverge

abbrev pub with_processes : {A : Type 0} → Kernel → Run Scheduler A → Run System A
with_processes k (ok a p) = ok a (record { files = k; processes = p })
with_processes k fault = fault
with_processes k diverge = diverge

abbrev pub on_files : {A : Type 0} → (Kernel → Run Kernel A) → Cmd A
on_files m s = with_files s.processes (m s.files)

abbrev pub on_processes : {A : Type 0} → (Scheduler → Run Scheduler A) → Cmd A
on_processes m s = with_processes s.files (m s.processes)

abbrev pub not_found : ℕ
not_found = 0xFFFF

unfoldable pub empty_spot_from : (ℕ → FdSlot) → (rounds i : ℕ) → ℕ
empty_spot_from table zero i = not_found
empty_spot_from table (suc rounds) i =
    let rest = empty_spot_from table rounds (i + 1) in if not (table i).in_use then i else rest

unfoldable pub find_empty_spot_in_process_fd_table : (ℕ → FdSlot) → ℕ
find_empty_spot_in_process_fd_table table = empty_spot_from table process_fd_table_size 0

-- `k_get_current_process()`, dereferenced.
unfoldable pub current_process : Cmd ℕ
current_process = do s ← get; deref s.processes.current_process

abbrev pub with_slot : System → ℕ → ℕ → FdSlot → System
with_slot s pid fd slot =
    let p = s.processes.pcb pid in
    record s {
      processes = set_pcb s.processes pid (record p { fd_table = update p.fd_table fd slot });
    }

unfoldable pub set_slot : (pid fd : ℕ) → FdSlot → Cmd (Unit {0})
set_slot pid fd slot s = ok tt (with_slot s pid fd slot)

abbrev pub fail : ℤ → Cmd ℤ
fail errno = do on_processes (s_set_errno errno); pure (neg 1)

-- A kernel call's status, as the system calls on names pass it on.
abbrev pub report : ℤ → Cmd ℤ
report status = if eq_ℤ status (pos 0) then pure (pos 0) else fail status

-- The entry's fields are 16, 32 and 8 bits wide.
abbrev pub opened_slot : (global_fd mode : ℕ) → FdSlot
opened_slot global_fd mode = record {
  global_fd = global_fd % 2 ^ 16;
  offset = 0;
  mode = mode % 2 ^ 8;
  in_use = true;
}

-- When the table is full, the reference that `k_open` has counted stays.
unfoldable pub enter_slot : (global_fd mode : ℕ) → Cmd ℤ
enter_slot global_fd mode = do
  current ← current_process
  s ← get
  let empty_spot = find_empty_spot_in_process_fd_table (s.processes.pcb current).fd_table
  if empty_spot == not_found
      then fail (neg 100)
      else (do set_slot current empty_spot (opened_slot global_fd mode); pure (pos empty_spot))

unfoldable pub s_open : List ℕ → ℕ → Cmd ℤ
s_open fname mode = do
  global_fd ← on_files (k_open fname mode)
  elim global_fd [ negsuc e ↦ fail (negsuc e) | pos fd ↦ enter_slot fd mode ]

-- A uint32_t that is passed as an int.
unfoldable pub as_int : ℕ → ℤ
as_int n = if ltb n (2 ^ 31) then pos n else negsuc (2 ^ 32 - 1 - n)

-- The current process and its entry for a descriptor, if it is in use. The source tests the upper
-- bound alone: a negative descriptor reads outside the table.
unfoldable pub find_slot : ℤ → Cmd (Option (ℕ × ℕ × FdSlot))
find_slot (negsuc _) = λ _. fault
find_slot (pos fd) = do
  current ← current_process
  s ← get
  let slot = (s.processes.pcb current).fd_table fd
  pure (if leb process_fd_table_size fd || not slot.in_use then none else some (current, fd, slot))

-- The process is stopped, and the call goes on.
unfoldable pub check_terminal : (current : ℕ) → FdSlot → Cmd (Unit {0})
check_terminal current slot = do
  s ← get
  if slot.global_fd == 0 && not (eq_ℤ s.processes.terminal_controlling_pid (pos current))
      then (do _ ← on_processes (s_kill current p_sigstop); pure tt)
      else pure tt

-- `offset += count`, also when the count is the negative code of an error.
unfoldable pub advance : (current fd : ℕ) → ℤ → Cmd (Unit {0})
advance current fd count = do
  s ← get
  let slot = (s.processes.pcb current).fd_table fd
  set_slot current fd (record slot { offset = (slot.offset + as_u32 count) % 2 ^ 32 })

unfoldable pub read_slot : (current fd : ℕ) → FdSlot → (n : ℤ) → Cmd Reading
read_slot current fd slot n = do
  check_terminal current slot
  _ ← on_files (k_lseek (pos slot.global_fd) (as_int slot.offset) 1)
  r ← on_files (k_read (pos slot.global_fd) n)
  advance current fd r.status
  pure r

unfoldable pub s_read : (fd n : ℤ) → Cmd Reading
s_read fd n = do
  found ← find_slot fd
  elim found [
    | none ↦ do _ ← fail (neg 101); pure (no_bytes (neg 1))
    | some (current, i, slot) ↦ read_slot current i slot n
  ]

-- The write itself, in the mode of the process; the descriptor's mode is put back behind it.
unfoldable pub write_in_mode : (current fd : ℕ) → FdSlot → (old_mode : ℤ) → List ℕ → (n : ℤ) → Cmd ℤ
write_in_mode current fd slot old_mode str n = do
  setmode_status ← on_files (k_setmode (pos slot.global_fd) (pos slot.mode))
  if not (eq_ℤ setmode_status (pos 0)) then fail setmode_status else (do
    bytes_written ← on_files (k_write (pos slot.global_fd) str n)
    restored ← on_files (k_setmode (pos slot.global_fd) old_mode)
    if not (eq_ℤ restored (pos 0))
        then fail setmode_status
        else (do advance current fd bytes_written; pure bytes_written))

-- `EK_LSEEK_SPECIAL_FD` is no error here.
unfoldable pub write_slot : (current fd : ℕ) → FdSlot → List ℕ → (n : ℤ) → Cmd ℤ
write_slot current fd slot str n = do
  check_terminal current slot
  seek_status ← on_files (k_lseek (pos slot.global_fd) (as_int slot.offset) 1)
  if not (eq_ℤ seek_status (neg 44)) && is_neg seek_status then fail seek_status else (do
    old_mode ← on_files (k_getmode (pos slot.global_fd))
    write_in_mode current fd slot old_mode str n)

unfoldable pub s_write : (fd : ℤ) → List ℕ → (n : ℤ) → Cmd ℤ
s_write fd str n = do
  found ← find_slot fd
  elim found [ none ↦ fail (neg 103) | some (current, i, slot) ↦ write_slot current i slot str n ]

unfoldable pub s_close : ℤ → Cmd ℤ
s_close fd = do
  found ← find_slot fd
  elim found [
    | none ↦ fail (neg 103)
    | some (current, i, slot) ↦ do
      _ ← on_files (k_close (pos slot.global_fd))
      set_slot current i (record slot { in_use = false })
      pure (pos 0)
  ]

unfoldable pub s_unlink : List ℕ → Cmd ℤ
s_unlink fname = do status ← on_files (k_unlink fname); report status

unfoldable pub s_chmod : List ℕ → (perm mode : ℕ) → Cmd ℤ
s_chmod fname perm mode = do status ← on_files (k_chmod fname perm mode); report status

unfoldable pub s_mv : (src dest : List ℕ) → Cmd ℤ
s_mv src dest = do status ← on_files (k_mv src dest); report status
